-- ===== src/Registered/Found.antt =====
-- The methods of operations through their handles, in the registry.
use cc_mqtt311_libs.Base.{
  ℕ, ◌≡◌, refl, sym, ◌==◌, Bool, Option, none, some, List, [], ◌∷◌, map, inl, inr, find_if, ◌==◌,
  Option-cases,
}
use cc_mqtt311_libs.Client.{
  Client, ErrorCode, ConnectOp, SubscribeOp, UnsubscribeOp, SendOp, connects, disconnects,
  subscribes, unsubscribes, sends,
}
use cc_mqtt311_libs.Client.Registry.{is_connect, is_subscribe, is_unsubscribe, is_send}
use cc_mqtt311_libs.Api.Interface.{
  found_op, with_connect, with_subscribe, with_unsubscribe, with_send, with_disconnect,
}
use cc_mqtt311_libs.Registered.{lists, HasType, IsRegistered}
use cc_mqtt311_libs.Registered.Evolves.{Evolves, outside}
use cc_mqtt311_libs.Registered.Known.{given_registry, found-HasType}
use cc_mqtt311_libs.Registered.Prepared.{Kept}

-- A method through a handle; the operation that it finds is one of its type.
found-Kept {ℓ} :
    {A : Type ℓ} (p : A → Bool) (xs : List A) (c : Client) (f : A → Client → Client × ErrorCode)
    → ((op : A) → find_if p xs ≡ some op → IsRegistered c → Evolves c (f op c).0)
    → Kept c (found_op (find_if p xs) f c)
found-Kept p xs c f h = elim (Option-cases (find_if p xs)) [
  | inl e ↦ rw e (record { kept = outside refl })
  | inr (op, e) ↦ rw e (record { kept = given_registry (λ r. h op e r) })
]

map-id : (xs : List ℕ) → map (λ x. x) xs ≡ xs
map-id [] = refl
map-id (x ∷ xs) = rw (map-id xs) refl

-- The methods through the handles of each type.
pub connect-Kept :
    (o : Option ℕ) (f : ConnectOp → Client → Client × ErrorCode) (c : Client)
    → ((op : ConnectOp) → HasType connects op.id (lists c) → Evolves c (f op c).0)
    → Kept c (with_connect o f c)
connect-Kept none f c h = record { kept = outside refl }
connect-Kept (some id) f c h = found-Kept (is_connect id) c.connect_ops c f (λ op e r.
    h op (found-HasType (λ (p : ConnectOp). p.id) connects (lists c) c.connect_ops refl _ op e r))

pub disconnect-Kept :
    (o : Option ℕ) (f : ℕ → Client → Client × ErrorCode) (c : Client)
    → ((op : ℕ) → HasType disconnects op (lists c) → Evolves c (f op c).0)
    → Kept c (with_disconnect o f c)
disconnect-Kept none f c h = record { kept = outside refl }
disconnect-Kept (some id) f c h =
    found-Kept (λ op. op == id) c.disconnect_ops c f
      (λ op e r. h op (
        found-HasType (λ p. p) disconnects (lists c) c.disconnect_ops
          (sym (map-id c.disconnect_ops)) _ op e r))

pub subscribe-Kept :
    (o : Option ℕ) (f : SubscribeOp → Client → Client × ErrorCode) (c : Client)
    → ((op : SubscribeOp) → HasType subscribes op.id (lists c) → Evolves c (f op c).0)
    → Kept c (with_subscribe o f c)
subscribe-Kept none f c h = record { kept = outside refl }
subscribe-Kept (some id) f c h = found-Kept (is_subscribe id) c.subscribe_ops c f (λ op e r.
    h op (
      found-HasType (λ (p : SubscribeOp). p.id) subscribes (lists c) c.subscribe_ops refl _ op e r))

pub unsubscribe-Kept :
    (o : Option ℕ) (f : UnsubscribeOp → Client → Client × ErrorCode) (c : Client)
    → ((op : UnsubscribeOp) → HasType unsubscribes op.id (lists c) → Evolves c (f op c).0)
    → Kept c (with_unsubscribe o f c)
unsubscribe-Kept none f c h = record { kept = outside refl }
unsubscribe-Kept (some id) f c h = found-Kept (is_unsubscribe id) c.unsubscribe_ops c f (λ op e r.
    h op (
      found-HasType (λ (p : UnsubscribeOp). p.id) unsubscribes (lists c) c.unsubscribe_ops refl _ op
        e r))

pub send-Kept :
    (o : Option ℕ) (f : SendOp → Client → Client × ErrorCode) (c : Client)
    → ((op : SendOp) → HasType sends op.id (lists c) → Evolves c (f op c).0)
    → Kept c (with_send o f c)
send-Kept none f c h = record { kept = outside refl }
send-Kept (some id) f c h =
    found-Kept (is_send id) c.send_ops c f (λ op e r.
      h op (found-HasType (λ (p : SendOp). p.id) sends (lists c) c.send_ops refl _ op e r))
