-- ===== src/Registered/Erasure.antt =====
-- Completing an operation of any type, in the registry.
use cc_mqtt311_libs.Base.{
  ℕ, ◌≡◌, refl, true, inl, inr, List, [], ◌∷◌, map, ◌==◌, find_if, erase_first, Bool-cases,
  Option-cases, arith,
}
use cc_mqtt311_libs.Client.{
  Client, ConnectOp, KeepAliveOp, SubscribeOp, UnsubscribeOp, RecvOp, SendOp, connects, keeps_alive,
  disconnects, subscribes, unsubscribes, receives, sends,
}
use cc_mqtt311_libs.Client.Registry.{
  nullify, is_connect, is_keep_alive, is_subscribe, is_unsubscribe, is_recv, is_send, erase_connect,
  erase_keep_alive, erase_disconnect, erase_subscribe, erase_unsubscribe, erase_recv, erase_send,
}
use cc_mqtt311_libs.Registered.{lists, HasType}
use cc_mqtt311_libs.Registered.Pointers.{erase_id}
use cc_mqtt311_libs.Registered.Evolves.{Evolves, removed}

map-erase_first {ℓ} :
    {A : Type ℓ} (key : A → ℕ) (id : ℕ) (xs : List A)
    → map key (erase_first (λ a. key a == id) xs) ≡ erase_id id (map key xs)
map-erase_first key id [] = refl
map-erase_first key id (x ∷ xs) = elim (Bool-cases (key x == id)) [
  | inl e ↦ rw e refl
  | inr e ↦ rw (e, map-erase_first key id xs) refl
]

-- The pointer is nulled first.
abbrev pub unlink : ℕ → Client → Client
unlink id c = record c { ops = nullify id c.ops; ops_deleted = true }

erase_connect-lists :
    (id : ℕ) (c : Client)
    → lists (erase_connect id c)
      ≡ record (lists c) { connect_ops = erase_first (is_connect id) c.connect_ops }
unfolding erase_connect
erase_connect-lists id c = elim (Option-cases (find_if (is_connect id) c.connect_ops)) [
  | inl e ↦ rw (e, erase_connect) refl
  | inr (op, e) ↦ rw (e, erase_connect) refl
]

erase_keep_alive-lists :
    (id : ℕ) (c : Client)
    → lists (erase_keep_alive id c)
      ≡ record (lists c) { keep_alive_ops = erase_first (is_keep_alive id) c.keep_alive_ops }
unfolding erase_keep_alive
erase_keep_alive-lists id c = elim (Option-cases (find_if (is_keep_alive id) c.keep_alive_ops)) [
  | inl e ↦ rw (e, erase_keep_alive) refl
  | inr (op, e) ↦ rw (e, erase_keep_alive) refl
]

erase_subscribe-lists :
    (id : ℕ) (c : Client)
    → lists (erase_subscribe id c)
      ≡ record (lists c) { subscribe_ops = erase_first (is_subscribe id) c.subscribe_ops }
unfolding erase_subscribe
erase_subscribe-lists id c = elim (Option-cases (find_if (is_subscribe id) c.subscribe_ops)) [
  | inl e ↦ rw (e, erase_subscribe) refl
  | inr (op, e) ↦ rw (e, erase_subscribe) refl
]

erase_unsubscribe-lists :
    (id : ℕ) (c : Client)
    → lists (erase_unsubscribe id c)
      ≡ record (lists c) { unsubscribe_ops = erase_first (is_unsubscribe id) c.unsubscribe_ops }
unfolding erase_unsubscribe
erase_unsubscribe-lists id c = elim (Option-cases (find_if (is_unsubscribe id) c.unsubscribe_ops)) [
  | inl e ↦ rw (e, erase_unsubscribe) refl
  | inr (op, e) ↦ rw (e, erase_unsubscribe) refl
]

erase_recv-lists :
    (id : ℕ) (c : Client)
    → lists (erase_recv id c) ≡ record (lists c) { recv_ops = erase_first (is_recv id) c.recv_ops }
unfolding erase_recv
erase_recv-lists id c = elim (Option-cases (find_if (is_recv id) c.recv_ops)) [
  | inl e ↦ rw (e, erase_recv) refl
  | inr (op, e) ↦ rw (e, erase_recv) refl
]

erase_send-lists :
    (id : ℕ) (c : Client)
    → lists (erase_send id c) ≡ record (lists c) { send_ops = erase_first (is_send id) c.send_ops }
unfolding erase_send
erase_send-lists id c = elim (Option-cases (find_if (is_send id) c.send_ops)) [
  | inl e ↦ rw (e, erase_send) refl
  | inr (op, e) ↦ rw (e, erase_send) refl
]

-- In each type of operations the erased one leaves its list, and its pointer is nulled.
pub erase_disconnect-Evolves :
    (id : ℕ) (c : Client)
    → HasType disconnects id (lists c)
    → Evolves c (erase_disconnect id (unlink id c))
unfolding erase_disconnect
erase_disconnect-Evolves id c h = record {
  grown = λ r. removed disconnects id (lists c) _ refl (λ s e. ground arith) refl refl h r;
}

pub erase_connect-Evolves :
    (id : ℕ) (c : Client)
    → HasType connects id (lists c)
    → Evolves c (erase_connect id (unlink id c))
erase_connect-Evolves id c h = record {
  grown = λ r. rw (erase_connect-lists id (unlink id c)) (
      removed connects id (lists c) _ (map-erase_first (λ (o : ConnectOp). o.id) id c.connect_ops)
        (λ s e. ground arith) refl refl h r);
}

pub erase_keep_alive-Evolves :
    (id : ℕ) (c : Client)
    → HasType keeps_alive id (lists c)
    → Evolves c (erase_keep_alive id (unlink id c))
erase_keep_alive-Evolves id c h = record {
  grown = λ r. rw (erase_keep_alive-lists id (unlink id c)) (
      removed keeps_alive id (lists c) _
        (map-erase_first (λ (o : KeepAliveOp). o.id) id c.keep_alive_ops) (λ s e. ground arith) refl
        refl h r);
}

pub erase_subscribe-Evolves :
    (id : ℕ) (c : Client)
    → HasType subscribes id (lists c)
    → Evolves c (erase_subscribe id (unlink id c))
erase_subscribe-Evolves id c h = record {
  grown = λ r. rw (erase_subscribe-lists id (unlink id c)) (
      removed subscribes id (lists c) _
        (map-erase_first (λ (o : SubscribeOp). o.id) id c.subscribe_ops) (λ s e. ground arith) refl
        refl h r);
}

pub erase_unsubscribe-Evolves :
    (id : ℕ) (c : Client)
    → HasType unsubscribes id (lists c)
    → Evolves c (erase_unsubscribe id (unlink id c))
erase_unsubscribe-Evolves id c h = record {
  grown = λ r. rw (erase_unsubscribe-lists id (unlink id c)) (
      removed unsubscribes id (lists c) _
        (map-erase_first (λ (o : UnsubscribeOp). o.id) id c.unsubscribe_ops) (λ s e. ground arith)
        refl refl h r);
}

pub erase_recv-Evolves :
    (id : ℕ) (c : Client) → HasType receives id (lists c) → Evolves c (erase_recv id (unlink id c))
erase_recv-Evolves id c h = record {
  grown = λ r. rw (erase_recv-lists id (unlink id c)) (
      removed receives id (lists c) _ (map-erase_first (λ (o : RecvOp). o.id) id c.recv_ops)
        (λ s e. ground arith) refl refl h r);
}

pub erase_send-Evolves :
    (id : ℕ) (c : Client) → HasType sends id (lists c) → Evolves c (erase_send id (unlink id c))
erase_send-Evolves id c h = record {
  grown = λ r. rw (erase_send-lists id (unlink id c)) (
      removed sends id (lists c) _ (map-erase_first (λ (o : SendOp). o.id) id c.send_ops)
        (λ s e. ground arith) refl refl h r);
}
