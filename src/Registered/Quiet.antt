-- ===== src/Registered/Quiet.antt =====
-- Completing an operation that is no publish: its pointer is nulled, and nothing else of what matters
-- to the others changes.
use cc_mqtt311_libs.Base.{
  ℕ, ◌≡◌, refl, ap, ◌∙◌, Bool, true, false, inl, inr, Option, none, some, List, [], ◌∷◌, map, ◌==◌,
  ==_iff, zero, suc, find_if, get_elem?, Option-cases, Bool-cases, arith,
}
use cc_mqtt311_libs.Client.{
  Client, Build, Event, AsyncOpStatus, OpPtr, OpType, ConnectOp, SubscribeOp, UnsubscribeOp,
  connects, keeps_alive, disconnects, subscribes, unsubscribes, receives, sends,
}
use cc_mqtt311_libs.Client.Registry.{
  nullify, points_to, is_connect, is_keep_alive, is_subscribe, is_unsubscribe, erase_connect,
  erase_keep_alive, erase_disconnect, erase_subscribe, erase_unsubscribe,
}
use cc_mqtt311_libs.Client.Sends.{op_complete, op_complete_with, op_complete_by_type, resume_since}
use cc_mqtt311_libs.Client.Broker.{
  keep_send_recv, is_kept, report_if, complete_connect, complete_subscribe, complete_unsubscribe,
  terminate_by_type, terminate_op,
}
use cc_mqtt311_libs.Registered.{has, lists, list_ids, IsRegistered}
use cc_mqtt311_libs.Registered.Known.{at-live}
use cc_mqtt311_libs.Registered.Erasure.{unlink}

-- From the first client to the second the pointers become these, and publishes and the session stay.
pub record Quiet (ops : List (Option OpPtr)) (c d : Client) : Type 0 where
  pub ops_are : d.ops ≡ ops
  pub send_ops : d.send_ops ≡ c.send_ops
  pub recv_ops : d.recv_ops ≡ c.recv_ops
  pub session : d.session ≡ c.session

abbrev pub still : (c : Client) → Quiet c.ops c c
still c = record { ops_are = refl; send_ops = refl; recv_ops = refl; session = refl }

report_if-Quiet :
    (ops : List (Option OpPtr)) (c d : Client) (t : Bool) (e : Event)
    → Quiet ops c d
    → Quiet ops c (report_if t e d)
report_if-Quiet ops c d true e q = record {
  ops_are = q.ops_are;
  send_ops = q.send_ops;
  recv_ops = q.recv_ops;
  session = q.session;
}
report_if-Quiet ops c d false e q = q

-- The operations that are not publishes.
erase-Quiet :
    (b : Build) (t : OpType) (id : ℕ) (c : Client)
    → is_kept keep_send_recv t ≡ false
    → Quiet c.ops c (op_complete_by_type (resume_since b) t id c)
unfolding op_complete_by_type erase_connect erase_keep_alive erase_disconnect erase_subscribe
    erase_unsubscribe
erase-Quiet b connects id c h = elim (Option-cases (find_if (is_connect id) c.connect_ops)) [
  | inl e ↦ rw e (record { ops_are = refl; send_ops = refl; recv_ops = refl; session = refl })
  | inr (op, e) ↦ rw e (record { ops_are = refl; send_ops = refl; recv_ops = refl; session = refl })
]
erase-Quiet b keeps_alive id c h =
    elim (Option-cases (find_if (is_keep_alive id) c.keep_alive_ops)) [
      | inl e ↦ rw e (record { ops_are = refl; send_ops = refl; recv_ops = refl; session = refl })
      | inr (op, e) ↦
          rw e (record { ops_are = refl; send_ops = refl; recv_ops = refl; session = refl })
    ]
erase-Quiet b disconnects id c h = record {
  ops_are = refl;
  send_ops = refl;
  recv_ops = refl;
  session = refl;
}
erase-Quiet b subscribes id c h = elim (Option-cases (find_if (is_subscribe id) c.subscribe_ops)) [
  | inl e ↦ rw e (record { ops_are = refl; send_ops = refl; recv_ops = refl; session = refl })
  | inr (op, e) ↦ rw e (record { ops_are = refl; send_ops = refl; recv_ops = refl; session = refl })
]
erase-Quiet b unsubscribes id c h =
    elim (Option-cases (find_if (is_unsubscribe id) c.unsubscribe_ops)) [
      | inl e ↦ rw e (record { ops_are = refl; send_ops = refl; recv_ops = refl; session = refl })
      | inr (op, e) ↦
          rw e (record { ops_are = refl; send_ops = refl; recv_ops = refl; session = refl })
    ]
erase-Quiet b receives id c h = cc
erase-Quiet b sends id c h = cc

pointed :
    (i : ℕ) (p : OpPtr) (ps : List (Option OpPtr))
    → get_elem? ps i ≡ some (some p)
    → ¬ (find_if (points_to p.id) ps ≡ none)
pointed i p [] e f = cc
pointed zero p (none ∷ ps) e f = cc
pointed zero p (some q ∷ ps) e f =
    let same : q ≡ p = cc in
    let found : (q.id == p.id) ≡ true = rw same ((==_iff p.id p.id).1 refl) in cc (f, found)
pointed (suc i) p (none ∷ ps) e f = pointed i p ps e f
pointed (suc i) p (some q ∷ ps) e f = elim (Bool-cases (q.id == p.id)) [
  | inl g ↦ cc (f, g)
  | inr g ↦ pointed i p ps e (cc (f, g))
]

has-found {ℓ} :
    {A : Type ℓ} (key : A → ℕ) (id : ℕ) (xs : List A)
    → has id (map key xs) ≡ true
    → ¬ (find_if (λ a. key a == id) xs ≡ none)
has-found key id [] h f = cc
has-found key id (x ∷ xs) h f = elim (Bool-cases (key x == id)) [
  | inl e ↦ cc (e, f)
  | inr e ↦ has-found key id xs (ground (arith, e, h)) (cc (e, f))
]

module _ (b : Build) where
  op_complete-Quiet :
      (i : ℕ) (p : OpPtr) (c : Client)
      → get_elem? c.ops i ≡ some (some p)
      → is_kept keep_send_recv p.op_type ≡ false
      → Quiet (nullify p.id c.ops) c (op_complete b p c)
  unfolding op_complete op_complete_with
  op_complete-Quiet i p c e h = elim (Option-cases (find_if (points_to p.id) c.ops)) [
    | inl f ↦ absurd (pointed i p c.ops e f)
    | inr (q, f) ↦
        rw (f, op_complete_with)
          (let s = erase-Quiet b p.op_type p.id (unlink p.id c) h in
            record {
              ops_are = s.ops_are;
              send_ops = s.send_ops;
              recv_ops = s.recv_ops;
              session = s.session;
            })
  ]

  -- The operation that a pointer is to is in the list of its type.
  listed_there :
      (i : ℕ) (p : OpPtr) (c : Client)
      → get_elem? c.ops i ≡ some (some p)
      → IsRegistered c
      → has p.id (list_ids p.op_type (lists c)) ≡ true
  listed_there i p c e r = ap (has p.id) (r.listed p.op_type) ∙ at-live i p c.ops e

  terminate-Quiet :
      (i : ℕ) (t : OpType) (id : ℕ) (status : AsyncOpStatus) (c : Client)
      → get_elem? c.ops i ≡ some (some (record { op_type = t; id = id }))
      → is_kept keep_send_recv t ≡ false
      → IsRegistered c
      → Quiet (nullify id c.ops) c (terminate_by_type b t id status c)
  unfolding terminate_by_type complete_connect complete_subscribe complete_unsubscribe
  terminate-Quiet i connects id status c e h r =
      elim (Option-cases (find_if (is_connect id) c.connect_ops)) [
        | inl f ↦
            absurd (has-found (λ (o : ConnectOp). o.id) id c.connect_ops (listed_there i _ c e r) f)
        | inr (op, f) ↦
            rw (f, complete_connect)
              (report_if-Quiet _ c _ op.has_cb _ (op_complete-Quiet i _ c e h))
      ]
  terminate-Quiet i keeps_alive id status c e h r = op_complete-Quiet i _ c e h
  terminate-Quiet i disconnects id status c e h r = op_complete-Quiet i _ c e h
  terminate-Quiet i subscribes id status c e h r =
      elim (Option-cases (find_if (is_subscribe id) c.subscribe_ops)) [
        | inl f ↦
            absurd
              (has-found (λ (o : SubscribeOp). o.id) id c.subscribe_ops (listed_there i _ c e r) f)
        | inr (op, f) ↦
            rw (f, complete_subscribe)
              (report_if-Quiet _ c _ op.has_cb _ (op_complete-Quiet i _ c e h))
      ]
  terminate-Quiet i unsubscribes id status c e h r =
      elim (Option-cases (find_if (is_unsubscribe id) c.unsubscribe_ops)) [
        | inl f ↦ absurd (
            has-found (λ (o : UnsubscribeOp). o.id) id c.unsubscribe_ops (listed_there i _ c e r) f)
        | inr (op, f) ↦
            rw (f, complete_unsubscribe)
              (report_if-Quiet _ c _ op.has_cb _ (op_complete-Quiet i _ c e h))
      ]
  terminate-Quiet i receives id status c e h r = cc
  terminate-Quiet i sends id status c e h r = cc

  pub terminate_op-Quiet :
      (i : ℕ) (p : OpPtr) (status : AsyncOpStatus) (c : Client)
      → get_elem? c.ops i ≡ some (some p)
      → is_kept keep_send_recv p.op_type ≡ false
      → IsRegistered c
      → Quiet (nullify p.id c.ops) c (terminate_op b p status c)
  unfolding terminate_op
  terminate_op-Quiet i p status c e h r = terminate-Quiet i p.op_type p.id status c e h r
