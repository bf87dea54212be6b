-- ===== src/Client/Sends/Order.antt =====
-- `SendOp::canSend`: which publishes go out at once, and which wait.
use cc_mqtt311_libs.Base.{
  ℕ, ◌≡◌, refl, Bool, true, false, not, ◌&&◌, ◌||◌, List, [], ◌∷◌, ◌++◌, ◌⊎◌, inl, inr, Bool-cases,
  ltb, leb, ◌==◌, find_index, length, All, arith,
}
use cc_mqtt311_libs.State.{PublishOrdering, same_qos, full}
use cc_mqtt311_libs.Client.{Client, SendOp}
use cc_mqtt311_libs.Client.Sends.{paused_at, has_paused_sends_before, higher_qos_before, can_send}

-- The publish at the end of the list waits.
abbrev pub last_paused : List SendOp → Bool
last_paused [] = false
last_paused (op ∷ []) = op.paused
last_paused (op ∷ o ∷ rest) = last_paused (o ∷ rest)

abbrev pub any_paused : List SendOp → Bool
any_paused [] = false
any_paused (op ∷ rest) = op.paused || any_paused rest

abbrev pub none_above : ℕ → List SendOp → Bool
none_above qos [] = true
none_above qos (op ∷ rest) = leb op.pub_msg.qos qos && none_above qos rest

-- The rule of client/lib/doxygen/main.dox: with the full ordering a publish is postponed if another
-- one before it is, or if one before it has a higher QoS.
abbrev pub goes_by_doc : PublishOrdering → ℕ → List SendOp → Bool
goes_by_doc same_qos qos before = true
goes_by_doc full qos before = not (any_paused before || not (none_above qos before))

last-any_paused : (before : List SendOp) → any_paused before ≡ false → last_paused before ≡ false
last-any_paused [] h = refl
last-any_paused (op ∷ []) h = ground arith
last-any_paused (op ∷ o ∷ before) h = last-any_paused (o ∷ before) (ground (arith, h))

doc_stricter :
    (above : Bool) (before : List SendOp)
    → not (any_paused before || above)
      ≡ ((not (last_paused before) && not above) && not (any_paused before))
doc_stricter above before = elim (Bool-cases (any_paused before)) [
  | inl e ↦ ground arith
  | inr e ↦ let l = last-any_paused before e in ground arith
]

abbrev pub is_full : PublishOrdering → Bool
is_full full = true
is_full same_qos = false

higher_qos_lem :
    (op : SendOp) (before later : List SendOp)
    → All (λ o. (o.id == op.id) ≡ false) before
    → higher_qos_before op.id op.pub_msg.qos (before ++ op ∷ later)
      ≡ not (none_above op.pub_msg.qos before)
unfolding higher_qos_before
higher_qos_lem op [] later a = ground arith
higher_qos_lem op (o ∷ before) later a = ground (arith, higher_qos_lem op before later a.1)

index_lem :
    (op : SendOp) (before later : List SendOp)
    → All (λ o. (o.id == op.id) ≡ false) before
    → find_index (λ o. o.id == op.id) (before ++ op ∷ later) ≡ length before
index_lem op [] later a = ground arith
index_lem op (o ∷ before) later a = ground (arith, index_lem op before later a.1)

paused_lem :
    (op : SendOp) (before later : List SendOp)
    → paused_at (before ++ op ∷ later) (length before) ≡ last_paused before
paused_lem op [] later = refl
paused_lem op (o ∷ []) later = refl
paused_lem op (o ∷ p ∷ before) later = paused_lem op (p ∷ before) later

length_lem :
    (op : SendOp) (before later : List SendOp)
    → ltb (length before) (length (before ++ op ∷ later)) ≡ true
length_lem op [] later = ground arith
length_lem op (o ∷ before) later = ground (arith, length_lem op before later)

paused_before :
    (c : Client) (before : List SendOp) (op : SendOp) (later : List SendOp)
    → c.send_ops ≡ before ++ op ∷ later
    → All (λ o. (o.id == op.id) ≡ false) before
    → has_paused_sends_before op.id c ≡ last_paused before
unfolding has_paused_sends_before
paused_before c before op later e a =
    rw (e, index_lem op before later a, length_lem op before later) (paused_lem op before later)

ordering_cases : (x : PublishOrdering) → (x ≡ same_qos) ⊎ (x ≡ full)
ordering_cases same_qos = inl refl
ordering_cases full = inr refl

-- A publish in the list, whose identity none before it has, goes out at once exactly if the
-- ordering is by QoS only, or the publish just before it is not waiting and none before it has a
-- higher QoS. By the rule of the documentation, with which none at all before it may wait, it goes
-- out at once exactly if the program sends it and, with the full ordering, no publish before it
-- waits.
pub can_send_lem :
    (c : Client) (before : List SendOp) (op : SendOp) (later : List SendOp)
    → c.send_ops ≡ before ++ op ∷ later
    → All (λ o. (o.id == op.id) ≡ false) before
    → (can_send op c ≡ (
        not (is_full c.config.publish_ordering)
        || not (last_paused before) && none_above op.pub_msg.qos before))
      × (goes_by_doc c.config.publish_ordering op.pub_msg.qos before
          ≡ (can_send op c && (not (is_full c.config.publish_ordering) || not (any_paused before))))
unfolding can_send
can_send_lem c before op later e a = elim (ordering_cases c.config.publish_ordering) [
  | inl o ↦ rw o (ground arith, ground arith)
  | inr o ↦
      let higher : higher_qos_before op.id op.pub_msg.qos c.send_ops
          ≡ not (none_above op.pub_msg.qos before) =
        rw e (higher_qos_lem op before later a) in
      let stricter = doc_stricter (not (none_above op.pub_msg.qos before)) before in
      let waits = paused_before c before op later e a in
      rw (o, waits, higher) (ground arith, ground (arith, stricter))
]
