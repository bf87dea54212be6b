-- ===== src/Session/Acks/Resend.antt =====
-- The loop of `ClientImpl::resendAllUntil` ends.
use cc_mqtt311_libs.Base.{
  ℕ, zero, suc, ◌+◌, ◌-◌, ◌<◌, ◌≡◌, refl, ◌∙◌, Bool, true, false, not, inl, inr, some, ◌==◌,
  if◌then◌else◌, leb, length, get_elem?, get_elem?_lt, find_index, find_index_found, Bool-cases,
  Option-cases, arith,
}
use cc_mqtt311_libs.Client.{
  Client, Build, SendOp, ErrorCode, publish_msg, pubrel_msg, timeout, failed_internally,
}
use cc_mqtt311_libs.Client.Registry.{is_send, update_send}
use cc_mqtt311_libs.Client.Sends.{restart_send_timer, count_attempt, is_success}
use cc_mqtt311_libs.Client.Sends.Lists.{UniqueSends, find_index-get_elem}
use cc_mqtt311_libs.Client.Sends.Settles.{
  Settled, Settled-trans, IsListed, Same, Same-trans, Same-Settled, outside-Same, update_send-Same,
  send_message-Same, Moved, Moved-Settled, if-Moved,
}
use cc_mqtt311_libs.Client.Sends.Fuel.{complete_send-Moved}
use cc_mqtt311_libs.Ops.Send.{mark_dup, after_resend, resend_dup_msg, force_dup_resend}
use cc_mqtt311_libs.Session.Acks.{is_at, resend_all_from, resend_all_until}

module _ (b : Build) where
  Same-Moved : (c d e : Client) → Same c d → Moved d e → Moved c e
  Same-Moved c d e same (inl s) = inl (Same-trans same s)
  Same-Moved c d e same (inr (s, l)) =
      inr (Settled-trans (Same-Settled same) s, omega (arith, same.size, l))

  IsListed-later : (id : ℕ) (c d : Client) → Same c d → IsListed id c → IsListed id d
  IsListed-later id c d same here = omega (arith, same.index id, same.size, here)

  after_resend-Moved :
      (op : SendOp) (c d : Client) (ec : ErrorCode)
      → Same c d
      → IsListed op.id c
      → Moved c (after_resend b op (d, ec))
  unfolding restart_send_timer
  after_resend-Moved op c d ec same here =
      let counted = update_send-Same op.id count_attempt d (λ o. refl) (λ o. refl) same.unique in
      if-Moved (not (is_success ec)) _ _
        (Same-Moved c d _ same (
          complete_send-Moved b op.id failed_internally d same.unique
            (IsListed-later op.id c d same here)))
        (inl (Same-trans same (Same-trans counted (outside-Same _ _ counted.unique refl refl))))

  -- A publish that is sent again, or given up.
  pub resend_dup_msg-Moved :
      (op : SendOp) (c : Client)
      → UniqueSends c.send_ops
      → IsListed op.id c
      → Moved c (resend_dup_msg b op c)
  unfolding resend_dup_msg
  resend_dup_msg-Moved op c u here =
      let marked = update_send-Same op.id mark_dup c (λ o. refl) (λ o. refl) u in
      if-Moved (leb op.total_send_attempts op.send_attempts) _ _
        (complete_send-Moved b op.id timeout c u here)
        (if-Moved (not op.acked) _ _
          (after_resend-Moved op c _ _
            (Same-trans marked (
              send_message-Same b (publish_msg (mark_dup op).pub_msg) (update_send op.id mark_dup c)
                marked.unique))
            here)
          (after_resend-Moved op c _ _ (send_message-Same b (pubrel_msg op.pub_msg.packet_id) c u)
            here))

  force_dup_resend-Moved :
      (op : SendOp) (c : Client)
      → UniqueSends c.send_ops
      → IsListed op.id c
      → Moved c (force_dup_resend b op c)
  unfolding force_dup_resend
  force_dup_resend-Moved op c u here =
      if-Moved op.paused _ _ (inl (outside-Same c c u refl refl)) (resend_dup_msg-Moved op c u here)

  -- Each round passes one publish by, or the list gets shorter.
  round_ends :
      (idx : ℕ) (op : SendOp) (c d : Client)
      → UniqueSends c.send_ops
      → get_elem? c.send_ops idx ≡ some op
      → Moved c d
      → length d.send_ops - (if is_at d.send_ops idx op.id then idx + 1 else idx)
        < length c.send_ops - idx
  round_ends idx op c d u e (inl same) =
      let place = find_index-get_elem c.send_ops idx op u e in
      let within = get_elem?_lt c.send_ops idx op e in
      let there : find_index (is_send op.id) d.send_ops ≡ idx = same.index op.id ∙ place in
      let (o, f, h) =
        find_index_found (is_send op.id) d.send_ops (omega (arith, there, same.size, within)) in
      let f' : get_elem? d.send_ops idx ≡ some o = rw there at f in
      let t : is_at d.send_ops idx op.id ≡ true = rw (f', is_at) h in
      rw t (omega (arith, same.size, within))
  round_ends idx op c d u e (inr (s, l)) =
      let within = get_elem?_lt c.send_ops idx op e in
      elim (Bool-cases (is_at d.send_ops idx op.id)) [
        | inl t ↦ rw t (omega (arith, within, l))
        | inr t ↦ rw t (omega (arith, within, l))
      ]

  if-Settled :
      (c : Client) (t : Bool) (x y : Client)
      → Settled c x
      → Settled c y
      → Settled c (if t then x else y)
  if-Settled c true x y sx sy = sx
  if-Settled c false x y sx sy = sy

  resend_all_from-Settled :
      (fuel id idx : ℕ) (c : Client)
      → UniqueSends c.send_ops
      → length c.send_ops - idx < fuel
      → Settled c (resend_all_from b fuel id idx c)
  unfolding resend_all_from
  resend_all_from-Settled zero id idx c u small = absurd (omega arith)
  resend_all_from-Settled (suc fuel) id idx c u small =
      elim (Option-cases (get_elem? c.send_ops idx)) [
        | inl e ↦ rw (e, resend_all_from) (Same-Settled (outside-Same c c u refl refl))
        | inr (op, e) ↦
            let place = find_index-get_elem c.send_ops idx op u e in
            let within = get_elem?_lt c.send_ops idx op e in
            let c1 = force_dup_resend b op c in
            let moved = force_dup_resend-Moved op c u (omega (arith, place, within)) in
            let s = Moved-Settled moved in
            let less = round_ends idx op c c1 u e moved in
            rw (e, resend_all_from)
              (if-Settled c (op.id == id) _ _ s (
                Settled-trans s
                  (resend_all_from-Settled fuel id _ c1 s.unique (omega (arith, less, small)))))
      ]

  -- The fuel that resending is given is enough.
  pub resend_all_until-Settled :
      (id : ℕ) (c : Client) → UniqueSends c.send_ops → Settled c (resend_all_until b id c)
  unfolding resend_all_until
  resend_all_until-Settled id c u =
      resend_all_from-Settled (length c.send_ops + 1) id 0 c u (omega arith)
