-- ===== src/Client/Sends/Attempts.antt =====
-- What completing, sending and resuming one publish does to the list of publishes and to the trace,
-- whatever the call that resumes the later ones does, as long as it settles.
use cc_mqtt311_libs.Base.{
  ℕ, ◌+◌, ◌<◌, ◌≡◌, refl, Bool, true, false, not, ◌⊎◌, inl, inr, ◌==◌, if◌then◌else◌, find_if,
  find_index, Option-cases, arith,
}
use cc_mqtt311_libs.Client.{Client, Build, ErrorCode, AsyncOpStatus, SendOp, complete, publish_msg}
use cc_mqtt311_libs.Client.Output.{send_message}
use cc_mqtt311_libs.Client.Registry.{is_send, points_to, nullify, erase_send, update_send}
use cc_mqtt311_libs.Client.Sends.{
  Resume, op_complete_send, op_complete_by_type, op_complete_with, send_ptr, complete_send_with,
  restart_send_timer, first_attempt, no_attempts, after_send, after_resume, resume_status,
  is_success, do_send_internal,
}
use cc_mqtt311_libs.Client.Sends.Lists.{UniqueSends, find_if_here}
use cc_mqtt311_libs.Client.Sends.Settles.{
  Settled, Settled-trans, rounds, Settles, IsListed, erase_send-Settled, if-Settled, Same,
  Same-trans, Same-Settled, outside-Same, update_send-Same, send_message-Same, Shortened, Moved,
  Moved-Settled, if-Shortened, if-Moved, outside-Moved,
}

module _ (k : ℕ) (again : Resume) (settles : Settles k again) where
  op_complete_send-Shortened :
      (id : ℕ) (c : Client)
      → UniqueSends c.send_ops
      → IsListed id c
      → rounds (find_index (is_send id) c.send_ops) c < k + 1
      → Shortened c (op_complete_send again id c)
  unfolding op_complete_send
  op_complete_send-Shortened id c u here small =
      let (erased, shorter) = erase_send-Settled id c u here in
      let rest =
        settles (find_index (is_send id) c.send_ops) (erase_send id c) erased.unique
          (omega (arith, erased.paused)) in
      if-Shortened c.session.disconnecting _ _ (erased, omega arith)
        (Settled-trans erased rest, omega (arith, rest.fewer))

  op_complete_with-Moved :
      (id : ℕ) (c : Client)
      → UniqueSends c.send_ops
      → IsListed id c
      → rounds (find_index (is_send id) c.send_ops) c < k + 1
      → Moved c (op_complete_with again (send_ptr id) c)
  unfolding op_complete_with op_complete_by_type
  op_complete_with-Moved id c u here small = elim (Option-cases (find_if (points_to id) c.ops)) [
    | inl e ↦ rw (e, op_complete_with) (inl (outside-Same c c u refl refl))
    | inr (p, e) ↦
        let (s, l) =
          op_complete_send-Shortened id (record c { ops = nullify id c.ops; ops_deleted = true }) u
            here small in
        rw (e, op_complete_with)
          (inr (
            record {
              unique = s.unique;
              paused = s.paused;
              fewer = s.fewer;
              no_faults = s.no_faults;
            },
            l,
          ))
  ]

  -- A publish that is completed.
  pub complete_send_with-Moved :
      (id : ℕ) (status : AsyncOpStatus) (c : Client)
      → UniqueSends c.send_ops
      → IsListed id c
      → rounds (find_index (is_send id) c.send_ops) c < k + 1
      → Moved c (complete_send_with again id status c)
  unfolding complete_send_with
  complete_send_with-Moved id status c u here small =
      let (op, found, same) = find_if_here id c.send_ops here in
      let s = op_complete_with-Moved id c u here small in
      rw (found, complete_send_with) (if-Moved op.has_cb _ _ (outside-Moved _ s refl refl) s)

  -- The same, for a client in which the publishes stand where they stood.
  complete_later-Settled :
      (id : ℕ) (status : AsyncOpStatus) (c d : Client)
      → Same c d
      → IsListed id c
      → rounds (find_index (is_send id) c.send_ops) c < k + 1
      → Settled c (complete_send_with again id status d)
  complete_later-Settled id status c d same here small =
      let i = same.index id in
      Settled-trans (Same-Settled same) (
        Moved-Settled (
          complete_send_with-Moved id status d same.unique (omega (arith, i, same.size, here))
            (omega (arith, i, same.size, same.paused, small))))

  -- After an attempt to send, either nothing has moved, or the attempt has succeeded.
  abbrev pub Attempted : Client → Client × ErrorCode → Type 0
  Attempted c r = Same c r.0 ⊎ (Settled c r.0 × (is_success r.1 ≡ true))

  if-Attempted :
      {c : Client} (t : Bool) (x y : Client × ErrorCode)
      → (t ≡ true → Attempted c x)
      → (t ≡ false → Attempted c y)
      → Attempted c (if t then x else y)
  if-Attempted true x y f g = f refl
  if-Attempted false x y f g = g refl

  after_send-Attempted :
      (op : SendOp) (c d : Client) (ec : ErrorCode)
      → Same c d
      → IsListed op.id c
      → rounds (find_index (is_send op.id) c.send_ops) c < k + 1
      → Attempted c (after_send again op (d, ec))
  unfolding restart_send_timer
  after_send-Attempted op c d ec same here small =
      let sent =
        Same-trans same
          (update_send-Same op.id first_attempt d (λ o. refl) (λ o. refl) same.unique) in
      if-Attempted (not (is_success ec)) _ _ (λ e. inl same)
        λ e.
          if-Attempted (op.pub_msg.qos == 0) _ _
            (λ z. inr (
              complete_later-Settled op.id complete c (update_send op.id first_attempt d) sent here
                  small,
              refl,
            ))
            (λ z.
              inr (Same-Settled (Same-trans sent (outside-Same _ _ sent.unique refl refl)), refl))

  module _ (b : Build) where
    pub do_send_internal-Attempted :
        (id : ℕ) (c : Client)
        → UniqueSends c.send_ops
        → IsListed id c
        → rounds (find_index (is_send id) c.send_ops) c < k + 1
        → Attempted c (do_send_internal b again id c)
    unfolding do_send_internal
    do_send_internal-Attempted id c u here small =
        let (op, found, e) = find_if_here id c.send_ops here in
        let reset = update_send-Same id no_attempts c (λ o. refl) (λ o. refl) u in
        let msg = publish_msg op.pub_msg in
        let sent =
          Same-trans reset (send_message-Same b msg (update_send id no_attempts c) reset.unique) in
        rw (found, do_send_internal)
          (after_send-Attempted op c _ (send_message b msg (update_send id no_attempts c)).1 sent
            (rw e here) (rw e small))

    -- The outcome of an attempt, with the completion that follows a failure.
    pub after_resume-Settled :
        (id : ℕ) (c : Client) (r : Client × ErrorCode)
        → Attempted c r
        → IsListed id c
        → rounds (find_index (is_send id) c.send_ops) c < k + 1
        → Settled c (after_resume again id r)
    after_resume-Settled id c (d, ec) (inl same) here small =
        if-Settled (is_success ec) _ _ (Same-Settled same)
          (complete_later-Settled id (resume_status ec) c d same here small)
    after_resume-Settled id c (d, ec) (inr (s, e)) here small = rw e s
