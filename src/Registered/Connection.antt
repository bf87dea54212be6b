-- ===== src/Registered/Connection.antt =====
-- What a new connection does, in the registry.
use mathlib.Core.Path.{subst}
use cc_mqtt311_libs.Base.{
  ℕ, zero, suc, ◌+◌, ◌≡◌, refl, sym, Bool, true, not, inl, inr, Option, none, some, List, [], ◌∷◌,
  get_elem?, length, ltb, is_empty, Option-cases, Bool-cases, arith,
}
use cc_mqtt311_libs.State.{initial_session}
use cc_mqtt311_libs.Client.{
  Client, Build, OpPtr, KeepAliveOp, RecvOp, ConnectOp, keeps_alive, complete, aborted,
  protocol_error,
}
use cc_mqtt311_libs.Client.Output.{cancel_timer}
use cc_mqtt311_libs.Client.Output.Frame.{Retimed, ping-Retimed}
use cc_mqtt311_libs.Ops.Connect.{
  Connack, bad_code, session_clash, refused, accepted, forget_filters, note_keep_alive, act_connack,
  handle_connack, classify_connack,
}
use cc_mqtt311_libs.Session.Connected.{
  new_timer, push_op, mark_connected, paused_suffix, is_transfer, create_keep_alive_op_if_needed,
  resend_from, resume_recvs, abort_entry, abort_from, restore_session, broker_connected,
}
use cc_mqtt311_libs.Registered.{lists}
use cc_mqtt311_libs.Registered.Evolves.{
  Evolves, Evolves-trans, outside, outside_first, if-Evolves, added,
}
use cc_mqtt311_libs.Registered.Known.{entry-HasType, given_registry}
use cc_mqtt311_libs.Registered.Sends.{resume_since-Evolves}
use cc_mqtt311_libs.Registered.Broker.{terminate_op-Evolves, complete_connect-Evolves}
use cc_mqtt311_libs.Registered.Messages.{post_reconnection_resume-Evolves}
use cc_mqtt311_libs.Registered.Publishes.{post_reconnection_resend-Evolves}

-- The keep-alive operation is the only one.
abbrev add_keep_alive : Build → KeepAliveOp → ℕ → Client → Client
add_keep_alive b op id c = record (push_op b (record { op_type = keeps_alive; id = id }) c) {
  keep_alive_ops = op ∷ [];
  next_op = id + 1;
}

add_keep_alive-Evolves :
    (b : Build) (op : KeepAliveOp) (c d : Client)
    → Retimed c d
    → op.id ≡ c.next_op
    → c.keep_alive_ops ≡ []
    → Evolves c (add_keep_alive b op c.next_op d)
add_keep_alive-Evolves b op c d (m, e) n none_yet =
    subst (λ d'. Evolves c (add_keep_alive b op c.next_op d')) (sym e)
      (record {
        grown = λ r.
            added keeps_alive (lists c)
              (lists (add_keep_alive b op c.next_op (record c { timer_mgr = m })))
              (rw (none_yet, n) refl) (λ s f. ground arith) refl refl r;
      })

empty_list {ℓ} : {A : Type ℓ} (xs : List A) → is_empty xs ≡ true → xs ≡ []
empty_list [] e = refl
empty_list (x ∷ xs) e = cc

module _ (b : Build) where
  resend_from-Evolves : (count idx : ℕ) (c : Client) → Evolves c (resend_from b count idx c)
  unfolding resend_from
  resend_from-Evolves zero idx c = outside refl
  resend_from-Evolves (suc count) idx c = elim (Option-cases (get_elem? c.send_ops idx)) [
    | inl e ↦ rw (e, resend_from) (outside refl)
    | inr (op, e) ↦
        rw (e, resend_from)
          (Evolves-trans (post_reconnection_resend-Evolves b op c)
            (resend_from-Evolves count (idx + 1) _))
  ]

  resume_recvs-Evolves : (ops : List RecvOp) (c : Client) → Evolves c (resume_recvs b ops c)
  unfolding resume_recvs
  resume_recvs-Evolves [] c = outside refl
  resume_recvs-Evolves (op ∷ rest) c =
      Evolves-trans (post_reconnection_resume-Evolves b op c) (resume_recvs-Evolves rest _)

  abort_entry-Evolves :
      (i : ℕ) (o : Option (Option OpPtr)) (c : Client)
      → get_elem? c.ops i ≡ o
      → Evolves c (abort_entry b o c)
  unfolding abort_entry
  abort_entry-Evolves i none c e = outside refl
  abort_entry-Evolves i (some none) c e = outside refl
  abort_entry-Evolves i (some (some p)) c e =
      if-Evolves c (not (is_transfer p.op_type)) _ _ (outside refl)
        (given_registry (λ r. terminate_op-Evolves b p aborted c (entry-HasType i p c e r)))

  abort_from-Evolves : (count idx : ℕ) (c : Client) → Evolves c (abort_from b count idx c)
  unfolding abort_from
  abort_from-Evolves zero idx c = outside refl
  abort_from-Evolves (suc count) idx c =
      Evolves-trans (abort_entry-Evolves idx _ c refl) (abort_from-Evolves count (idx + 1) _)

  restore_session-Evolves : (c : Client) → Evolves c (restore_session b c)
  restore_session-Evolves c =
      let c1 = resend_from b (length c.send_ops) 0 c in
      let c2 = resume_recvs b c1.recv_ops c1 in
      let s =
        Evolves-trans (resend_from-Evolves (length c.send_ops) 0 c)
          (resume_recvs-Evolves c1.recv_ops c1) in
      if-Evolves c (ltb (paused_suffix c2.send_ops) (length c2.send_ops)) _ _
        (Evolves-trans s (resume_since-Evolves b _ c2)) s

  create_keep_alive-Evolves : (c : Client) → Evolves c (create_keep_alive_op_if_needed b c)
  unfolding create_keep_alive_op_if_needed
  create_keep_alive-Evolves c =
      let (c1, ping) = new_timer b c in
      let (c2, recv) = new_timer b c1 in
      let (c3, resp) = new_timer b c2 in
      let op : KeepAliveOp = record {
        id = c.next_op;
        ping_timer = ping;
        recv_timer = recv;
        resp_timer = resp;
      } in
      elim (Bool-cases (is_empty c.keep_alive_ops)) [
        | inr e ↦ rw e (outside refl)
        | inl e ↦ rw e (
            if-Evolves c (not (b.alloc_room keeps_alive 0)) _ _ (outside refl) (
              outside_first
                (add_keep_alive-Evolves b op c3 _ (ping-Retimed op c3) refl (empty_list _ e)) refl))
      ]

  broker_connected-Evolves :
      (session_present : Bool) (c : Client) → Evolves c (broker_connected b session_present c)
  unfolding broker_connected
  broker_connected-Evolves session_present c =
      let c1 = mark_connected c in
      Evolves-trans
        (outside_first
          (if-Evolves c1 session_present _ _ (restore_session-Evolves c1)
            (abort_from-Evolves (length c1.ops) 0 c1))
          refl)
        (create_keep_alive-Evolves _)

  act_connack-Evolves :
      (op : ConnectOp) (code : ℕ) (k : Connack) (c : Client) → Evolves c (act_connack b op code k c)
  act_connack-Evolves op code bad_code c = complete_connect-Evolves b op.id protocol_error none c
  act_connack-Evolves op code session_clash c =
      complete_connect-Evolves b op.id protocol_error none c
  act_connack-Evolves op code (refused session_present) c =
      outside_first
        (complete_connect-Evolves b op.id complete _ (record c { session = initial_session })) refl
  act_connack-Evolves op code (accepted session_present) c =
      let c1 = forget_filters b session_present c in
      Evolves-trans (if-Evolves c session_present _ _ (outside refl) (outside refl)) (
        Evolves-trans
          (outside_first
            (broker_connected-Evolves session_present (note_keep_alive b op.msg.keep_alive c1))
            refl)
          (complete_connect-Evolves b op.id complete _ _))

  pub handle_connack-Evolves :
      (op : ConnectOp) (code : ℕ) (session_present : Bool) (c : Client)
      → Evolves c (handle_connack b op code session_present c)
  unfolding handle_connack
  handle_connack-Evolves op code session_present c =
      outside_first
        (act_connack-Evolves op code (classify_connack b op.msg code session_present)
          (cancel_timer op.timer c))
        refl
