-- ===== src/Registered/Sends.antt =====
-- The calls of Client/Sends, in the registry.
use cc_mqtt311_libs.Base.{
  ℕ, zero, suc, ◌+◌, ◌≡◌, refl, sym, ap, Bool, not, inl, inr, ◌==◌, find_if, get_elem?, Bool-cases,
  Option-cases, arith,
}
use cc_mqtt311_libs.Client.{
  Client, Build, Msg, ErrorCode, AsyncOpStatus, OpPtr, OpType, SendOp, connects, keeps_alive,
  disconnects, subscribes, unsubscribes, receives, sends, complete,
}
use cc_mqtt311_libs.Client.Output.{send_message}
use cc_mqtt311_libs.Client.Output.Frame.{send_message-Retimed}
use cc_mqtt311_libs.Client.Registry.{is_send, points_to, update_send}
use cc_mqtt311_libs.Client.Sends.{
  Resume, op_complete_send, op_complete_by_type, op_complete_with, send_ptr, complete_send_with,
  restart_send_timer, first_attempt, no_attempts, unpause, after_send, after_resume, resume_status,
  is_success, do_send_internal, can_send, resume_op, go_on, resume_send_ops_since, resume_since,
  resume_fuel, op_complete, complete_send,
}
use cc_mqtt311_libs.Registered.{lists, HasType}
use cc_mqtt311_libs.Registered.Evolves.{
  Evolves, Evolves-trans, outside, if-Evolves, either-Evolves, in_own_place, update_if-ids,
}
use cc_mqtt311_libs.Registered.Known.{known-HasType, given_registry}
use cc_mqtt311_libs.Registered.Erasure.{
  unlink, erase_connect-Evolves, erase_keep_alive-Evolves, erase_disconnect-Evolves,
  erase_subscribe-Evolves, erase_unsubscribe-Evolves, erase_recv-Evolves, erase_send-Evolves,
}

pub update_send-Evolves :
    (id : ℕ) (f : SendOp → SendOp) (c : Client)
    → ((o : SendOp) → (f o).id ≡ o.id)
    → Evolves c (update_send id f c)
update_send-Evolves id f c h = record {
  grown = λ r.
      in_own_place sends (lists c) _
        (update_if-ids (λ (o : SendOp). o.id) (is_send id) f c.send_ops h) (λ s e. ground arith)
        refl refl r;
}

pub send_message-Evolves : (b : Build) (msg : Msg) (c : Client) → Evolves c (send_message b msg c).0
send_message-Evolves b msg c =
    let (m, e) = send_message-Retimed b msg c in outside (sym (ap lists e))

module _ (again : Resume) (resumes : (idx : ℕ) (c : Client) → Evolves c (again idx c)) where
  op_complete_by_type-Evolves :
      (t : OpType) (id : ℕ) (c : Client)
      → HasType t id (lists c)
      → Evolves c (op_complete_by_type again t id (unlink id c))
  unfolding op_complete_by_type op_complete_send
  op_complete_by_type-Evolves connects id c h = erase_connect-Evolves id c h
  op_complete_by_type-Evolves keeps_alive id c h = erase_keep_alive-Evolves id c h
  op_complete_by_type-Evolves disconnects id c h = erase_disconnect-Evolves id c h
  op_complete_by_type-Evolves subscribes id c h = erase_subscribe-Evolves id c h
  op_complete_by_type-Evolves unsubscribes id c h = erase_unsubscribe-Evolves id c h
  op_complete_by_type-Evolves receives id c h = erase_recv-Evolves id c h
  op_complete_by_type-Evolves sends id c h =
      if-Evolves c _ _ _ (erase_send-Evolves id c h)
        (Evolves-trans (erase_send-Evolves id c h) (resumes _ _))

  pub op_complete_with-Evolves :
      (p : OpPtr) (c : Client)
      → HasType p.op_type p.id (lists c)
      → Evolves c (op_complete_with again p c)
  unfolding op_complete_with
  op_complete_with-Evolves p c h = elim (Option-cases (find_if (points_to p.id) c.ops)) [
    | inl e ↦ rw (e, op_complete_with) (outside refl)
    | inr (q, e) ↦ rw (e, op_complete_with) (op_complete_by_type-Evolves p.op_type p.id c h)
  ]

  pub complete_send_with-Evolves :
      (id : ℕ) (status : AsyncOpStatus) (c : Client)
      → Evolves c (complete_send_with again id status c)
  unfolding complete_send_with
  complete_send_with-Evolves id status c = elim (Option-cases (find_if (is_send id) c.send_ops)) [
    | inl e ↦ rw (e, complete_send_with) (outside refl)
    | inr (op, e) ↦
        rw (e, complete_send_with)
          (given_registry (λ r.
            let s =
              op_complete_with-Evolves (send_ptr id) c
                (known-HasType (λ (o : SendOp). o.id) sends (lists c) c.send_ops refl id op e r) in
            if-Evolves c op.has_cb _ _ (Evolves-trans s (outside refl)) s))
  ]

  after_send-Evolves :
      (op : SendOp) (c : Client) (r : Client × ErrorCode)
      → Evolves c r.0
      → Evolves c (after_send again op r).0
  unfolding restart_send_timer
  after_send-Evolves op c (d, ec) s =
      let s' = Evolves-trans s (update_send-Evolves op.id first_attempt d (λ o. refl)) in
      either-Evolves c (not (is_success ec)) _ _ s (
        either-Evolves c (op.pub_msg.qos == 0) _ _
          (Evolves-trans s' (complete_send_with-Evolves op.id complete _))
          (Evolves-trans s' (outside refl)))

  pub do_send_internal-Evolves :
      (b : Build) (id : ℕ) (c : Client) → Evolves c (do_send_internal b again id c).0
  unfolding do_send_internal
  do_send_internal-Evolves b id c = elim (Option-cases (find_if (is_send id) c.send_ops)) [
    | inl e ↦ rw (e, do_send_internal) (outside refl)
    | inr (op, e) ↦
        rw (e, do_send_internal)
          (after_send-Evolves op c _ (
            Evolves-trans (update_send-Evolves id no_attempts c (λ o. refl))
              (send_message-Evolves b _ _)))
  ]

  after_resume-Evolves :
      (id : ℕ) (c : Client) (r : Client × ErrorCode)
      → Evolves c r.0
      → Evolves c (after_resume again id r)
  after_resume-Evolves id c (d, ec) s =
      if-Evolves c (is_success ec) _ _ s
        (Evolves-trans s (complete_send_with-Evolves id (resume_status ec) d))

  resume_op-Evolves : (b : Build) (id : ℕ) (c : Client) → Evolves c (resume_op b again id c).0
  unfolding resume_op
  resume_op-Evolves b id c = elim (Option-cases (find_if (is_send id) c.send_ops)) [
    | inl e ↦ rw (e, resume_op) (outside refl)
    | inr (op, e) ↦
        rw (e, resume_op)
          (either-Evolves c (not op.paused) _ _ (outside refl) (
            either-Evolves c (not (can_send op c)) _ _ (outside refl) (
              after_resume-Evolves id c _ (
                Evolves-trans (update_send-Evolves id unpause c (λ o. refl))
                  (do_send_internal-Evolves b id _)))))
  ]

  go_on-Evolves :
      (b : Build) (idx : ℕ) (c : Client) (r : Client × Bool)
      → Evolves c r.0
      → Evolves c (go_on b again idx r)
  go_on-Evolves b idx c (d, t) s = if-Evolves c t _ _ (Evolves-trans s (resumes idx d)) s

module _ (b : Build) where
  resume_send_ops_since-Evolves :
      (fuel idx : ℕ) (c : Client) → Evolves c (resume_send_ops_since b fuel idx c)
  unfolding resume_send_ops_since
  resume_send_ops_since-Evolves zero idx c = outside refl
  resume_send_ops_since-Evolves (suc fuel) idx c =
      let ih = resume_send_ops_since-Evolves fuel in
      elim (Option-cases (get_elem? c.send_ops idx)) [
        | inl e ↦ rw (e, resume_send_ops_since) (outside refl)
        | inr (op, e) ↦ elim (Bool-cases op.paused) [
          | inl h ↦
              rw (e, h, resume_send_ops_since)
                (go_on-Evolves _ ih b idx c _ (resume_op-Evolves _ ih b op.id c))
          | inr h ↦ rw (e, h, resume_send_ops_since) (ih (idx + 1) c)
        ]
      ]

  pub resume_since-Evolves : (idx : ℕ) (c : Client) → Evolves c (resume_since b idx c)
  unfolding resume_since
  resume_since-Evolves idx c = resume_send_ops_since-Evolves (resume_fuel b c) idx c

  pub op_complete-Evolves :
      (t : OpType) (id : ℕ) (c : Client)
      → HasType t id (lists c)
      → Evolves c (op_complete b (record { op_type = t; id = id }) c)
  unfolding op_complete
  op_complete-Evolves t id c h =
      op_complete_with-Evolves (resume_since b) resume_since-Evolves _ c h

  pub complete_send-Evolves :
      (id : ℕ) (status : AsyncOpStatus) (c : Client) → Evolves c (complete_send b id status c)
  unfolding complete_send
  complete_send-Evolves = complete_send_with-Evolves (resume_since b) resume_since-Evolves
