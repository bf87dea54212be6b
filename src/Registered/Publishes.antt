-- ===== src/Registered/Publishes.antt =====
-- The handlers of publishes in progress, in the registry: acknowledgements, resending and timeouts.
use cc_mqtt311_libs.Base.{
  ℕ, zero, suc, refl, not, inl, inr, some, find_if, get_elem?, leb, ◌==◌, Option-cases,
}
use cc_mqtt311_libs.Client.{
  Client, Build, ErrorCode, SendOp, complete, timeout, protocol_error, protocol_violation,
  failed_internally, broker_disconnected,
}
use cc_mqtt311_libs.Client.Output.{cancel_timer}
use cc_mqtt311_libs.Client.Registry.{is_send, update_send}
use cc_mqtt311_libs.Client.Sends.{is_success, restart_send_timer, count_attempt}
use cc_mqtt311_libs.Ops.KeepAlive.{messages_received}
use cc_mqtt311_libs.Ops.Send.{
  fail_protocol, handle_puback, handle_pubrec, handle_pubcomp, after_resend, resend_dup_msg,
  post_reconnection_resend, force_dup_resend, send_timeout, mark_acked, mark_dup, drop_attempt,
}
use cc_mqtt311_libs.Session.Acks.{
  Ack, puback, pubrec, pubcomp, is_pubcomp, find_send_op, is_legit_send_ack, resend_all_from,
  resend_all_until, dispatch_ack, process_publish_ack, ack_qos, handle_ack,
}
use cc_mqtt311_libs.Registered.Evolves.{
  Evolves, Evolves-trans, outside, outside_first, if-Evolves, either-Evolves,
}
use cc_mqtt311_libs.Registered.Sends.{
  update_send-Evolves, send_message-Evolves, complete_send-Evolves,
}
use cc_mqtt311_libs.Registered.Broker.{disconnect_broker-Evolves}
use cc_mqtt311_libs.Registered.Messages.{messages_received-Evolves}

module _ (b : Build) where
  fail_protocol-Evolves : (id : ℕ) (c : Client) → Evolves c (fail_protocol b id c)
  fail_protocol-Evolves id c =
      Evolves-trans (complete_send-Evolves b id protocol_error c)
        (disconnect_broker-Evolves b (some protocol_violation) broker_disconnected _)

  -- After a message was sent, or not.
  counted-Evolves :
      (op : SendOp) (c : Client) (r : Client × ErrorCode)
      → Evolves c r.0
      → Evolves c (after_resend b op r)
  unfolding restart_send_timer
  counted-Evolves op c (d, ec) s =
      if-Evolves c (not (is_success ec)) _ _
        (Evolves-trans s (complete_send-Evolves b op.id failed_internally d))
        (Evolves-trans s
          (Evolves-trans (update_send-Evolves op.id count_attempt d (λ o. refl)) (outside refl)))

  handle_puback-Evolves : (op : SendOp) (c : Client) → Evolves c (handle_puback b op c)
  unfolding handle_puback
  handle_puback-Evolves op c =
      let c1 = cancel_timer op.timer c in
      if-Evolves c (not (op.pub_msg.qos == 1)) _ _
        (outside_first (fail_protocol-Evolves op.id c1) refl)
        (outside_first (complete_send-Evolves b op.id complete c1) refl)

  handle_pubrec-Evolves :
      (op : SendOp) (packet_id : ℕ) (c : Client) → Evolves c (handle_pubrec b op packet_id c)
  unfolding handle_pubrec
  handle_pubrec-Evolves op packet_id c =
      let c1 = cancel_timer op.timer c in
      let failed = outside_first (fail_protocol-Evolves op.id c1) refl in
      if-Evolves c (not (op.pub_msg.packet_id == packet_id)) _ _ (outside refl) (
        if-Evolves c (not (op.pub_msg.qos == 2)) _ _ failed (
          if-Evolves c op.acked _ _ failed (
            outside_first
              (counted-Evolves op c1 _ (
                Evolves-trans (update_send-Evolves op.id mark_acked c1 (λ o. refl))
                  (send_message-Evolves b _ _)))
              refl)))

  handle_pubcomp-Evolves :
      (op : SendOp) (packet_id : ℕ) (c : Client) → Evolves c (handle_pubcomp b op packet_id c)
  unfolding handle_pubcomp
  handle_pubcomp-Evolves op packet_id c =
      let c1 = cancel_timer op.timer c in
      let failed = outside_first (fail_protocol-Evolves op.id c1) refl in
      if-Evolves c (not (op.pub_msg.packet_id == packet_id)) _ _ (outside refl) (
        if-Evolves c (not (op.pub_msg.qos == 2)) _ _ failed (
          if-Evolves c (not op.acked) _ _ failed
            (outside_first (complete_send-Evolves b op.id complete c1) refl)))

  resend_dup_msg-Evolves : (op : SendOp) (c : Client) → Evolves c (resend_dup_msg b op c)
  unfolding resend_dup_msg
  resend_dup_msg-Evolves op c =
      if-Evolves c (leb op.total_send_attempts op.send_attempts) _ _
        (complete_send-Evolves b op.id timeout c)
        (if-Evolves c (not op.acked) _ _
          (counted-Evolves op c _ (
            Evolves-trans (update_send-Evolves op.id mark_dup c (λ o. refl))
              (send_message-Evolves b _ _)))
          (counted-Evolves op c _ (send_message-Evolves b _ c)))

  pub post_reconnection_resend-Evolves :
      (op : SendOp) (c : Client) → Evolves c (post_reconnection_resend b op c)
  unfolding post_reconnection_resend
  post_reconnection_resend-Evolves op c =
      let c1 = cancel_timer op.timer (update_send op.id drop_attempt c) in
      if-Evolves c op.paused _ _ (outside refl) (
        Evolves-trans (update_send-Evolves op.id drop_attempt c (λ o. refl))
          (outside_first (resend_dup_msg-Evolves (drop_attempt op) c1) refl))

  force_dup_resend-Evolves : (op : SendOp) (c : Client) → Evolves c (force_dup_resend b op c)
  unfolding force_dup_resend
  force_dup_resend-Evolves op c =
      if-Evolves c op.paused _ _ (outside refl) (resend_dup_msg-Evolves op c)

  pub send_timeout-Evolves : (id : ℕ) (c : Client) → Evolves c (send_timeout b id c)
  unfolding send_timeout
  send_timeout-Evolves id c = elim (Option-cases (find_if (is_send id) c.send_ops)) [
    | inl e ↦ rw (e, send_timeout) (outside refl)
    | inr (op, e) ↦ rw (e, send_timeout) (resend_dup_msg-Evolves op c)
  ]

  resend_all_from-Evolves :
      (fuel id idx : ℕ) (c : Client) → Evolves c (resend_all_from b fuel id idx c)
  unfolding resend_all_from
  resend_all_from-Evolves zero id idx c = outside refl
  resend_all_from-Evolves (suc fuel) id idx c = elim (Option-cases (get_elem? c.send_ops idx)) [
    | inl e ↦ rw (e, resend_all_from) (outside refl)
    | inr (op, e) ↦
        let s = force_dup_resend-Evolves op c in
        rw (e, resend_all_from)
          (if-Evolves c (op.id == id) _ _ s (Evolves-trans s (resend_all_from-Evolves fuel id _ _)))
  ]

  dispatch_ack-Evolves :
      (ack : Ack) (packet_id : ℕ) (op : SendOp) (c : Client)
      → Evolves c (dispatch_ack b ack packet_id op c)
  unfolding dispatch_ack
  dispatch_ack-Evolves puback packet_id op c = handle_puback-Evolves op c
  dispatch_ack-Evolves pubrec packet_id op c = handle_pubrec-Evolves op packet_id c
  dispatch_ack-Evolves pubcomp packet_id op c = handle_pubcomp-Evolves op packet_id c

  process_publish_ack-Evolves :
      (ack : Ack) (packet_id : ℕ) (c : Client) → Evolves c (process_publish_ack b ack packet_id c).0
  unfolding process_publish_ack resend_all_until
  process_publish_ack-Evolves ack packet_id c =
      let c1 = messages_received c.keep_alive_ops c in
      let s = messages_received-Evolves c.keep_alive_ops c in
      elim (Option-cases (find_send_op packet_id c1)) [
        | inl e ↦ rw (e, process_publish_ack) s
        | inr (op, e) ↦
            rw (e, process_publish_ack)
              (either-Evolves c (is_legit_send_ack op (is_pubcomp ack) c1) _ _
                (Evolves-trans s (dispatch_ack-Evolves ack packet_id op c1))
                (Evolves-trans s (resend_all_from-Evolves _ op.id 0 c1)))
      ]

  pub handle_ack-Evolves :
      (ack : Ack) (packet_id : ℕ) (c : Client) → Evolves c (handle_ack b ack packet_id c)
  unfolding handle_ack
  handle_ack-Evolves ack packet_id c =
      if-Evolves c (leb (ack_qos b ack) b.cfg.max_qos) _ _
        (process_publish_ack-Evolves ack packet_id c) (outside refl)
