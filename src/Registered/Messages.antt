-- ===== src/Registered/Messages.antt =====
-- What the operations do with the messages of the broker and with their timers, in the registry.
use cc_mqtt311_libs.Base.{
  ℕ, refl, sym, ap, Bool, false, not, ◌||◌, ◌&&◌, inl, inr, none, some, List, find_if, length, leb,
  ltb, ◌==◌, is_empty, Option-cases, arith,
}
use cc_mqtt311_libs.Timers.{timer_is_active}
use cc_mqtt311_libs.Topics.{verify_pub_topic}
use cc_mqtt311_libs.Client.{
  Client, Build, AsyncOpStatus, PublishMsg, KeepAliveOp, SubscribeOp, UnsubscribeOp, RecvOp,
  message_received, receives, complete, protocol_error, protocol_violation, no_broker_response,
  broker_disconnected, pingreq_msg, puback_msg, pubrec_msg, pubcomp_msg,
}
use cc_mqtt311_libs.Client.Output.{suspend_timer, emit, cancel_timer, restart_recv_timer}
use cc_mqtt311_libs.Client.Registry.{is_keep_alive, is_recv}
use cc_mqtt311_libs.Client.Broker.{is_cut_off}
use cc_mqtt311_libs.Ops.KeepAlive.{
  handle_pingresp, messages_received, send_ping, ping_timeout, resp_timeout,
}
use cc_mqtt311_libs.Ops.Subscribe.{Progress, fail_subscribe, finish_subscribe, handle_suback}
use cc_mqtt311_libs.Ops.Unsubscribe.{handle_unsuback}
use cc_mqtt311_libs.Ops.Recv.{
  message_info, violation, restart_recv_response_timer, is_subscribed, hold_packet_id,
  accept_publish, recv_publish, recv_pubrel, reset_timer, post_reconnection_resume, recv_timeout,
}
use cc_mqtt311_libs.Session.Frame.{messages_received-Retimed}
use cc_mqtt311_libs.Registered.{lists, HasType}
use cc_mqtt311_libs.Registered.Evolves.{
  Evolves, Evolves-trans, outside, outside_first, if-Evolves, in_own_place, update_if-ids,
}
use cc_mqtt311_libs.Registered.Known.{known-HasType, given_registry}
use cc_mqtt311_libs.Registered.Sends.{send_message-Evolves, op_complete-Evolves}
use cc_mqtt311_libs.Registered.Broker.{
  complete_subscribe-Evolves, complete_unsubscribe-Evolves, disconnect_broker-Evolves,
}

pub messages_received-Evolves :
    (ops : List KeepAliveOp) (c : Client) → Evolves c (messages_received ops c)
messages_received-Evolves ops c =
    let (m, e) = messages_received-Retimed ops c in outside (sym (ap lists e))

pub restart_recv_timer-Evolves :
    (op : KeepAliveOp) (c : Client) → Evolves c (restart_recv_timer op c)
unfolding restart_recv_timer
restart_recv_timer-Evolves op c =
    if-Evolves c (c.session.keep_alive_ms == 0) _ _ (outside refl) (outside refl)

pub handle_pingresp-Evolves : (op : KeepAliveOp) (c : Client) → Evolves c (handle_pingresp op c)
unfolding handle_pingresp
handle_pingresp-Evolves op c =
    outside_first (restart_recv_timer-Evolves op (cancel_timer op.resp_timer c)) refl

module _ (b : Build) where
  send_ping-Evolves : (op : KeepAliveOp) (c : Client) → Evolves c (send_ping b op c)
  unfolding send_ping
  send_ping-Evolves op c =
      if-Evolves c (timer_is_active c.timer_mgr op.resp_timer) _ _ (outside refl)
        (Evolves-trans (send_message-Evolves b pingreq_msg c) (outside refl))

  pub ping_timeout-Evolves : (id : ℕ) (c : Client) → Evolves c (ping_timeout b id c)
  unfolding ping_timeout
  ping_timeout-Evolves id c = elim (Option-cases (find_if (is_keep_alive id) c.keep_alive_ops)) [
    | inl e ↦ rw (e, ping_timeout) (outside refl)
    | inr (op, e) ↦ rw (e, ping_timeout) (send_ping-Evolves op c)
  ]

  pub resp_timeout-Evolves : (id : ℕ) (c : Client) → Evolves c (resp_timeout b id c)
  unfolding resp_timeout
  resp_timeout-Evolves id c = elim (Option-cases (find_if (is_keep_alive id) c.keep_alive_ops)) [
    | inl e ↦ rw (e, resp_timeout) (outside refl)
    | inr (op, e) ↦
        rw (e, resp_timeout)
          (disconnect_broker-Evolves b (some no_broker_response) broker_disconnected c)
  ]

  fail_subscribe-Evolves :
      (id : ℕ) (status : AsyncOpStatus) (c : Client) → Evolves c (fail_subscribe b id status c)
  fail_subscribe-Evolves id status c =
      Evolves-trans (complete_subscribe-Evolves b id status none c)
        (disconnect_broker-Evolves b _ broker_disconnected _)

  abbrev keep_filters : Progress → Client → Client
  keep_filters p c = record c { reuse = record { sub_filters = p.filters } }

  finish_subscribe-Evolves :
      (id : ℕ) (p : Progress) (c : Client) → Evolves c (finish_subscribe b id p c)
  finish_subscribe-Evolves id p c = elim (Option-cases p.stopped) [
    | inl e ↦ rw e (
        outside_first (complete_subscribe-Evolves b id complete (some p.codes) (keep_filters p c))
          refl)
    | inr (status, e) ↦
        rw e (outside_first (fail_subscribe-Evolves id status (keep_filters p c)) refl)
  ]

  pub handle_suback-Evolves :
      (op : SubscribeOp) (packet_id : ℕ) (codes : List ℕ) (c : Client)
      → Evolves c (handle_suback b op packet_id codes c)
  unfolding handle_suback
  handle_suback-Evolves op packet_id codes c =
      let c1 = cancel_timer op.timer c in
      if-Evolves c (not (packet_id == op.packet_id)) _ _ (outside refl) (
        if-Evolves c (not (length op.topics == length codes)) _ _
          (outside_first (fail_subscribe-Evolves op.id protocol_error c1) refl)
          (outside_first (finish_subscribe-Evolves op.id _ c1) refl))

  pub handle_unsuback-Evolves :
      (op : UnsubscribeOp) (packet_id : ℕ) (c : Client)
      → Evolves c (handle_unsuback b op packet_id c)
  unfolding handle_unsuback
  handle_unsuback-Evolves op packet_id c =
      if-Evolves c (not (packet_id == op.packet_id)) _ _ (outside refl)
        (outside_first (complete_unsubscribe-Evolves b op.id complete _) refl)

  pub violation-Evolves : (c : Client) → Evolves c (violation b c)
  violation-Evolves c = disconnect_broker-Evolves b (some protocol_violation) broker_disconnected c

  restart_recv_response_timer-Evolves :
      (op : RecvOp) (c : Client) → Evolves c (restart_recv_response_timer b op c)
  unfolding restart_recv_response_timer
  restart_recv_response_timer-Evolves op c =
      if-Evolves c (leb 2 b.cfg.max_qos) _ _ (outside refl) (outside refl)

  hold_packet_id-Evolves :
      (id packet_id : ℕ) (c : Client) → Evolves c (hold_packet_id id packet_id c)
  hold_packet_id-Evolves id packet_id c = record {
    grown = λ r.
        in_own_place receives (lists c) _
          (update_if-ids (λ (o : RecvOp). o.id) (is_recv id) _ c.recv_ops (λ o. refl))
          (λ s e. ground arith) refl refl r;
  }

  accept_publish-Evolves :
      (op : RecvOp) (msg : PublishMsg) (c : Client)
      → HasType receives op.id (lists c)
      → Evolves c (accept_publish b op msg c)
  unfolding accept_publish
  accept_publish-Evolves op msg c h =
      let told = emit (message_received (message_info msg)) c in
      if-Evolves c (msg.qos == 0) _ _
        (outside_first (op_complete-Evolves b receives op.id told h) refl)
        (if-Evolves c (leb 1 b.cfg.max_qos && not msg.has_packet_id) _ _ (violation-Evolves c) (
          if-Evolves c (leb 1 b.cfg.max_qos && (msg.qos == 1)) _ _
            (given_registry (λ r.
              let s = outside_first (send_message-Evolves b (puback_msg msg.packet_id) told) refl in
              Evolves-trans s
                (op_complete-Evolves b receives op.id _ ((s.grown r).typed receives op.id h))))
            (if-Evolves c (leb 2 b.cfg.max_qos) _ _
              (outside_first
                (Evolves-trans (hold_packet_id-Evolves op.id msg.packet_id told) (
                  Evolves-trans (send_message-Evolves b _ _)
                    (restart_recv_response_timer-Evolves op _)))
                refl)
              (if-Evolves c (leb 1 b.cfg.max_qos) _ _ (outside refl) (outside refl)))))

  pub recv_publish-Evolves :
      (op : RecvOp) (msg : PublishMsg) (c : Client)
      → HasType receives op.id (lists c)
      → Evolves c (recv_publish b op msg c)
  unfolding recv_publish
  recv_publish-Evolves op msg c h =
      let v = violation-Evolves c in
      let verified = b.cfg.has_sub_topic_verification && c.config.verify_sub_filter in
      if-Evolves c (ltb 2 msg.qos) _ _ v (
        if-Evolves c (ltb b.cfg.max_qos msg.qos) _ _ v (
          if-Evolves c
            (leb 2 b.cfg.max_qos && (msg.qos == 2) && not (op.packet_id == 0) && msg.has_packet_id)
            _ _
            (if-Evolves c (not (msg.packet_id == op.packet_id)) _ _ (outside refl) (
              Evolves-trans (send_message-Evolves b (pubrec_msg op.packet_id) c)
                (restart_recv_response_timer-Evolves op _)))
            (if-Evolves c (not c.session.connected) _ _ v (
              if-Evolves c
                (is_empty msg.topic || not (verify_pub_topic b.cfg c.config msg.topic false)) _ _ v
                (if-Evolves c
                  (b.cfg.has_sub_topic_verification
                    && c.config.verify_sub_filter
                    && not (is_subscribed b msg.topic c))
                  _ _ v (accept_publish-Evolves op msg c h))))))

  pub recv_pubrel-Evolves :
      (op : RecvOp) (packet_id : ℕ) (valid : Bool) (c : Client)
      → HasType receives op.id (lists c)
      → Evolves c (recv_pubrel b op packet_id valid c)
  unfolding recv_pubrel
  recv_pubrel-Evolves op packet_id valid c h =
      let c1 = cancel_timer op.timer c in
      if-Evolves c (not (packet_id == op.packet_id)) _ _ (outside refl) (
        if-Evolves c (not valid) _ _ (outside_first (violation-Evolves c1) refl) (
          given_registry (λ r.
            let s = outside_first (send_message-Evolves b (pubcomp_msg op.packet_id) c1) refl in
            Evolves-trans s
              (op_complete-Evolves b receives op.id _ ((s.grown r).typed receives op.id h)))))

  pub reset_timer-Evolves : (op : RecvOp) (c : Client) → Evolves c (reset_timer b op c)
  unfolding reset_timer
  reset_timer-Evolves op c = if-Evolves c (leb 2 b.cfg.max_qos) _ _ (outside refl) (outside refl)

  pub post_reconnection_resume-Evolves :
      (op : RecvOp) (c : Client) → Evolves c (post_reconnection_resume b op c)
  unfolding post_reconnection_resume
  post_reconnection_resume-Evolves op c =
      if-Evolves c (leb 2 b.cfg.max_qos) _ _
        (outside_first
          (restart_recv_response_timer-Evolves op (suspend_timer op.timer (is_cut_off c) c)) refl)
        (outside refl)

  pub recv_timeout-Evolves : (id : ℕ) (c : Client) → Evolves c (recv_timeout b id c)
  unfolding recv_timeout
  recv_timeout-Evolves id c = elim (Option-cases (find_if (is_recv id) c.recv_ops)) [
    | inl e ↦ rw (e, recv_timeout) (outside refl)
    | inr (op, e) ↦
        rw (e, recv_timeout)
          (if-Evolves c (leb 2 b.cfg.max_qos) _ _
            (given_registry (λ r.
              op_complete-Evolves b receives id c (
                known-HasType (λ (o : RecvOp). o.id) receives (lists c) c.recv_ops refl id op e r)))
            (outside refl))
  ]
