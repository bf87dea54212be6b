-- ===== src/Ops/Recv.antt =====
-- client/lib/src/op/RecvOp.cpp: a publish being received.
use cc_mqtt311_libs.Base.{
  ℕ, Bool, false, not, ◌&&◌, ◌||◌, none, some, ltb, leb, ◌==◌, if◌then◌else◌, find_if, is_empty,
  is_some, update_if,
}
use cc_mqtt311_libs.State.{Text}
use cc_mqtt311_libs.Topics.{verify_pub_topic, is_topic_match}
use cc_mqtt311_libs.Client.{
  Client, Build, PublishMsg, RecvOp, MessageInfo, broker_disconnected, protocol_violation,
  puback_msg, pubrec_msg, pubcomp_msg, message_received, uses_destroyed, recv_op_timeout, receives,
}
use cc_mqtt311_libs.Client.Output.{emit, wait_timer, cancel_timer, suspend_timer, send_message}
use cc_mqtt311_libs.Client.Registry.{is_recv}
use cc_mqtt311_libs.Client.Sends.{op_complete}
use cc_mqtt311_libs.Client.Broker.{disconnect_broker, is_cut_off}

abbrev pub message_info : PublishMsg → MessageInfo
message_info msg = record {
  topic = msg.topic;
  content = msg.payload;
  qos = msg.qos;
  retained = msg.retain;
}

abbrev pub hold_packet_id : ℕ → ℕ → Client → Client
hold_packet_id id packet_id c = record c {
  recv_ops = update_if (is_recv id) (λ op. record op { packet_id = packet_id }) c.recv_ops;
}

module _ (b : Build) where
  abbrev pub violation : Client → Client
  violation c = disconnect_broker b (some protocol_violation) broker_disconnected c

  abbrev pub complete_recv : ℕ → Client → Client
  complete_recv id c = op_complete b (record { op_type = receives; id = id }) c

  unfoldable pub restart_recv_response_timer : RecvOp → Client → Client
  restart_recv_response_timer op c =
      if leb 2 b.cfg.max_qos
      then wait_timer op.timer c.config.response_timeout_ms (recv_op_timeout op.id) c
      else c

  -- `find_if` over the filters
  abbrev pub is_subscribed : Text → Client → Bool
  is_subscribed topic c =
      is_some (find_if (λ filter. is_topic_match filter topic) c.reuse.sub_filters)

  -- The last part of the handler, after the checks of the message.
  unfoldable pub accept_publish : RecvOp → PublishMsg → Client → Client
  accept_publish op msg c =
      let told = emit (message_received (message_info msg)) c in
      if msg.qos == 0
      then complete_recv op.id told
      else if leb 1 b.cfg.max_qos && not msg.has_packet_id
      then violation c
      else if leb 1 b.cfg.max_qos && (msg.qos == 1)
      then complete_recv op.id (send_message b (puback_msg msg.packet_id) told).0
      else if leb 2 b.cfg.max_qos
      then restart_recv_response_timer op
          (send_message b (pubrec_msg msg.packet_id) (hold_packet_id op.id msg.packet_id told)).0
      else if leb 1 b.cfg.max_qos
      then told
      else c

  -- `handle(PublishMsg&)`
  unfoldable pub recv_publish : RecvOp → PublishMsg → Client → Client
  unfolding accept_publish
  recv_publish op msg c =
      if ltb 2 msg.qos
      then violation c
      else if ltb b.cfg.max_qos msg.qos
      then violation c
      else if leb 2 b.cfg.max_qos && (msg.qos == 2) && not (op.packet_id == 0) && msg.has_packet_id
      then (if not (msg.packet_id == op.packet_id)
          then c
          else restart_recv_response_timer op (send_message b (pubrec_msg op.packet_id) c).0)
      else if not c.session.connected
      then violation c
      else if is_empty msg.topic || not (verify_pub_topic b.cfg c.config msg.topic false)
      then violation c
      else if b.cfg.has_sub_topic_verification
          && c.config.verify_sub_filter
          && not (is_subscribed msg.topic c)
      then violation c
      else accept_publish op msg c

  -- `handle(PubrelMsg&)`; `valid` is the protocol library's `doValid`.
  unfoldable pub recv_pubrel : RecvOp → ℕ → Bool → Client → Client
  recv_pubrel op packet_id valid c =
      let c1 = cancel_timer op.timer c in
      if not (packet_id == op.packet_id)
      then c
      else if not valid
      then violation c1
      else complete_recv op.id (send_message b (pubcomp_msg op.packet_id) c1).0

  unfoldable pub reset_timer : RecvOp → Client → Client
  reset_timer op c = if leb 2 b.cfg.max_qos then cancel_timer op.timer c else c

  unfoldable pub post_reconnection_resume : RecvOp → Client → Client
  unfolding restart_recv_response_timer
  post_reconnection_resume op c =
      if leb 2 b.cfg.max_qos
      then restart_recv_response_timer op (suspend_timer op.timer (is_cut_off c) c)
      else c

  -- `responseTimeoutInternal`, by the id that the timer holds.
  unfoldable pub recv_timeout : ℕ → Client → Client
  recv_timeout id c = elim (find_if (is_recv id) c.recv_ops) [
    | none ↦ emit uses_destroyed c
    | some op ↦ if leb 2 b.cfg.max_qos then complete_recv id c else c
  ]
