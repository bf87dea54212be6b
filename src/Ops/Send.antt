-- ===== src/Ops/Send.antt =====
-- client/lib/src/op/SendOp.cpp: a publish in progress.
use cc_mqtt311_libs.Base.{
  ℕ, ◌+◌, ◌-◌, ◌%◌, ◌^◌, Bool, true, false, not, Option, none, some, ltb, leb, ◌==◌, if◌then◌else◌,
  find_if, length, is_empty,
}
use cc_mqtt311_libs.State.{Text}
use cc_mqtt311_libs.Config.{packet_ids_limit, list_max_size}
use cc_mqtt311_libs.Topics.{verify_pub_topic}
use cc_mqtt311_libs.Timers.{is_valid}
use cc_mqtt311_libs.PacketIds.{alloc_packet_id}
use cc_mqtt311_libs.Client.{
  Client, Build, ErrorCode, SendOp, PublishMsg, success, internal_error, bad_param,
  insufficient_config, complete, failed_internally, timeout, protocol_error, broker_disconnected,
  protocol_violation, publish_msg, pubrel_msg, uses_destroyed,
}
use cc_mqtt311_libs.Client.Output.{emit, cancel_timer, send_message}
use cc_mqtt311_libs.Client.Registry.{is_send, update_send}
use cc_mqtt311_libs.Client.Sends.{
  is_success, count_attempt, restart_send_timer, resume_since, complete_send, op_complete, send_ptr,
  do_send_internal, can_send,
}
use cc_mqtt311_libs.Client.Broker.{disconnect_broker}

-- `maxStringLen`
abbrev pub max_string_len : ℕ
max_string_len = 2 ^ 16 - 1

-- `CC_Mqtt311PublishConfig`; a null pointer is `none`.
pub record PublishConfig : Type 0 where
  pub topic : Option Text
  pub content : Text
  pub qos : ℕ
  pub retain : Bool

abbrev pub mark_acked : SendOp → SendOp
mark_acked op = record op { acked = true; send_attempts = 0 }

abbrev pub mark_dup : SendOp → SendOp
mark_dup op = record op { pub_msg = record pub_msg { dup = true } }
  where
    open op use {pub_msg}

-- `--m_sendAttempts`, on `unsigned`
abbrev pub drop_attempt : SendOp → SendOp
drop_attempt op = record op { send_attempts = (op.send_attempts + 2 ^ 32 - 1) % 2 ^ 32 }

abbrev pub pause : SendOp → SendOp
pause op = record op { paused = true }

-- What `send` writes before it sends: the callback and, above QoS 0, a new packet id.
abbrev pub prepared : (PublishMsg → PublishMsg) → Bool → ℕ → SendOp → SendOp
prepared refresh has_cb packet_id op = record op {
  has_cb = has_cb;
  pub_msg = refresh (record pub_msg {
    packet_id = if ltb 0 op.pub_msg.qos then packet_id else op.pub_msg.packet_id;
  });
}
  where
    open op use {pub_msg}

module _ (b : Build) where
  -- The work of a handler that the guards of the scope do on exit: the completion runs first.
  abbrev pub fail_protocol : ℕ → Client → Client
  fail_protocol id c =
      disconnect_broker b (some protocol_violation) broker_disconnected
        (complete_send b id protocol_error c)

  unfoldable pub handle_puback : SendOp → Client → Client
  handle_puback op c =
      let c1 = cancel_timer op.timer c in
      if not (op.pub_msg.qos == 1)
      then fail_protocol op.id c1
      else complete_send b op.id complete c1

  abbrev pub after_pubrel : SendOp → Client × ErrorCode → Client
  after_pubrel op (c, ec) =
      if not (is_success ec)
      then complete_send b op.id failed_internally c
      else restart_send_timer op (update_send op.id count_attempt c)

  unfoldable pub handle_pubrec : SendOp → ℕ → Client → Client
  handle_pubrec op packet_id c =
      let c1 = cancel_timer op.timer c in
      if not (op.pub_msg.packet_id == packet_id)
      then c
      else if not (op.pub_msg.qos == 2)
      then fail_protocol op.id c1
      else if op.acked
      then fail_protocol op.id c1
      else after_pubrel op
          (send_message b (pubrel_msg op.pub_msg.packet_id) (update_send op.id mark_acked c1))

  unfoldable pub handle_pubcomp : SendOp → ℕ → Client → Client
  handle_pubcomp op packet_id c =
      let c1 = cancel_timer op.timer c in
      if not (op.pub_msg.packet_id == packet_id)
      then c
      else if not (op.pub_msg.qos == 2)
      then fail_protocol op.id c1
      else if not op.acked
      then fail_protocol op.id c1
      else complete_send b op.id complete c1

  -- `resendDupMsg`
  abbrev pub after_resend : SendOp → Client × ErrorCode → Client
  after_resend op (c, ec) =
      if not (is_success ec)
      then complete_send b op.id failed_internally c
      else restart_send_timer op (update_send op.id count_attempt c)

  unfoldable pub resend_dup_msg : SendOp → Client → Client
  resend_dup_msg op c =
      if leb op.total_send_attempts op.send_attempts
      then complete_send b op.id timeout c
      else if not op.acked
      then after_resend op
          (send_message b (publish_msg (mark_dup op).pub_msg) (update_send op.id mark_dup c))
      else after_resend op (send_message b (pubrel_msg op.pub_msg.packet_id) c)

  -- `postReconnectionResend`
  unfoldable pub post_reconnection_resend : SendOp → Client → Client
  post_reconnection_resend op c =
      if op.paused
      then c
      else resend_dup_msg (drop_attempt op)
          (cancel_timer op.timer (update_send op.id drop_attempt c))

  unfoldable pub force_dup_resend : SendOp → Client → Client
  force_dup_resend op c = if op.paused then c else resend_dup_msg op c

  -- `responseTimeoutInternal`, by the id that the timer holds.
  unfoldable pub send_timeout : ℕ → Client → Client
  send_timeout id c = elim (find_if (is_send id) c.send_ops) [
    | none ↦ emit uses_destroyed c
    | some op ↦ resend_dup_msg op c
  ]

  -- `config`, on the operation itself.
  unfoldable pub config_send : PublishConfig → SendOp → Client → SendOp × ErrorCode
  config_send config op c = elim config.topic [
    | none ↦ (op, bad_param)
    | some topic ↦
        let configured : SendOp = record op {
          pub_msg = record op.pub_msg {
            retain = config.retain;
            qos = config.qos;
            topic = b.topic_field topic;
            payload =
                if ltb 0 (length config.content)
                then b.data_field config.content
                else op.pub_msg.payload;
          };
        } in
        if is_empty topic
        then (op, bad_param)
        else if not (verify_pub_topic b.cfg c.config topic true)
        then (op, bad_param)
        else if ltb b.cfg.max_qos config.qos
        then (op, bad_param)
        else if ltb max_string_len (length configured.pub_msg.payload)
        then (configured, bad_param)
        else (configured, success)
  ]

  unfoldable pub set_resend_attempts : ℕ → SendOp → SendOp × ErrorCode
  set_resend_attempts attempts op =
      if attempts == 0
      then (op, bad_param)
      else (record op { total_send_attempts = attempts }, success)

  abbrev pub ids_max_size : ℕ
  ids_max_size = list_max_size b.cfg (packet_ids_limit b.cfg) true

  abbrev pub take_packet_id : SendOp → Client → Client × ℕ
  take_packet_id op c =
      let (s, packet_id) = alloc_packet_id ids_max_size c.client_state in
      if ltb 0 op.pub_msg.qos then (record c { client_state = s }, packet_id) else (c, 0)

  abbrev pub unless_sent : SendOp → Client × ErrorCode → Client × ErrorCode
  unless_sent op (c, ec) =
      if is_success ec then (c, success) else (op_complete b (send_ptr op.id) c, ec)

  -- `guarded` runs a part of a method between `apiEnter` and the end of its scope.
  abbrev pub send_or_pause :
      ((Client → Client × ErrorCode) → Client → Client × ErrorCode)
      → SendOp
      → Client
      → Client × ErrorCode
  send_or_pause guarded op c =
      if not (can_send op c)
      then (update_send op.id pause c, success)
      else unless_sent op (guarded (do_send_internal b (resume_since b) op.id) c)

  unfoldable pub send_publish :
      ((Client → Client × ErrorCode) → Client → Client × ErrorCode)
      → Bool
      → SendOp
      → Client
      → Client × ErrorCode
  send_publish guarded has_cb op c =
      let unlocked : Client = record c { locked = false } in
      let (c1, packet_id) = take_packet_id op unlocked in
      let ready = prepared b.publish_refresh has_cb packet_id in
      if not (is_valid op.timer)
      then (op_complete b (send_ptr op.id) unlocked, internal_error)
      else if is_empty op.pub_msg.topic
      then (op_complete b (send_ptr op.id) unlocked, insufficient_config)
      else send_or_pause guarded (ready op) (update_send op.id ready c1)

  unfoldable pub cancel_send : SendOp → Client → Client × ErrorCode
  cancel_send op c = (
    op_complete b (send_ptr op.id) (if op.has_cb then c else record c { locked = false }),
    success,
  )
