-- ===== src/Ops/Subscribe.antt =====
-- client/lib/src/op/SubscribeOp.cpp.
pub mod Granted
pub mod Accepted
use cc_mqtt311_libs.Base.{
  ℕ, Bool, true, false, not, ◌&&◌, ◌||◌, Option, none, some, List, [], ◌∷◌, ◌++◌, ltb, leb, ◌==◌,
  if◌then◌else◌, length, is_empty, update_if,
}
use cc_mqtt311_libs.Base.SortedSet.{insert_at, lower_bound, contains}
use cc_mqtt311_libs.State.{Text}
use cc_mqtt311_libs.Config.{list_max_size}
use cc_mqtt311_libs.Timers.{is_valid}
use cc_mqtt311_libs.Topics.{verify_sub_filter}
use cc_mqtt311_libs.Topics.Order.{text_order}
use cc_mqtt311_libs.PacketIds.{alloc_packet_id}
use cc_mqtt311_libs.Client.{
  Client, Build, ErrorCode, AsyncOpStatus, SubscribeOp, DisconnectReason, success, bad_param,
  out_of_memory, internal_error, insufficient_config, complete, protocol_error, failed_internally,
  broker_disconnected, timeout, protocol_violation, internal_fault, subscribe_msg, subscribes,
  subscribe_op_timeout,
}
use cc_mqtt311_libs.Client.Output.{cancel_timer, wait_timer, send_message}
use cc_mqtt311_libs.Client.Registry.{is_subscribe}
use cc_mqtt311_libs.Client.Sends.{op_complete, is_success}
use cc_mqtt311_libs.Client.Broker.{complete_subscribe, disconnect_broker}
use cc_mqtt311_libs.Ops.Send.{max_string_len, ids_max_size}

-- `CC_Mqtt311SubscribeReturnCode_Failure`
abbrev pub failure_code : ℕ
failure_code = 0x80

-- What the loop of `handle(SubackMsg&)` carries: the filters on record, the codes taken over so
-- far, and the status with which it returns early.
pub record Progress : Type 0 where
  pub filters : List Text
  pub codes : List ℕ
  pub stopped : Option AsyncOpStatus

module _ (b : Build) where
  unfoldable pub config_sub_topic :
      Option Text → ℕ → List (Text × ℕ) → Client → List (Text × ℕ) × ErrorCode
  config_sub_topic none max_qos topics c = (topics, bad_param)
  config_sub_topic (some topic) max_qos topics c =
      if is_empty topic
      then (topics, bad_param)
      else if not (verify_sub_filter b.cfg c.config topic)
      then (topics, bad_param)
      else if ltb b.cfg.max_qos max_qos
      then (topics, bad_param)
      else if leb b.sub_topics_max (length topics)
      then (topics, out_of_memory)
      else if ltb max_string_len (length (b.topic_field topic))
      then (topics, bad_param)
      else (topics ++ (b.topic_field topic, max_qos) ∷ [], success)

  abbrev pub drop_subscribe : SubscribeOp → Client → Client
  drop_subscribe op c = op_complete b (record { op_type = subscribes; id = op.id }) c

  abbrev pub subscribe_sent :
      ((Client → Client) → Client → Client) → SubscribeOp → Client × ErrorCode → Client × ErrorCode
  subscribe_sent guarded op (c, ec) = if not (is_success ec) then (drop_subscribe op c, ec) else (
    guarded (wait_timer op.timer op.response_timeout_ms (subscribe_op_timeout op.id)) c,
    success,
  )

  unfoldable pub send_subscribe :
      ((Client → Client) → Client → Client) → Bool → SubscribeOp → Client → Client × ErrorCode
  send_subscribe guarded has_cb op c =
      let c1 : Client = record c { locked = false } in
      let (s, packet_id) = alloc_packet_id (ids_max_size b) c1.client_state in
      let c2 : Client = record c1 {
        client_state = s;
        subscribe_ops =
            update_if (is_subscribe op.id) (λ o. record o { has_cb = true; packet_id = packet_id })
              c1.subscribe_ops;
      } in
      if not has_cb
      then (drop_subscribe op c1, bad_param)
      else if is_empty op.topics
      then (drop_subscribe op c1, insufficient_config)
      else if not (is_valid op.timer)
      then (drop_subscribe op c1, internal_error)
      else subscribe_sent guarded op (send_message b (subscribe_msg packet_id op.topics) c2)

  unfoldable pub cancel_subscribe : SubscribeOp → Client → Client
  cancel_subscribe op c = drop_subscribe op (if op.has_cb then c else record c { locked = false })

  abbrev pub filters_max_size : ℕ
  filters_max_size = list_max_size b.cfg b.cfg.sub_filters_limit b.cfg.has_sub_topic_verification

  abbrev pub stop : AsyncOpStatus → Progress → Progress
  stop status p = record p { stopped = some status }

  -- The filter of a granted topic is put on record.
  unfoldable pub record_filter : Bool → Text → ℕ → Progress → Progress
  record_filter verify topic code p =
      if not b.cfg.has_sub_topic_verification
      then p
      else if not verify
      then p
      else if ltb 2 code
      then p
      else if contains topic p.filters
      then p
      else if leb filters_max_size (length p.filters)
      then stop failed_internally p
      else record p { filters = insert_at p.filters (lower_bound topic p.filters) topic }

  abbrev pub is_rejected : ℕ → ℕ → Bool
  is_rejected requested code =
      ltb 2 code && not (code == failure_code) || leb code 2 && ltb requested code

  -- One round of the loop, for the code at a topic.
  unfoldable pub take_code : Bool → Text × ℕ → ℕ → Progress → Progress
  unfolding record_filter
  take_code verify (topic, requested) code p =
      if leb b.return_codes_max (length p.codes)
      then stop failed_internally p
      else if is_rejected requested code
      then stop protocol_error p
      else record_filter verify topic code (record p { codes = p.codes ++ code ∷ [] })

  -- The loop, up to an early return; the two lists are of one length.
  unfoldable pub take_codes : Bool → List (Text × ℕ) → List ℕ → Progress → Progress
  take_codes verify [] codes p = p
  take_codes verify (t ∷ ts) [] p = p
  take_codes verify (t ∷ ts) (code ∷ codes) p =
      let p' = take_code verify t code p in
      let rest = take_codes verify ts codes p' in elim p'.stopped [ none ↦ rest | some status ↦ p' ]

  abbrev pub start_progress : Client → Progress
  start_progress c = record { filters = c.reuse.sub_filters; codes = []; stopped = none }

  abbrev pub stop_reason : AsyncOpStatus → DisconnectReason
  stop_reason failed_internally = internal_fault
  stop_reason _ = protocol_violation

  -- The guards of the scope: the completion first, then the disconnection.
  abbrev pub fail_subscribe : ℕ → AsyncOpStatus → Client → Client
  fail_subscribe id status c =
      disconnect_broker b (some (stop_reason status)) broker_disconnected
        (complete_subscribe b id status none c)

  abbrev pub finish_subscribe : ℕ → Progress → Client → Client
  finish_subscribe id p c =
      let c1 : Client = record c { reuse = record { sub_filters = p.filters } } in
      elim p.stopped [
        | none ↦ complete_subscribe b id complete (some p.codes) c1
        | some status ↦ fail_subscribe id status c1
      ]

  unfoldable pub handle_suback : SubscribeOp → ℕ → List ℕ → Client → Client
  unfolding take_codes
  handle_suback op packet_id codes c =
      let c1 = cancel_timer op.timer c in
      if not (packet_id == op.packet_id)
      then c
      else if not (length op.topics == length codes)
      then fail_subscribe op.id protocol_error c1
      else finish_subscribe op.id
          (take_codes c.config.verify_sub_filter op.topics codes (start_progress c1)) c1

  -- `opTimeoutInternal`
  unfoldable pub subscribe_timeout : ℕ → Client → Client
  subscribe_timeout id c = complete_subscribe b id timeout none c
