-- ===== src/Ops/Unsubscribe.antt =====
-- client/lib/src/op/UnsubscribeOp.cpp.
pub mod Forgotten
use cc_mqtt311_libs.Base.{
  ℕ, Bool, true, false, not, ◌&&◌, Option, none, some, List, [], ◌∷◌, ◌++◌, ltb, leb, ◌==◌,
  if◌then◌else◌, length, is_empty, update_if,
}
use cc_mqtt311_libs.Base.SortedSet.{erase_at, lower_bound, contains}
use cc_mqtt311_libs.State.{Text}
use cc_mqtt311_libs.Timers.{is_valid}
use cc_mqtt311_libs.Topics.{verify_sub_filter}
use cc_mqtt311_libs.Topics.Order.{text_order}
use cc_mqtt311_libs.PacketIds.{alloc_packet_id}
use cc_mqtt311_libs.Client.{
  Client, Build, ErrorCode, UnsubscribeOp, success, bad_param, out_of_memory, internal_error,
  insufficient_config, complete, timeout, unsubscribe_msg, unsubscribes, unsubscribe_op_timeout,
}
use cc_mqtt311_libs.Client.Output.{cancel_timer, wait_timer, send_message}
use cc_mqtt311_libs.Client.Registry.{is_unsubscribe}
use cc_mqtt311_libs.Client.Sends.{op_complete, is_success}
use cc_mqtt311_libs.Client.Broker.{complete_unsubscribe}
use cc_mqtt311_libs.Ops.Send.{max_string_len, ids_max_size}

-- The loop of `handle(UnsubackMsg&)` over the topics of the request.
unfoldable pub forget_topics : List Text → List Text → List Text
forget_topics [] filters = filters
forget_topics (topic ∷ rest) filters =
    forget_topics rest (
      if not (contains topic filters)
      then filters
      else erase_at filters (lower_bound topic filters))

module _ (b : Build) where
  unfoldable pub config_unsub_topic : Option Text → List Text → Client → List Text × ErrorCode
  config_unsub_topic none topics c = (topics, bad_param)
  config_unsub_topic (some topic) topics c =
      if is_empty topic
      then (topics, bad_param)
      else if not (verify_sub_filter b.cfg c.config topic)
      then (topics, bad_param)
      else if b.cfg.has_sub_topic_verification
          && c.config.verify_sub_filter
          && not (contains topic c.reuse.sub_filters)
      then (topics, bad_param)
      else if leb b.unsub_topics_max (length topics)
      then (topics, out_of_memory)
      else if ltb max_string_len (length (b.topic_field topic))
      then (topics, bad_param)
      else (topics ++ b.topic_field topic ∷ [], success)

  abbrev pub drop_unsubscribe : UnsubscribeOp → Client → Client
  drop_unsubscribe op c = op_complete b (record { op_type = unsubscribes; id = op.id }) c

  abbrev pub unsubscribe_sent :
      ((Client → Client) → Client → Client)
      → UnsubscribeOp
      → Client × ErrorCode
      → Client × ErrorCode
  unsubscribe_sent guarded op (c, ec) =
      if not (is_success ec) then (drop_unsubscribe op c, ec) else (
        guarded (wait_timer op.timer op.response_timeout_ms (unsubscribe_op_timeout op.id)) c,
        success,
      )

  unfoldable pub send_unsubscribe :
      ((Client → Client) → Client → Client) → Bool → UnsubscribeOp → Client → Client × ErrorCode
  send_unsubscribe guarded has_cb op c =
      let c1 : Client = record c { locked = false } in
      let (s, packet_id) = alloc_packet_id (ids_max_size b) c1.client_state in
      let c2 : Client = record c1 {
        client_state = s;
        unsubscribe_ops =
            update_if (is_unsubscribe op.id)
              (λ o. record o { has_cb = true; packet_id = packet_id }) c1.unsubscribe_ops;
      } in
      if not has_cb
      then (drop_unsubscribe op c1, bad_param)
      else if is_empty op.topics
      then (drop_unsubscribe op c1, insufficient_config)
      else if not (is_valid op.timer)
      then (drop_unsubscribe op c1, internal_error)
      else unsubscribe_sent guarded op (send_message b (unsubscribe_msg packet_id op.topics) c2)

  unfoldable pub cancel_unsubscribe : UnsubscribeOp → Client → Client
  cancel_unsubscribe op c =
      drop_unsubscribe op (if op.has_cb then c else record c { locked = false })

  unfoldable pub handle_unsuback : UnsubscribeOp → ℕ → Client → Client
  handle_unsuback op packet_id c =
      let c1 = cancel_timer op.timer c in
      let c2 : Client = record c1 {
        reuse = record {
          sub_filters =
              if b.cfg.has_sub_topic_verification
              then forget_topics op.topics c1.reuse.sub_filters
              else c1.reuse.sub_filters;
        };
      } in
      if not (packet_id == op.packet_id) then c else complete_unsubscribe b op.id complete c2

  -- `opTimeoutInternal`
  unfoldable pub unsubscribe_timeout : ℕ → Client → Client
  unsubscribe_timeout id c = complete_unsubscribe b id timeout c
