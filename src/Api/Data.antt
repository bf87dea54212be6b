-- ===== src/Api/Data.antt =====
-- `processData`, `notifyNetworkDisconnected`, the dispatch of received messages, and
-- client/lib/src/op/DisconnectOp.cpp.
use cc_mqtt311_libs.Base.{
  ℕ, zero, suc, ◌+◌, Bool, true, false, Option, none, some, List, [], ◌∷◌, ltb, if◌then◌else◌,
  find_if, get_elem?, length,
}
use cc_mqtt311_libs.Client.{
  Client, Build, ErrorCode, OpType, OpPtr, PublishMsg, connects, keeps_alive, disconnects,
  subscribes, unsubscribes, success, protocol_error, broker_disconnected, protocol_violation,
  disconnect_msg,
}
use cc_mqtt311_libs.Client.Output.{send_message, restart_recv_timer}
use cc_mqtt311_libs.Client.Registry.{is_connect, is_subscribe, is_unsubscribe, is_keep_alive}
use cc_mqtt311_libs.Client.Sends.{op_complete}
use cc_mqtt311_libs.Client.Broker.{disconnect_broker}
use cc_mqtt311_libs.Ops.KeepAlive.{handle_pingresp}
use cc_mqtt311_libs.Ops.Connect.{handle_connack}
use cc_mqtt311_libs.Ops.Subscribe.{handle_suback}
use cc_mqtt311_libs.Ops.Unsubscribe.{handle_unsuback}
use cc_mqtt311_libs.Session.Acks.{Ack, handle_ack}
use cc_mqtt311_libs.Session.Incoming.{handle_publish, handle_pubrel}
use cc_mqtt311_libs.Api.Loop.{guarded}

-- A received message, as the frame decodes it.
pub data Input : Type 0 where
  connack : ℕ → Bool → Input
  publish : PublishMsg → Input
  ack : Ack → ℕ → Input
  pubrel : ℕ → Bool → Input
  suback : ℕ → List ℕ → Input
  unsuback : ℕ → Input
  pingresp other : Input

-- One round of the loop of `processData`, as the frame answers: a message with the number of its
-- bytes, data that is not complete, or data that is wrong.
pub data Read : Type 0 where
  message : Input → ℕ → Read
  not_enough failed : Read

abbrev pub when_op {ℓ} : {A : Type ℓ} → Option A → (A → Client → Client) → Client → Client
when_op none f c = c
when_op (some op) f c = f op c

module _ (b : Build) where
  -- The `handle` of an operation for a message that ClientImpl does not take itself.
  unfoldable pub op_handles : OpType → ℕ → Input → Client → Client
  op_handles connects id (connack code present) c =
      when_op (find_if (is_connect id) c.connect_ops) (λ op. handle_connack b op code present) c
  op_handles subscribes id (suback packet_id codes) c =
      when_op (find_if (is_subscribe id) c.subscribe_ops) (λ op. handle_suback b op packet_id codes)
        c
  op_handles unsubscribes id (unsuback packet_id) c =
      when_op (find_if (is_unsubscribe id) c.unsubscribe_ops) (λ op. handle_unsuback b op packet_id)
        c
  op_handles keeps_alive id pingresp c =
      when_op (find_if (is_keep_alive id) c.keep_alive_ops) handle_pingresp c
  op_handles keeps_alive id _ c =
      when_op (find_if (is_keep_alive id) c.keep_alive_ops) restart_recv_timer c
  op_handles _ _ _ c = c

  unfoldable pub dispatch_entry : Input → Option (Option OpPtr) → Client → Client
  unfolding op_handles
  dispatch_entry msg none c = c
  dispatch_entry msg (some none) c = c
  dispatch_entry msg (some (some p)) c = op_handles p.op_type p.id msg c

  -- The loop of `handle(ProtMessage&)`, over the operations that there were at first.
  unfoldable pub dispatch_from : ℕ → ℕ → Input → Client → Client
  dispatch_from zero idx msg c = c
  dispatch_from (suc count) idx msg c =
      let c1 = dispatch_entry msg (get_elem? c.ops idx) c in
      let rest = dispatch_from count (idx + 1) msg c1 in
      if c1.session.disconnecting then c1 else rest

  unfoldable pub handle_message : Input → Client → Client
  handle_message msg c =
      let all = dispatch_from (length c.ops) 0 msg c in if c.session.disconnecting then c else all

  -- `msg->dispatch(*this)`
  unfoldable pub dispatch : Input → Client → Client
  dispatch (publish msg) c = handle_publish b msg c
  dispatch (ack a packet_id) c = handle_ack b a packet_id c
  dispatch (pubrel packet_id valid) c =
      if ltb b.cfg.max_qos 2 then c else handle_pubrel b packet_id valid c
  dispatch msg c = handle_message msg c

  -- The loop, with the number of bytes consumed; `len` is that of all the data.
  unfoldable pub process_reads : ℕ → ℕ → List Read → Client → Client × ℕ
  process_reads len consumed [] c = (c, consumed)
  process_reads len consumed (not_enough ∷ rest) c = (c, consumed)
  process_reads len consumed (failed ∷ rest) c =
      (disconnect_broker b (some protocol_violation) protocol_error c, len)
  process_reads len consumed (message msg n ∷ rest) c =
      process_reads len (consumed + n) rest (dispatch msg c)

  abbrev pub process_body : ℕ → List Read → Client → Client × ℕ
  process_body len reads c =
      if c.client_state.network_disconnected then (c, 0) else process_reads len 0 reads c

  unfoldable pub process_data : ℕ → ℕ → List Read → Client → Client × ℕ
  process_data elapsed len reads c = guarded b elapsed (process_body len reads) c

  abbrev pub mark_network : Client → Client
  mark_network c = record c { client_state = record client_state { network_disconnected = true } }
    where
      open c use {client_state}

  abbrev pub network_body : Client → Client × Unit {0}
  network_body c =
      let c1 = mark_network c in
      (if c1.session.disconnecting then c1 else disconnect_broker b none broker_disconnected c1, tt)

  unfoldable pub notify_network_disconnected : ℕ → Client → Client
  notify_network_disconnected elapsed c = (guarded b elapsed network_body c).0

  -- `DisconnectOp::send`
  abbrev pub disconnect_body : ℕ → Client → Client × ErrorCode
  disconnect_body id c = (
    disconnect_broker b none broker_disconnected (
        op_complete b (record { op_type = disconnects; id = id })
          (send_message b disconnect_msg c).0),
    success,
  )

  unfoldable pub send_disconnect : ℕ → ℕ → Client → Client × ErrorCode
  send_disconnect elapsed id c =
      guarded b elapsed (disconnect_body id) (record c { locked = false })

  unfoldable pub cancel_disconnect : ℕ → Client → Client
  cancel_disconnect id c =
      op_complete b (record { op_type = disconnects; id = id }) (record c { locked = false })
