-- ===== src/Client/Broker.antt =====
-- Terminating operations and `ClientImpl::brokerDisconnected` (ClientImpl.cpp), with the virtual
-- methods `terminateOpImpl` and `connectivityChangedImpl` of every operation.
use cc_mqtt311_libs.Base.{
  ℕ, zero, suc, ◌+◌, Bool, true, false, not, ◌||◌, Option, none, some, List, if◌then◌else◌, find_if,
  get_elem?, length, leb,
}
use cc_mqtt311_libs.Client.{
  Client, Build, AsyncOpStatus, OpPtr, OpType, Event, DisconnectReason, ConnectResponse, connects,
  keeps_alive, disconnects, subscribes, unsubscribes, receives, sends, broker_disconnected,
  connect_completes, subscribe_completes, unsubscribe_completes, broker_disconnects, uses_destroyed,
}
use cc_mqtt311_libs.Client.Output.{emit, suspend_timer}
use cc_mqtt311_libs.Client.Registry.{is_send, is_recv, is_connect, is_subscribe, is_unsubscribe}
use cc_mqtt311_libs.Client.Sends.{op_complete, complete_send}

abbrev pub report_if : Bool → Event → Client → Client
report_if has_cb e c = if has_cb then emit e c else c

-- Whether the client is cut off, as `connectivityChangedImpl` of SendOp and RecvOp reads it.
abbrev pub is_cut_off : Client → Bool
is_cut_off c = not c.session.connected || c.client_state.network_disconnected

-- `TerminateMode`
pub data TerminateMode : Type 0 where
  keep_send_recv abort_send_recv : TerminateMode

abbrev pub is_kept : TerminateMode → OpType → Bool
is_kept keep_send_recv receives = true
is_kept keep_send_recv sends = true
is_kept _ _ = false

-- The first part of `brokerDisconnected`.
abbrev pub mark_disconnecting : Client → Client
mark_disconnecting c = record c {
  client_state = record client_state { initialized = false };
  session = record session { connected = false; disconnecting = true };
}
  where
    open c use {client_state, session}

abbrev pub report_disconnect : Option DisconnectReason → Client → Client
report_disconnect none c = c
report_disconnect (some reason) c = emit (broker_disconnects reason) c

module _ (b : Build) where
  -- `ConnectOp::completeOpInternal`
  unfoldable pub complete_connect : ℕ → AsyncOpStatus → Option ConnectResponse → Client → Client
  complete_connect id status response c = elim (find_if (is_connect id) c.connect_ops) [
    | none ↦ emit uses_destroyed c
    | some op ↦
        report_if op.has_cb (connect_completes status response)
          (op_complete b (record { op_type = connects; id = id }) c)
  ]

  -- `SubscribeOp::completeOpInternal`
  unfoldable pub complete_subscribe : ℕ → AsyncOpStatus → Option (List ℕ) → Client → Client
  complete_subscribe id status codes c = elim (find_if (is_subscribe id) c.subscribe_ops) [
    | none ↦ emit uses_destroyed c
    | some op ↦
        report_if op.has_cb (subscribe_completes id status codes)
          (op_complete b (record { op_type = subscribes; id = id }) c)
  ]

  -- `UnsubscribeOp::completeOpInternal`
  unfoldable pub complete_unsubscribe : ℕ → AsyncOpStatus → Client → Client
  complete_unsubscribe id status c = elim (find_if (is_unsubscribe id) c.unsubscribe_ops) [
    | none ↦ emit uses_destroyed c
    | some op ↦
        report_if op.has_cb (unsubscribe_completes id status)
          (op_complete b (record { op_type = unsubscribes; id = id }) c)
  ]

  -- `terminateOp`; the types with no method of their own have `Op::terminateOpImpl`.
  unfoldable pub terminate_by_type : OpType → ℕ → AsyncOpStatus → Client → Client
  unfolding complete_connect complete_subscribe complete_unsubscribe
  terminate_by_type connects id status c = complete_connect id status none c
  terminate_by_type subscribes id status c = complete_subscribe id status none c
  terminate_by_type unsubscribes id status c = complete_unsubscribe id status c
  terminate_by_type sends id status c = complete_send b id status c
  terminate_by_type keeps_alive id status c =
      op_complete b (record { op_type = keeps_alive; id = id }) c
  terminate_by_type disconnects id status c =
      op_complete b (record { op_type = disconnects; id = id }) c
  terminate_by_type receives id status c = op_complete b (record { op_type = receives; id = id }) c

  unfoldable pub terminate_op : OpPtr → AsyncOpStatus → Client → Client
  unfolding terminate_by_type
  terminate_op p status c = terminate_by_type p.op_type p.id status c

  -- One round of the loop of `terminateOps`.
  unfoldable pub terminate_entry :
      TerminateMode → AsyncOpStatus → Option (Option OpPtr) → Client → Client
  terminate_entry mode status none c = c
  terminate_entry mode status (some none) c = c
  terminate_entry mode status (some (some p)) c =
      if is_kept mode p.op_type then c else terminate_op p status c

  -- The rounds from an index on; each reads the entry as the rounds before have left it.
  unfoldable pub terminate_from : ℕ → ℕ → TerminateMode → AsyncOpStatus → Client → Client
  terminate_from zero idx mode status c = c
  terminate_from (suc count) idx mode status c =
      terminate_from count (idx + 1) mode status
        (terminate_entry mode status (get_elem? c.ops idx) c)

  unfoldable pub terminate_ops : AsyncOpStatus → TerminateMode → Client → Client
  terminate_ops status mode c = terminate_from (length c.ops) 0 mode status c

  unfoldable pub connectivity_by_type : OpType → ℕ → Client → Client
  unfolding complete_connect
  connectivity_by_type connects id c =
      if c.client_state.network_disconnected
      then complete_connect id broker_disconnected none c
      else c
  connectivity_by_type sends id c = elim (find_if (is_send id) c.send_ops) [
    | none ↦ c
    | some op ↦ suspend_timer op.timer (is_cut_off c) c
  ]
  connectivity_by_type receives id c = elim (find_if (is_recv id) c.recv_ops) [
    | none ↦ c
    | some op ↦ if leb 2 b.cfg.max_qos then suspend_timer op.timer (is_cut_off c) c else c
  ]
  connectivity_by_type keeps_alive id c = c
  connectivity_by_type disconnects id c = c
  connectivity_by_type subscribes id c = c
  connectivity_by_type unsubscribes id c = c

  -- `connectivityChanged`
  unfoldable pub connectivity_changed : Option (Option OpPtr) → Client → Client
  unfolding connectivity_by_type
  connectivity_changed none c = c
  connectivity_changed (some none) c = c
  connectivity_changed (some (some p)) c = connectivity_by_type p.op_type p.id c

  unfoldable pub connectivity_from : ℕ → ℕ → Client → Client
  connectivity_from zero idx c = c
  connectivity_from (suc count) idx c =
      connectivity_from count (idx + 1) (connectivity_changed (get_elem? c.ops idx) c)

  -- `none` is the reason `ValuesLimit`, which is not reported.
  unfoldable pub disconnect_broker : Option DisconnectReason → AsyncOpStatus → Client → Client
  disconnect_broker reason status c =
      let c1 = terminate_ops status keep_send_recv (mark_disconnecting c) in
      report_disconnect reason (connectivity_from (length c1.ops) 0 c1)
