-- ===== src/Ops/KeepAlive.antt =====
-- client/lib/src/op/KeepAliveOp.cpp: pings, and the watch over the broker's messages. Its timers of
-- sent and received messages are `restart_ping_timer` and `restart_recv_timer` of Client/Output.
use cc_mqtt311_libs.Base.{ℕ, none, some, List, [], ◌∷◌, if◌then◌else◌, find_if}
use cc_mqtt311_libs.Timers.{timer_is_active}
use cc_mqtt311_libs.Client.{
  Client, Build, KeepAliveOp, broker_disconnected, no_broker_response, pingreq_msg, uses_destroyed,
  keep_alive_resp,
}
use cc_mqtt311_libs.Client.Output.{emit, wait_timer, cancel_timer, send_message, restart_recv_timer}
use cc_mqtt311_libs.Client.Registry.{is_keep_alive}
use cc_mqtt311_libs.Client.Broker.{disconnect_broker}

-- `handle(PingrespMsg&)`
unfoldable pub handle_pingresp : KeepAliveOp → Client → Client
handle_pingresp op c = restart_recv_timer op (cancel_timer op.resp_timer c)

-- The loop that gives a received message to every keep-alive operation.
unfoldable pub messages_received : List KeepAliveOp → Client → Client
messages_received [] c = c
messages_received (op ∷ rest) c = messages_received rest (restart_recv_timer op c)

module _ (b : Build) where
  unfoldable pub send_ping : KeepAliveOp → Client → Client
  send_ping op c =
      if timer_is_active c.timer_mgr op.resp_timer
      then c
      else wait_timer op.resp_timer c.config.response_timeout_ms (keep_alive_resp op.id)
          (send_message b pingreq_msg c).0

  -- `sendPingCb` and `recvTimeoutCb`
  unfoldable pub ping_timeout : ℕ → Client → Client
  ping_timeout id c = elim (find_if (is_keep_alive id) c.keep_alive_ops) [
    | none ↦ emit uses_destroyed c
    | some op ↦ send_ping op c
  ]

  -- `pingTimeoutInternal`
  unfoldable pub resp_timeout : ℕ → Client → Client
  resp_timeout id c = elim (find_if (is_keep_alive id) c.keep_alive_ops) [
    | none ↦ emit uses_destroyed c
    | some op ↦ disconnect_broker b (some no_broker_response) broker_disconnected c
  ]
