-- ===== src/Client/Output.antt =====
-- `ClientImpl::sendMessage` and the keep-alive timers that it restarts (KeepAliveOp.cpp).
pub mod Frame
use cc_mqtt311_libs.Base.{ℕ, Bool, true, not, List, [], ◌∷◌, ltb, ◌==◌, if◌then◌else◌}
use cc_mqtt311_libs.Timers.{timer_wait, timer_cancel, set_suspended}
use cc_mqtt311_libs.Config.{list_max_size}
use cc_mqtt311_libs.Client.{
  Client, Build, Event, Msg, TimerCb, ErrorCode, KeepAliveOp, sends_output, success,
  buffer_overflow, internal_error, keep_alive_ping, keep_alive_recv,
}

abbrev pub emit : Event → Client → Client
emit e c = record c { trace = e ∷ c.trace }

abbrev pub wait_timer : ℕ → ℕ → TimerCb → Client → Client
wait_timer idx ms cb c = record c { timer_mgr = timer_wait c.timer_mgr idx ms cb }

abbrev pub cancel_timer : ℕ → Client → Client
cancel_timer idx c = record c { timer_mgr = timer_cancel c.timer_mgr idx }

abbrev pub suspend_timer : ℕ → Bool → Client → Client
suspend_timer idx s c = record c { timer_mgr = set_suspended c.timer_mgr idx s }

unfoldable pub restart_ping_timer : KeepAliveOp → Client → Client
restart_ping_timer op c =
    if c.session.keep_alive_ms == 0
    then c
    else wait_timer op.ping_timer c.session.keep_alive_ms (keep_alive_ping op.id) c

unfoldable pub restart_recv_timer : KeepAliveOp → Client → Client
restart_recv_timer op c =
    if c.session.keep_alive_ms == 0
    then c
    else wait_timer op.recv_timer c.session.keep_alive_ms (keep_alive_recv op.id) c

-- The loop over `m_keepAliveOps`, with `messageSent` inlined.
unfoldable pub messages_sent : List KeepAliveOp → Client → Client
messages_sent [] c = c
messages_sent (op ∷ rest) c = messages_sent rest (restart_ping_timer op c)

module _ (b : Build) where
  unfoldable pub send_message : Msg → Client → Client × ErrorCode
  send_message msg c =
      if ltb (list_max_size b.cfg b.cfg.max_output_packet_size true) (b.frame_length msg)
      then (c, buffer_overflow)
      else if not (b.frame_write msg)
      then (c, internal_error)
      else (messages_sent c.keep_alive_ops (emit (sends_output msg) c), success)
