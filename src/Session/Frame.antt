-- ===== src/Session/Frame.antt =====
-- What noting a received message changes: timers.
use cc_mqtt311_libs.Base.{refl, List, [], ◌∷◌, ◌==◌, Bool-cases, inl, inr}
use cc_mqtt311_libs.Client.{Client, KeepAliveOp}
use cc_mqtt311_libs.Client.Output.{restart_recv_timer}
use cc_mqtt311_libs.Ops.KeepAlive.{messages_received}
pub use cc_mqtt311_libs.Client.Output.Frame.{Retimed, is_sendable, output_if, send_message-Retimed}

recv-Retimed : (op : KeepAliveOp) (c : Client) → Retimed c (restart_recv_timer op c)
unfolding restart_recv_timer
recv-Retimed op c = elim (Bool-cases (c.session.keep_alive_ms == 0)) [
  | inl e ↦ rw e (c.timer_mgr, refl)
  | inr e ↦ rw e (_, refl)
]

pub messages_received-Retimed :
    (ops : List KeepAliveOp) (c : Client) → Retimed c (messages_received ops c)
unfolding messages_received
messages_received-Retimed [] c = (c.timer_mgr, refl)
messages_received-Retimed (op ∷ rest) c =
    let (m, e) = recv-Retimed op c in
    let (n, e') = messages_received-Retimed rest (record c { timer_mgr = m }) in (n, rw e e')
