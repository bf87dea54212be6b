-- ===== src/Client/Output/Frame.antt =====
-- What sending a message changes: timers, and the trace.
use cc_mqtt311_libs.Base.{
  ◌≡◌, refl, Bool, true, not, ◌&&◌, List, [], ◌∷◌, ltb, ◌==◌, if◌then◌else◌, Bool-cases, inl, inr,
}
use cc_mqtt311_libs.Config.{list_max_size}
use cc_mqtt311_libs.Timers.{TimerMgr}
use cc_mqtt311_libs.Client.{Client, TimerCb, Build, Event, Msg, KeepAliveOp, sends_output}
use cc_mqtt311_libs.Client.Output.{restart_ping_timer, messages_sent, send_message}

-- The second client is the first one but for its timers.
abbrev pub Retimed : Client → Client → Type 0
Retimed c d = (m : TimerMgr TimerCb) × (d ≡ record c { timer_mgr = m })

pub ping-Retimed : (op : KeepAliveOp) (c : Client) → Retimed c (restart_ping_timer op c)
unfolding restart_ping_timer
ping-Retimed op c = elim (Bool-cases (c.session.keep_alive_ms == 0)) [
  | inl e ↦ rw e (c.timer_mgr, refl)
  | inr e ↦ rw e (_, refl)
]

messages_sent-Retimed : (ops : List KeepAliveOp) (c : Client) → Retimed c (messages_sent ops c)
unfolding messages_sent
messages_sent-Retimed [] c = (c.timer_mgr, refl)
messages_sent-Retimed (op ∷ rest) c =
    let (m, e) = ping-Retimed op c in
    let (n, e') = messages_sent-Retimed rest (record c { timer_mgr = m }) in (n, rw e e')

module _ (b : Build) where
  -- The message fits the output buffer and its serialisation succeeds.
  abbrev pub is_sendable : Msg → Bool
  is_sendable msg =
      not (ltb (list_max_size b.cfg b.cfg.max_output_packet_size true) (b.frame_length msg))
      && b.frame_write msg

  abbrev pub output_if : Msg → List Event → List Event
  output_if msg t = if is_sendable msg then sends_output msg ∷ t else t

  pub send_message-Retimed :
      (msg : Msg) (c : Client)
      → Retimed (record c { trace = output_if msg c.trace }) (send_message b msg c).0
  unfolding send_message
  send_message-Retimed msg c =
      elim (Bool-cases
        (ltb (list_max_size b.cfg b.cfg.max_output_packet_size true) (b.frame_length msg))) [
          | inl long ↦ rw long (c.timer_mgr, refl)
          | inr short ↦ elim (Bool-cases (b.frame_write msg)) [
            | inr bad ↦ rw (short, bad) (c.timer_mgr, refl)
            | inl good ↦
                let (m, e) =
                  messages_sent-Retimed c.keep_alive_ops
                    (record c { trace = sends_output msg ∷ c.trace }) in
                rw (short, good) (m, e)
          ]
        ]
