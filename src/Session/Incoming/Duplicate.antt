-- ===== src/Session/Incoming/Duplicate.antt =====
-- A publish of QoS 2 that the broker sends again before its PUBREL (`ClientImpl::handle(PublishMsg&)`).
use cc_mqtt311_libs.Base.{
  ℕ, ◌≡◌, refl, ap, ◌∙◌, Bool, true, false, not, ◌||◌, Option, some, List, [], ◌∷◌, leb, ◌==◌,
  if◌then◌else◌, find_if, Bool-cases, inl, inr, arith, All,
}
use cc_mqtt311_libs.Client.{
  Client, Build, Event, PublishMsg, RecvOp, MessageInfo, message_received, pubrec_msg,
}
use cc_mqtt311_libs.Ops.KeepAlive.{messages_received}
use cc_mqtt311_libs.Ops.Recv.{reset_timer}
use cc_mqtt311_libs.Session.Frame.{
  Retimed, messages_received-Retimed, output_if, is_sendable, send_message-Retimed,
}
use cc_mqtt311_libs.Session.Incoming.{receive_again, handle_publish}

-- The messages that the application was given, the latest first.
abbrev pub messages : List Event → List MessageInfo
messages [] = []
messages (message_received info ∷ t) = info ∷ messages t
messages (_ ∷ t) = messages t

pub if_false : (t : Bool) (x y : Client) → t ≡ false → (if t then x else y) ≡ y
if_false true x y e = cc
if_false false x y e = refl

pub if_true : (t : Bool) (x y : Client) → t ≡ true → (if t then x else y) ≡ x
if_true true x y e = refl
if_true false x y e = cc

module _ (b : Build) where
  reset_timer-Retimed : (op : RecvOp) (c : Client) → Retimed c (reset_timer b op c)
  unfolding reset_timer
  reset_timer-Retimed op c = elim (Bool-cases (leb 2 b.cfg.max_qos)) [
    | inl e ↦ rw e (_, refl)
    | inr e ↦ rw e (c.timer_mgr, refl)
  ]

  abbrev pub receiving : ℕ → Client → Option RecvOp
  receiving packet_id c = find_if (λ op. op.packet_id == packet_id) c.recv_ops

  receive_again-Retimed :
      (msg : PublishMsg) (op : RecvOp) (c : Client)
      → msg.dup ≡ true
      → Retimed
          (record c { trace = output_if b (pubrec_msg msg.packet_id) c.trace })
          (receive_again b op msg c)
  unfolding receive_again
  receive_again-Retimed msg op c dup =
      let (n, e) = reset_timer-Retimed op c in
      let (k, e') =
        send_message-Retimed b (pubrec_msg msg.packet_id) (record c { timer_mgr = n }) in
      (k, if_false (not msg.dup) _ _ (ap not dup) ∙ rw e e')

  to_receive_again :
      (msg : PublishMsg) (op : RecvOp) (c : Client)
      → c.session.disconnecting ≡ false
      → leb 2 b.cfg.max_qos ≡ true
      → msg.qos ≡ 2
      → receiving msg.packet_id (messages_received c.keep_alive_ops c) ≡ some op
      → handle_publish b msg c ≡ receive_again b op msg (messages_received c.keep_alive_ops c)
  unfolding handle_publish
  to_receive_again msg op c active has_qos2 two known =
      if_false c.session.disconnecting _ _ active
      ∙ if_false ((msg.qos == 0) || (msg.qos == 1)) _ _ (ground arith)
      ∙ if_true (leb 2 b.cfg.max_qos) _ _ has_qos2
      ∙ rw known refl

  -- While a publish of QoS 2 is being received and the client is not disconnecting, its duplicate
  -- is answered with PUBREC, if that can be sent, and is not reported to the application: the
  -- client is as before but for its timers.
  pub handle_publish_dup :
      (msg : PublishMsg) (op : RecvOp) (c : Client)
      → c.session.disconnecting ≡ false
      → leb 2 b.cfg.max_qos ≡ true
      → msg.qos ≡ 2
      → msg.dup ≡ true
      → receiving msg.packet_id c ≡ some op
      → Retimed
          (record c { trace = output_if b (pubrec_msg msg.packet_id) c.trace })
          (handle_publish b msg c)
  handle_publish_dup msg op c active has_qos2 two dup known =
      let (m, e) = messages_received-Retimed c.keep_alive_ops c in
      let (k, e') = receive_again-Retimed msg op (record c { timer_mgr = m }) dup in
      (k, to_receive_again msg op c active has_qos2 two (rw e known) ∙ rw e e')

  -- All of these publishes, one after the other.
  abbrev pub handle_publishes : List PublishMsg → Client → Client
  handle_publishes [] c = c
  handle_publishes (msg ∷ rest) c = handle_publishes rest (handle_publish b msg c)

  abbrev pub IsDuplicate : ℕ → PublishMsg → Type 0
  IsDuplicate packet_id msg = (msg.qos ≡ 2) × (msg.dup ≡ true) × (msg.packet_id ≡ packet_id)

  output_if-messages :
      (packet_id : ℕ) (t : List Event)
      → messages (output_if b (pubrec_msg packet_id) t) ≡ messages t
  output_if-messages packet_id t = elim (Bool-cases (is_sendable b (pubrec_msg packet_id))) [
    | inl e ↦ rw e refl
    | inr e ↦ rw e refl
  ]

  -- While a publish of QoS 2 is being received and the client is not disconnecting, the broker may
  -- send it again as often as it likes, each time marked as a duplicate: the messages that the
  -- application was given stay the same, and the publish is still being received.
  pub handle_publishes_once :
      (packet_id : ℕ) (op : RecvOp) (msgs : List PublishMsg) (c : Client)
      → c.session.disconnecting ≡ false
      → leb 2 b.cfg.max_qos ≡ true
      → receiving packet_id c ≡ some op
      → All (IsDuplicate packet_id) msgs
      → (messages (handle_publishes msgs c).trace ≡ messages c.trace)
        × (receiving packet_id (handle_publishes msgs c) ≡ some op)
  handle_publishes_once packet_id op [] c active has_qos2 known a = (refl, known)
  handle_publishes_once packet_id op (msg ∷ rest) c active has_qos2 known ((two, dup, same), a) =
      let (m, e) = handle_publish_dup msg op c active has_qos2 two dup (rw same known) in
      let ih =
        handle_publishes_once packet_id op rest
          (record c { timer_mgr = m; trace = output_if b (pubrec_msg msg.packet_id) c.trace })
          active has_qos2 known a in
      rw (e, handle_publishes) (ih.0 ∙ output_if-messages msg.packet_id c.trace, ih.1)
