-- ===== src/Session/Acks.antt =====
-- `ClientImpl::processPublishAckMsg` and what it uses: which publish an acknowledgement is for, and
-- whether it comes in order.
pub mod Legit
pub mod Resend
use cc_mqtt311_libs.Base.{
  ℕ, zero, suc, ◌+◌, Bool, true, false, not, ◌&&◌, Option, none, some, List, [], ◌∷◌, ◌==◌, leb,
  if◌then◌else◌, find_if, get_elem?, length,
}
use cc_mqtt311_libs.Client.{Client, Build, SendOp, out_of_fuel}
use cc_mqtt311_libs.Client.Output.{emit}
use cc_mqtt311_libs.Ops.KeepAlive.{messages_received}
use cc_mqtt311_libs.Ops.Send.{handle_puback, handle_pubrec, handle_pubcomp, force_dup_resend}

-- The three acknowledgements of a publish.
pub data Ack : Type 0 where
  puback pubrec pubcomp : Ack

abbrev pub is_pubcomp : Ack → Bool
is_pubcomp pubcomp = true
is_pubcomp _ = false

unfoldable pub find_send_op : ℕ → Client → Option SendOp
find_send_op packet_id c = find_if (λ op. op.pub_msg.packet_id == packet_id) c.send_ops

abbrev pub is_front : ℕ → List SendOp → Bool
is_front id [] = false
is_front id (op ∷ rest) = op.id == id

-- The loop of `isLegitSendAck`.
unfoldable pub legit_from : ℕ → Bool → Bool → List SendOp → Bool
legit_from id front pubcomp_ack [] = false
legit_from id front pubcomp_ack (op ∷ rest) =
    let later = legit_from id front pubcomp_ack rest in
    if op.id == id
    then true
    else if not op.acked
    then false
    else if pubcomp_ack && not front
    then false
    else later

unfoldable pub is_legit_send_ack : SendOp → Bool → Client → Bool
unfolding legit_from
is_legit_send_ack op pubcomp_ack c =
    if not op.published
    then false
    else legit_from op.id (is_front op.id c.send_ops) pubcomp_ack c.send_ops

abbrev pub is_at : List SendOp → ℕ → ℕ → Bool
is_at xs idx id = elim (get_elem? xs idx) [ none ↦ false | some op ↦ op.id == id ]

module _ (b : Build) where
  -- The loop of `resendAllUntil`. Each round passes one publish by or takes one off the list.
  unfoldable pub resend_all_from : ℕ → ℕ → ℕ → Client → Client
  resend_all_from zero id idx c = emit out_of_fuel c
  resend_all_from (suc fuel) id idx c = elim (get_elem? c.send_ops idx) [
    | none ↦ c
    | some op ↦
        let c1 = force_dup_resend b op c in
        let next =
          resend_all_from fuel id (if is_at c1.send_ops idx op.id then idx + 1 else idx) c1 in
        if op.id == id then c1 else next
  ]

  unfoldable pub resend_all_until : ℕ → Client → Client
  resend_all_until id c = resend_all_from (length c.send_ops + 1) id 0 c

  -- `msg.dispatch(*sendOp)`
  unfoldable pub dispatch_ack : Ack → ℕ → SendOp → Client → Client
  dispatch_ack puback packet_id op c = handle_puback b op c
  dispatch_ack pubrec packet_id op c = handle_pubrec b op packet_id c
  dispatch_ack pubcomp packet_id op c = handle_pubcomp b op packet_id c

  -- With the result: whether the packet id is known.
  unfoldable pub process_publish_ack : Ack → ℕ → Client → Client × Bool
  process_publish_ack ack packet_id c =
      let c1 = messages_received c.keep_alive_ops c in
      elim (find_send_op packet_id c1) [
        | none ↦ (c1, false)
        | some op ↦
            if is_legit_send_ack op (is_pubcomp ack) c1
            then (dispatch_ack ack packet_id op c1, true)
            else (resend_all_until op.id c1, true)
      ]

  -- `handle` of the three messages, each of which the build has from some `MaxQos` on.
  abbrev pub ack_qos : Ack → ℕ
  ack_qos puback = 1
  ack_qos pubrec = 2
  ack_qos pubcomp = 2

  unfoldable pub handle_ack : Ack → ℕ → Client → Client
  handle_ack ack packet_id c =
      if leb (ack_qos ack) b.cfg.max_qos then (process_publish_ack ack packet_id c).0 else c
