-- ===== src/Session/Incoming.antt =====
-- `ClientImpl::handle` of PUBLISH and PUBREL.
pub mod Duplicate
pub mod Overflow
use cc_mqtt311_libs.Base.{
  ℕ, ◌+◌, Bool, not, ◌||◌, none, some, [], ◌∷◌, ◌++◌, ◌==◌, leb, if◌then◌else◌, find_if, length,
}
use cc_mqtt311_libs.Client.{Client, Build, PublishMsg, RecvOp, receives, pubrec_msg}
use cc_mqtt311_libs.Client.Output.{send_message}
use cc_mqtt311_libs.Ops.KeepAlive.{messages_received}
use cc_mqtt311_libs.Ops.Recv.{recv_publish, recv_pubrel, reset_timer, violation}
use cc_mqtt311_libs.Session.Connected.{new_timer, push_op}

module _ (b : Build) where
  -- The lambda `createRecvOp`.
  unfoldable pub create_recv_op : PublishMsg → Client → Client
  create_recv_op msg c =
      let (c1, timer) = new_timer b c in
      let op : RecvOp = record { id = c.next_op; timer = timer; packet_id = 0 } in
      if not (b.alloc_room receives (length c.recv_ops))
      then c
      else recv_publish b op msg
          (record (push_op b (record { op_type = receives; id = op.id }) c1) {
            recv_ops = c1.recv_ops ++ op ∷ [];
            next_op = c.next_op + 1;
          })

  -- A publish of QoS 2 whose packet id is being received already.
  unfoldable pub receive_again : RecvOp → PublishMsg → Client → Client
  receive_again op msg c =
      if not msg.dup
      then violation b c
      else (send_message b (pubrec_msg msg.packet_id) (reset_timer b op c)).0

  unfoldable pub handle_publish : PublishMsg → Client → Client
  handle_publish msg c =
      let c1 = messages_received c.keep_alive_ops c in
      if c.session.disconnecting
      then c
      else if (msg.qos == 0) || (msg.qos == 1)
      then create_recv_op msg c1
      else if leb 2 b.cfg.max_qos
      then elim (find_if (λ op. op.packet_id == msg.packet_id) c1.recv_ops) [
        | none ↦ create_recv_op msg c1
        | some op ↦ receive_again op msg c1
      ]
      else create_recv_op msg c1

  unfoldable pub handle_pubrel : ℕ → Bool → Client → Client
  handle_pubrel packet_id valid c =
      let c1 = messages_received c.keep_alive_ops c in
      elim (find_if (λ op. op.packet_id == packet_id) c1.recv_ops) [
        | none ↦ c1
        | some op ↦ recv_pubrel b op packet_id valid c1
      ]
