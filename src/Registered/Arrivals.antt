-- ===== src/Registered/Arrivals.antt =====
-- Publishes that come in, in the registry.
use cc_mqtt311_libs.Base.{
  ℕ, ◌+◌, ◌≡◌, refl, ap, ◌∙◌, Bool, true, not, ◌||◌, inl, inr, List, [], ◌∷◌, ◌++◌, find_if, length,
  leb, ◌==◌, Option-cases, arith,
}
use cc_mqtt311_libs.Client.{Client, Build, PublishMsg, RecvOp, receives}
use cc_mqtt311_libs.Ops.KeepAlive.{messages_received}
use cc_mqtt311_libs.Session.Incoming.{create_recv_op, receive_again, handle_publish, handle_pubrel}
use cc_mqtt311_libs.Session.Connected.{new_timer, push_op}
use cc_mqtt311_libs.Registered.{has, lists}
use cc_mqtt311_libs.Registered.Evolves.{
  Evolves, Evolves-trans, outside, if-Evolves, added, map-append,
}
use cc_mqtt311_libs.Registered.Known.{found-HasType, listed-HasType, given_registry}
use cc_mqtt311_libs.Registered.Sends.{send_message-Evolves}
use cc_mqtt311_libs.Registered.Messages.{
  messages_received-Evolves, violation-Evolves, recv_publish-Evolves, recv_pubrel-Evolves,
  reset_timer-Evolves,
}

has-append : (n : ℕ) (xs : List ℕ) → has n (xs ++ n ∷ []) ≡ true
has-append n [] = ground arith
has-append n (x ∷ xs) = let ih = has-append n xs in ground (arith, ih)

module _ (b : Build) where
  -- The new operation and its pointer.
  abbrev add_recv : Client → Client
  add_recv c =
      let (c1, timer) = new_timer b c in
      record (push_op b (record { op_type = receives; id = c.next_op }) c1) {
        recv_ops = c1.recv_ops ++ record { id = c.next_op; timer = timer; packet_id = 0 } ∷ [];
        next_op = c.next_op + 1;
      }

  add_recv-Evolves : (c : Client) → Evolves c (add_recv c)
  add_recv-Evolves c = record {
    grown = λ r.
        added receives (lists c) _ (map-append (λ (o : RecvOp). o.id) c.recv_ops _)
          (λ s e. ground arith) refl refl r;
  }

  create_recv_op-Evolves : (msg : PublishMsg) (c : Client) → Evolves c (create_recv_op b msg c)
  unfolding create_recv_op
  create_recv_op-Evolves msg c =
      if-Evolves c (not (b.alloc_room receives (length c.recv_ops))) _ _ (outside refl) (
        given_registry (λ r.
          let s = add_recv-Evolves c in
          Evolves-trans s (
            recv_publish-Evolves b _ msg (add_recv c) (
              listed-HasType receives c.next_op (lists (add_recv c)) (s.grown r).registry (
                ap (has c.next_op) (map-append (λ (o : RecvOp). o.id) c.recv_ops _)
                ∙ has-append c.next_op _)))))

  receive_again-Evolves :
      (op : RecvOp) (msg : PublishMsg) (c : Client) → Evolves c (receive_again b op msg c)
  unfolding receive_again
  receive_again-Evolves op msg c =
      if-Evolves c (not msg.dup) _ _ (violation-Evolves b c)
        (Evolves-trans (reset_timer-Evolves b op c) (send_message-Evolves b _ _))

  pub handle_publish-Evolves : (msg : PublishMsg) (c : Client) → Evolves c (handle_publish b msg c)
  unfolding handle_publish
  handle_publish-Evolves msg c =
      let c1 = messages_received c.keep_alive_ops c in
      let s = messages_received-Evolves c.keep_alive_ops c in
      let new = Evolves-trans s (create_recv_op-Evolves msg c1) in
      if-Evolves c c.session.disconnecting _ _ (outside refl) (
        if-Evolves c ((msg.qos == 0) || (msg.qos == 1)) _ _ new (
          if-Evolves c (leb 2 b.cfg.max_qos) _ _
            (elim (Option-cases
              (find_if (λ (op : RecvOp). op.packet_id == msg.packet_id) c1.recv_ops)) [
                | inl e ↦ rw e new
                | inr (op, e) ↦ rw e (Evolves-trans s (receive_again-Evolves op msg c1))
              ])
            new))

  pub handle_pubrel-Evolves :
      (packet_id : ℕ) (valid : Bool) (c : Client) → Evolves c (handle_pubrel b packet_id valid c)
  unfolding handle_pubrel
  handle_pubrel-Evolves packet_id valid c =
      let c1 = messages_received c.keep_alive_ops c in
      let s = messages_received-Evolves c.keep_alive_ops c in
      elim (Option-cases (find_if (λ (op : RecvOp). op.packet_id == packet_id) c1.recv_ops)) [
        | inl e ↦ rw (e, handle_pubrel) s
        | inr (op, e) ↦
            rw (e, handle_pubrel)
              (Evolves-trans s (
                given_registry (λ r. recv_pubrel-Evolves b op packet_id valid c1 (
                  found-HasType (λ (o : RecvOp). o.id) receives (lists c1) c1.recv_ops refl _ op e
                    r))))
      ]
