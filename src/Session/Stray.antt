-- ===== src/Session/Stray.antt =====
-- Messages of the broker about a packet id that is not in use.
use cc_mqtt311_libs.Base.{ℕ, ◌≡◌, refl, ◌∙◌, Bool, leb, none, Bool-cases, inl, inr, find_if, ◌==◌}
use cc_mqtt311_libs.Client.{Client, Build}
use cc_mqtt311_libs.Ops.KeepAlive.{messages_received}
use cc_mqtt311_libs.Session.Frame.{Retimed, messages_received-Retimed}
use cc_mqtt311_libs.Session.Acks.{Ack, find_send_op, ack_qos, process_publish_ack, handle_ack}
use cc_mqtt311_libs.Session.Incoming.{handle_pubrel}

module _ (b : Build) where
  process_stray :
      (a : Ack) (packet_id : ℕ) (c : Client)
      → find_send_op packet_id (messages_received c.keep_alive_ops c) ≡ none
      → (process_publish_ack b a packet_id c).0 ≡ messages_received c.keep_alive_ops c
  unfolding process_publish_ack
  process_stray a packet_id c h = rw (h, process_publish_ack) refl

  -- A PUBACK, PUBREC or PUBCOMP with a packet id that no publish in the list has leaves the client
  -- as it was but for its timers.
  pub handle_ack_stray :
      (a : Ack) (packet_id : ℕ) (c : Client)
      → find_send_op packet_id c ≡ none
      → Retimed c (handle_ack b a packet_id c)
  unfolding handle_ack find_send_op
  handle_ack_stray a packet_id c h =
      let (m, e) = messages_received-Retimed c.keep_alive_ops c in
      elim (Bool-cases (leb (ack_qos b a) b.cfg.max_qos)) [
        | inl on ↦ rw on (m, process_stray a packet_id c (rw e h) ∙ e)
        | inr off ↦ rw off (c.timer_mgr, refl)
      ]

  pubrel_stray :
      (packet_id : ℕ) (valid : Bool) (c : Client)
      → find_if (λ op. op.packet_id == packet_id) (messages_received c.keep_alive_ops c).recv_ops
        ≡ none
      → handle_pubrel b packet_id valid c ≡ messages_received c.keep_alive_ops c
  unfolding handle_pubrel
  pubrel_stray packet_id valid c h = rw (h, handle_pubrel) refl

  -- A PUBREL with a packet id that no publish being received has leaves the client as it was but
  -- for its timers.
  pub handle_pubrel_stray :
      (packet_id : ℕ) (valid : Bool) (c : Client)
      → find_if (λ op. op.packet_id == packet_id) c.recv_ops ≡ none
      → Retimed c (handle_pubrel b packet_id valid c)
  handle_pubrel_stray packet_id valid c h =
      let (m, e) = messages_received-Retimed c.keep_alive_ops c in
      (m, pubrel_stray packet_id valid c (rw e h) ∙ e)
