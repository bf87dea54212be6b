-- ===== src/Registered/Handles.antt =====
-- Preparing, configuring, sending and cancelling operations, in the registry.
use cc_mqtt311_libs.Base.{ℕ, ◌≡◌, refl, Bool, false, not, if◌then◌else◌, is_empty, ltb, arith}
use cc_mqtt311_libs.Timers.{is_valid}
use cc_mqtt311_libs.PacketIds.{alloc_packet_id}
use cc_mqtt311_libs.Client.{
  Client, Build, ErrorCode, OpType, ConnectOp, SubscribeOp, UnsubscribeOp, SendOp, connects,
  subscribes, unsubscribes, sends,
}
use cc_mqtt311_libs.Client.Registry.{is_connect, is_subscribe, is_unsubscribe, update_send}
use cc_mqtt311_libs.Client.Sends.{is_success, can_send, resume_since, op_complete}
use cc_mqtt311_libs.Ops.Connect.{needs_clean_session, connect_sent, send_connect}
use cc_mqtt311_libs.Ops.Subscribe.{subscribe_sent, send_subscribe}
use cc_mqtt311_libs.Ops.Unsubscribe.{unsubscribe_sent, send_unsubscribe}
use cc_mqtt311_libs.Ops.Send.{
  pause, prepared, ids_max_size, take_packet_id, unless_sent, send_or_pause, send_publish,
}
use cc_mqtt311_libs.Registered.{lists, HasType}
use cc_mqtt311_libs.Registered.Evolves.{
  Evolves, Evolves-trans, outside, outside_first, if-Evolves, either-Evolves, in_own_place,
  update_if-ids,
}
use cc_mqtt311_libs.Registered.Known.{given_registry}
use cc_mqtt311_libs.Registered.Sends.{
  update_send-Evolves, send_message-Evolves, op_complete-Evolves, do_send_internal-Evolves,
  resume_since-Evolves,
}
use cc_mqtt311_libs.Api.Interface.{update_connect, update_subscribe, update_unsubscribe}

pub update_connect-Evolves :
    (id : ℕ) (f : ConnectOp → ConnectOp) (c : Client)
    → ((o : ConnectOp) → (f o).id ≡ o.id)
    → Evolves c (update_connect id f c)
update_connect-Evolves id f c h = record {
  grown = λ r.
      in_own_place connects (lists c) _
        (update_if-ids (λ (o : ConnectOp). o.id) (is_connect id) f c.connect_ops h)
        (λ s e. ground arith) refl refl r;
}

pub update_subscribe-Evolves :
    (id : ℕ) (f : SubscribeOp → SubscribeOp) (c : Client)
    → ((o : SubscribeOp) → (f o).id ≡ o.id)
    → Evolves c (update_subscribe id f c)
update_subscribe-Evolves id f c h = record {
  grown = λ r.
      in_own_place subscribes (lists c) _
        (update_if-ids (λ (o : SubscribeOp). o.id) (is_subscribe id) f c.subscribe_ops h)
        (λ s e. ground arith) refl refl r;
}

pub update_unsubscribe-Evolves :
    (id : ℕ) (f : UnsubscribeOp → UnsubscribeOp) (c : Client)
    → ((o : UnsubscribeOp) → (f o).id ≡ o.id)
    → Evolves c (update_unsubscribe id f c)
update_unsubscribe-Evolves id f c h = record {
  grown = λ r.
      in_own_place unsubscribes (lists c) _
        (update_if-ids (λ (o : UnsubscribeOp). o.id) (is_unsubscribe id) f c.unsubscribe_ops h)
        (λ s e. ground arith) refl refl r;
}

module _ (b : Build) where
  -- Completing an operation that is known, after other steps.
  pub then_complete :
      (t : OpType) (id : ℕ) (c d : Client)
      → HasType t id (lists c)
      → Evolves c d
      → Evolves c (op_complete b (record { op_type = t; id = id }) d)
  then_complete t id c d h s =
      given_registry
        (λ r. Evolves-trans s (op_complete-Evolves b t id d ((s.grown r).typed t id h)))

  -- Cancelling, and releasing the lock of the preparation before it.
  pub cancel-Evolves :
      (t : OpType) (id : ℕ) (unsent : Bool) (c : Client)
      → HasType t id (lists c)
      → Evolves c (
          op_complete b
            (record { op_type = t; id = id })
            (if unsent then c else record c { locked = false }))
  cancel-Evolves t id unsent c h =
      then_complete t id c _ h (if-Evolves c unsent _ _ (outside refl) (outside refl))

  take_packet_id-Evolves :
      (op : SendOp) (c : Client) → Evolves c (take_packet_id b op (record c { locked = false })).0
  take_packet_id-Evolves op c =
      either-Evolves c (ltb 0 op.pub_msg.qos) _ _ (outside refl) (outside refl)

  module _ (scope : (Client → Client) → Client → Client)
      (scopes : (f : Client → Client) (c : Client)
        → ((d : Client) → Evolves d (f d))
        → Evolves c (scope f c)) where
    connect_sent-Evolves :
        (op : ConnectOp) (c : Client) (r : Client × ErrorCode)
        → HasType connects op.id (lists c)
        → Evolves c r.0
        → Evolves c (connect_sent b scope op r).0
    connect_sent-Evolves op c (d, ec) h s =
        either-Evolves c (not (is_success ec)) _ _ (then_complete connects op.id c d h s)
          (Evolves-trans s (scopes _ d (λ e. outside refl)))

    pub send_connect-Evolves :
        (has_cb : Bool) (op : ConnectOp) (c : Client)
        → HasType connects op.id (lists c)
        → Evolves c (send_connect b scope has_cb op c).0
    unfolding send_connect
    send_connect-Evolves has_cb op c h =
        let c1 : Client = record c { locked = false } in
        let drop = outside_first (op_complete-Evolves b connects op.id c1 h) refl in
        either-Evolves c (not has_cb) _ _ drop (
          either-Evolves c (not (is_valid op.timer)) _ _ drop (
            either-Evolves c (needs_clean_session op.msg.clean_session c1) _ _ drop (
              connect_sent-Evolves op c _ h (
                outside_first
                  (Evolves-trans (update_connect-Evolves op.id _ c1 (λ o. refl))
                    (send_message-Evolves b _ _))
                  refl))))

    subscribe_sent-Evolves :
        (op : SubscribeOp) (c : Client) (r : Client × ErrorCode)
        → HasType subscribes op.id (lists c)
        → Evolves c r.0
        → Evolves c (subscribe_sent b scope op r).0
    subscribe_sent-Evolves op c (d, ec) h s =
        either-Evolves c (not (is_success ec)) _ _ (then_complete subscribes op.id c d h s)
          (Evolves-trans s (scopes _ d (λ e. outside refl)))

    pub send_subscribe-Evolves :
        (has_cb : Bool) (op : SubscribeOp) (c : Client)
        → HasType subscribes op.id (lists c)
        → Evolves c (send_subscribe b scope has_cb op c).0
    unfolding send_subscribe
    send_subscribe-Evolves has_cb op c h =
        let c1 : Client = record c { locked = false } in
        let drop = outside_first (op_complete-Evolves b subscribes op.id c1 h) refl in
        let (s, packet_id) = alloc_packet_id (ids_max_size b) c.client_state in
        let c2 : Client = record c1 { client_state = s } in
        either-Evolves c (not has_cb) _ _ drop (
          either-Evolves c (is_empty op.topics) _ _ drop (
            either-Evolves c (not (is_valid op.timer)) _ _ drop (
              subscribe_sent-Evolves op c _ h (
                outside_first
                  (Evolves-trans (update_subscribe-Evolves op.id _ c2 (λ o. refl))
                    (send_message-Evolves b _ _))
                  refl))))

    unsubscribe_sent-Evolves :
        (op : UnsubscribeOp) (c : Client) (r : Client × ErrorCode)
        → HasType unsubscribes op.id (lists c)
        → Evolves c r.0
        → Evolves c (unsubscribe_sent b scope op r).0
    unsubscribe_sent-Evolves op c (d, ec) h s =
        either-Evolves c (not (is_success ec)) _ _ (then_complete unsubscribes op.id c d h s)
          (Evolves-trans s (scopes _ d (λ e. outside refl)))

    pub send_unsubscribe-Evolves :
        (has_cb : Bool) (op : UnsubscribeOp) (c : Client)
        → HasType unsubscribes op.id (lists c)
        → Evolves c (send_unsubscribe b scope has_cb op c).0
    unfolding send_unsubscribe
    send_unsubscribe-Evolves has_cb op c h =
        let c1 : Client = record c { locked = false } in
        let drop = outside_first (op_complete-Evolves b unsubscribes op.id c1 h) refl in
        let (s, packet_id) = alloc_packet_id (ids_max_size b) c.client_state in
        let c2 : Client = record c1 { client_state = s } in
        either-Evolves c (not has_cb) _ _ drop (
          either-Evolves c (is_empty op.topics) _ _ drop (
            either-Evolves c (not (is_valid op.timer)) _ _ drop (
              unsubscribe_sent-Evolves op c _ h (
                outside_first
                  (Evolves-trans (update_unsubscribe-Evolves op.id _ c2 (λ o. refl))
                    (send_message-Evolves b _ _))
                  refl))))

  unless_sent-Evolves :
      (op : SendOp) (c : Client) (r : Client × ErrorCode)
      → HasType sends op.id (lists c)
      → Evolves c r.0
      → Evolves c (unless_sent b op r).0
  unless_sent-Evolves op c (d, ec) h s =
      either-Evolves c (is_success ec) _ _ s (then_complete sends op.id c d h s)

  module _ (scope : (Client → Client × ErrorCode) → Client → Client × ErrorCode)
      (scopes : (f : Client → Client × ErrorCode) (c : Client)
        → ((d : Client) → Evolves d (f d).0)
        → Evolves c (scope f c).0) where
    send_or_pause-Evolves :
        (op : SendOp) (c d : Client)
        → HasType sends op.id (lists c)
        → Evolves c d
        → Evolves c (send_or_pause b scope op d).0
    send_or_pause-Evolves op c d h s =
        either-Evolves c (not (can_send op d)) _ _
          (Evolves-trans s (update_send-Evolves op.id pause d (λ o. refl)))
          (unless_sent-Evolves op c _ h (
            Evolves-trans s (
              scopes _ d
                (do_send_internal-Evolves (resume_since b) (resume_since-Evolves b) b op.id))))

    pub send_publish-Evolves :
        (has_cb : Bool) (op : SendOp) (c : Client)
        → HasType sends op.id (lists c)
        → Evolves c (send_publish b scope has_cb op c).0
    unfolding send_publish
    send_publish-Evolves has_cb op c h =
        let c1 : Client = record c { locked = false } in
        let drop = outside_first (op_complete-Evolves b sends op.id c1 h) refl in
        let (c2, packet_id) = take_packet_id b op c1 in
        let ready = prepared b.publish_refresh has_cb packet_id in
        either-Evolves c (not (is_valid op.timer)) _ _ drop (
          either-Evolves c (is_empty op.pub_msg.topic) _ _ drop (
            send_or_pause-Evolves (ready op) c (update_send op.id ready c2) h (
              Evolves-trans (take_packet_id-Evolves op c)
                (update_send-Evolves op.id ready c2 (λ o. refl)))))
