-- ===== src/Registered/Scope.antt =====
-- The scope of `apiEnter`, the tick, and the dispatch of messages, in the registry.
use cc_mqtt311_libs.Base.{
  ℕ, zero, suc, ◌+◌, ◌-◌, refl, not, ◌||◌, Option, none, some, List, [], ◌∷◌, find_if, get_elem?,
  length, ltb, ◌==◌, arith,
}
use cc_mqtt311_libs.Timers.{tick, get_min_wait}
use cc_mqtt311_libs.Client.{
  Client, Build, OpPtr, OpType, TimerCb, connects, keeps_alive, subscribes, unsubscribes, timeout,
  protocol_error, protocol_violation, broker_disconnected, connect_op_timeout, subscribe_op_timeout,
  unsubscribe_op_timeout, send_op_timeout, recv_op_timeout, keep_alive_ping, keep_alive_recv,
  keep_alive_resp,
}
use cc_mqtt311_libs.Client.Output.{restart_recv_timer}
use cc_mqtt311_libs.Client.Registry.{
  is_connect, is_subscribe, is_unsubscribe, is_keep_alive, clean_ops,
}
use cc_mqtt311_libs.Ops.Connect.{handle_connack}
use cc_mqtt311_libs.Ops.Subscribe.{handle_suback, subscribe_timeout}
use cc_mqtt311_libs.Ops.Unsubscribe.{handle_unsuback, unsubscribe_timeout}
use cc_mqtt311_libs.Ops.KeepAlive.{handle_pingresp}
use cc_mqtt311_libs.Api.Loop.{
  fire, fire_all, tick_timers, do_api_enter, do_api_exit, client_tick, guarded,
}
use cc_mqtt311_libs.Api.Data.{
  Input, connack, publish, ack, pubrel, suback, unsuback, pingresp, Read, message, not_enough,
  failed, when_op, op_handles, dispatch_entry, dispatch_from, handle_message, dispatch,
  process_reads, process_data, mark_network, notify_network_disconnected,
}
use cc_mqtt311_libs.Registered.{lists, HasType}
use cc_mqtt311_libs.Registered.Evolves.{
  Evolves, Evolves-trans, outside, outside_first, if-Evolves, either-Evolves, cleaned,
}
use cc_mqtt311_libs.Registered.Known.{given_registry}
use cc_mqtt311_libs.Registered.Broker.{
  complete_connect-Evolves, complete_subscribe-Evolves, complete_unsubscribe-Evolves,
  disconnect_broker-Evolves,
}
use cc_mqtt311_libs.Registered.Messages.{
  restart_recv_timer-Evolves, handle_pingresp-Evolves, ping_timeout-Evolves, resp_timeout-Evolves,
  handle_suback-Evolves, handle_unsuback-Evolves, recv_timeout-Evolves,
}
use cc_mqtt311_libs.Registered.Publishes.{send_timeout-Evolves, handle_ack-Evolves}
use cc_mqtt311_libs.Registered.Arrivals.{handle_publish-Evolves, handle_pubrel-Evolves}
use cc_mqtt311_libs.Registered.Connection.{handle_connack-Evolves}

when_op-Evolves {ℓ} :
    {A : Type ℓ} (o : Option A) (f : A → Client → Client) (c : Client)
    → ((op : A) → Evolves c (f op c))
    → Evolves c (when_op o f c)
when_op-Evolves none f c h = outside refl
when_op-Evolves (some op) f c h = h op

clean_ops-Evolves : (c : Client) → Evolves c (clean_ops c)
unfolding clean_ops
clean_ops-Evolves c =
    if-Evolves c c.ops_deleted _ _
      (record { grown = λ r. cleaned (lists c) _ (λ s. ground arith) refl refl r }) (outside refl)

module _ (b : Build) where
  fire-Evolves : (cb : TimerCb) (c : Client) → Evolves c (fire b cb c)
  unfolding fire subscribe_timeout unsubscribe_timeout
  fire-Evolves (connect_op_timeout id) c = complete_connect-Evolves b id timeout none c
  fire-Evolves (subscribe_op_timeout id) c = complete_subscribe-Evolves b id timeout none c
  fire-Evolves (unsubscribe_op_timeout id) c = complete_unsubscribe-Evolves b id timeout c
  fire-Evolves (send_op_timeout id) c = send_timeout-Evolves b id c
  fire-Evolves (recv_op_timeout id) c = recv_timeout-Evolves b id c
  fire-Evolves (keep_alive_ping id) c = ping_timeout-Evolves b id c
  fire-Evolves (keep_alive_recv id) c = ping_timeout-Evolves b id c
  fire-Evolves (keep_alive_resp id) c = resp_timeout-Evolves b id c

  fire_all-Evolves : (cbs : List TimerCb) (c : Client) → Evolves c (fire_all b cbs c)
  unfolding fire_all
  fire_all-Evolves [] c = outside refl
  fire_all-Evolves (cb ∷ cbs) c = Evolves-trans (fire-Evolves cb c) (fire_all-Evolves cbs _)

  tick_timers-Evolves : (ms : ℕ) (c : Client) → Evolves c (tick_timers b ms c)
  unfolding tick_timers
  tick_timers-Evolves ms c =
      let (m, cbs) = tick ms c.timer_mgr in
      outside_first (fire_all-Evolves cbs (record c { timer_mgr = m })) refl

  do_api_enter-Evolves : (elapsed : ℕ) (c : Client) → Evolves c (do_api_enter b elapsed c)
  unfolding do_api_enter
  do_api_enter-Evolves elapsed c =
      let c1 : Client = record c { api_enter_count = c.api_enter_count + 1 } in
      if-Evolves c (ltb 1 c1.api_enter_count || not c.callbacks.cancel_tick) _ _ (outside refl) (
        if-Evolves c (get_min_wait c1.timer_mgr == 0) _ _ (outside refl)
          (outside_first (tick_timers-Evolves elapsed c1) refl))

  do_api_exit-Evolves : (c : Client) → Evolves c (do_api_exit b c)
  unfolding do_api_exit
  do_api_exit-Evolves c =
      let c1 : Client = record c { api_enter_count = c.api_enter_count - 1 } in
      let c2 = clean_ops c1 in
      let s = outside_first (clean_ops-Evolves c1) refl in
      if-Evolves c (ltb 0 c1.api_enter_count) _ _ (outside refl) (
        if-Evolves c (not c.callbacks.next_tick) _ _ s
          (if-Evolves c (get_min_wait c2.timer_mgr == 0) _ _ s (Evolves-trans s (outside refl))))

  pub client_tick-Evolves : (ms : ℕ) (c : Client) → Evolves c (client_tick b ms c)
  unfolding client_tick
  client_tick-Evolves ms c =
      let c1 : Client = record c { api_enter_count = c.api_enter_count + 1 } in
      Evolves-trans (outside_first (tick_timers-Evolves ms c1) refl) (do_api_exit-Evolves _)

  -- Of an operation that is known at first, in the scope.
  pub guarded-known {ℓ} :
      {R : Type ℓ} (t : OpType) (id elapsed : ℕ) (f : Client → Client × R) (c : Client)
      → HasType t id (lists c)
      → ((d : Client) → HasType t id (lists d) → Evolves d (f d).0)
      → Evolves c (guarded b elapsed f c).0
  unfolding guarded
  guarded-known t id elapsed f c k h = given_registry (λ r.
      let s = do_api_enter-Evolves elapsed c in
      Evolves-trans s (Evolves-trans (h _ ((s.grown r).typed t id k)) (do_api_exit-Evolves _)))

  pub guarded-Evolves {ℓ} :
      {R : Type ℓ} (elapsed : ℕ) (f : Client → Client × R) (c : Client)
      → ((d : Client) → Evolves d (f d).0)
      → Evolves c (guarded b elapsed f c).0
  unfolding guarded
  guarded-Evolves elapsed f c h =
      Evolves-trans (do_api_enter-Evolves elapsed c) (Evolves-trans (h _) (do_api_exit-Evolves _))

  op_handles-Evolves :
      (t : OpType) (id : ℕ) (msg : Input) (c : Client) → Evolves c (op_handles b t id msg c)
  unfolding op_handles
  op_handles-Evolves connects id (connack code present) c =
      when_op-Evolves (find_if (is_connect id) c.connect_ops)
        (λ op. handle_connack b op code present) c
        (λ op. handle_connack-Evolves b op code present c)
  op_handles-Evolves subscribes id (suback packet_id codes) c =
      when_op-Evolves (find_if (is_subscribe id) c.subscribe_ops)
        (λ op. handle_suback b op packet_id codes) c
        (λ op. handle_suback-Evolves b op packet_id codes c)
  op_handles-Evolves unsubscribes id (unsuback packet_id) c =
      when_op-Evolves (find_if (is_unsubscribe id) c.unsubscribe_ops)
        (λ op. handle_unsuback b op packet_id) c (λ op. handle_unsuback-Evolves b op packet_id c)
  op_handles-Evolves keeps_alive id pingresp c =
      when_op-Evolves (find_if (is_keep_alive id) c.keep_alive_ops) handle_pingresp c
        (λ op. handle_pingresp-Evolves op c)
  op_handles-Evolves keeps_alive id _ c =
      when_op-Evolves (find_if (is_keep_alive id) c.keep_alive_ops) restart_recv_timer c
        (λ op. restart_recv_timer-Evolves op c)
  op_handles-Evolves _ _ _ c = outside refl

  dispatch_entry-Evolves :
      (msg : Input) (o : Option (Option OpPtr)) (c : Client) → Evolves c (dispatch_entry b msg o c)
  unfolding dispatch_entry
  dispatch_entry-Evolves msg none c = outside refl
  dispatch_entry-Evolves msg (some none) c = outside refl
  dispatch_entry-Evolves msg (some (some p)) c = op_handles-Evolves p.op_type p.id msg c

  dispatch_from-Evolves :
      (count idx : ℕ) (msg : Input) (c : Client) → Evolves c (dispatch_from b count idx msg c)
  unfolding dispatch_from
  dispatch_from-Evolves zero idx msg c = outside refl
  dispatch_from-Evolves (suc count) idx msg c =
      let s = dispatch_entry-Evolves msg (get_elem? c.ops idx) c in
      if-Evolves c (dispatch_entry b msg (get_elem? c.ops idx) c).session.disconnecting _ _ s
        (Evolves-trans s (dispatch_from-Evolves count (idx + 1) msg _))

  handle_message-Evolves : (msg : Input) (c : Client) → Evolves c (handle_message b msg c)
  unfolding handle_message
  handle_message-Evolves msg c =
      if-Evolves c c.session.disconnecting _ _ (outside refl)
        (dispatch_from-Evolves (length c.ops) 0 msg c)

  dispatch-Evolves : (msg : Input) (c : Client) → Evolves c (dispatch b msg c)
  unfolding dispatch
  dispatch-Evolves (publish msg) c = handle_publish-Evolves b msg c
  dispatch-Evolves (ack a packet_id) c = handle_ack-Evolves b a packet_id c
  dispatch-Evolves (pubrel packet_id valid) c =
      if-Evolves c (ltb b.cfg.max_qos 2) _ _ (outside refl)
        (handle_pubrel-Evolves b packet_id valid c)
  dispatch-Evolves msg c = handle_message-Evolves msg c

  process_reads-Evolves :
      (len consumed : ℕ) (reads : List Read) (c : Client)
      → Evolves c (process_reads b len consumed reads c).0
  unfolding process_reads
  process_reads-Evolves len consumed [] c = outside refl
  process_reads-Evolves len consumed (not_enough ∷ rest) c = outside refl
  process_reads-Evolves len consumed (failed ∷ rest) c =
      disconnect_broker-Evolves b (some protocol_violation) protocol_error c
  process_reads-Evolves len consumed (message msg n ∷ rest) c =
      Evolves-trans (dispatch-Evolves msg c) (process_reads-Evolves len (consumed + n) rest _)

  pub process_data-Evolves :
      (elapsed len : ℕ) (reads : List Read) (c : Client)
      → Evolves c (process_data b elapsed len reads c).0
  unfolding process_data
  process_data-Evolves elapsed len reads c = guarded-Evolves elapsed _ c (λ d.
      either-Evolves d d.client_state.network_disconnected _ _ (outside refl)
        (process_reads-Evolves len 0 reads d))

  pub notify_network_disconnected-Evolves :
      (elapsed : ℕ) (c : Client) → Evolves c (notify_network_disconnected b elapsed c)
  unfolding notify_network_disconnected
  notify_network_disconnected-Evolves elapsed c = guarded-Evolves elapsed _ c (λ d.
      if-Evolves d d.session.disconnecting _ _ (outside refl) (
        outside_first (disconnect_broker-Evolves b none broker_disconnected (mark_network b d))
          refl))
