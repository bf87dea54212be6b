-- ===== src/Registered/Calls.antt =====
-- Every call of the application keeps the registry.
use cc_mqtt311_libs.Base.{ℕ, refl, ◌==◌, ◌≡◌, false, Option, none, some, List, [], ◌∷◌, ◌==◌, arith}
use cc_mqtt311_libs.State.{ConfigState}
use cc_mqtt311_libs.Client.{
  Client, Build, Callbacks, ErrorCode, connects, disconnects, subscribes, unsubscribes, sends,
  disconnect_msg, broker_disconnected, new_client, has_overflow,
}
use cc_mqtt311_libs.Ops.Connect.{cancel_connect}
use cc_mqtt311_libs.Ops.Subscribe.{cancel_subscribe}
use cc_mqtt311_libs.Ops.Unsubscribe.{cancel_unsubscribe}
use cc_mqtt311_libs.Ops.Send.{cancel_send}
use cc_mqtt311_libs.Api.Data.{disconnect_body, send_disconnect, cancel_disconnect}
use cc_mqtt311_libs.Api.Calls.{
  Call, sets_callback, ticks, processes_data, loses_network, sets_response_timeout,
  verifies_outgoing, verifies_incoming, verifies_subscribed, orders_publishes, prepares_connect,
  sends_connect, cancels_connect, times_connect, configures_connect, prepares_disconnect,
  sends_disconnect, cancels_disconnect, prepares_subscribe, sends_subscribe, cancels_subscribe,
  times_subscribe, configures_subscribe, prepares_unsubscribe, sends_unsubscribe,
  cancels_unsubscribe, times_unsubscribe, configures_unsubscribe, prepares_publish, sends_publish,
  cancels_publish, configures_publish, configures_will, resends_publish,
}
use cc_mqtt311_libs.Api.Interface.{scoped, given, call, calls}
use cc_mqtt311_libs.Registered.{lists, HasType, IsRegistered}
use cc_mqtt311_libs.Registered.Evolves.{if-Evolves, Evolves, Evolves-trans, outside, outside_first}
use cc_mqtt311_libs.Registered.Sends.{update_send-Evolves, send_message-Evolves}
use cc_mqtt311_libs.Registered.Broker.{disconnect_broker-Evolves}
use cc_mqtt311_libs.Registered.Scope.{
  client_tick-Evolves, guarded-Evolves, guarded-known, process_data-Evolves,
  notify_network_disconnected-Evolves,
}
use cc_mqtt311_libs.Registered.Found.{
  connect-Kept, disconnect-Kept, subscribe-Kept, unsubscribe-Kept, send-Kept,
}
use cc_mqtt311_libs.Registered.Handles.{
  update_connect-Evolves, update_subscribe-Evolves, update_unsubscribe-Evolves, then_complete,
  cancel-Evolves, send_connect-Evolves, send_subscribe-Evolves, send_unsubscribe-Evolves,
  send_publish-Evolves,
}
use cc_mqtt311_libs.Registered.Prepared.{
  Kept, if-Kept, connect_prepare-Prepares, disconnect_prepare-Prepares, subscribe_prepare-Prepares,
  unsubscribe_prepare-Prepares, publish_prepare-Prepares,
}

scoped-Evolves :
    (b : Build) (elapsed : ℕ) (f : Client → Client) (c : Client)
    → ((d : Client) → Evolves d (f d))
    → Evolves c (scoped b elapsed f c)
scoped-Evolves b elapsed f c h = guarded-Evolves b elapsed _ c h

given-Kept {ℓ κ} :
    {A : Type ℓ} {Op : Type κ} (b : Build) (a : Option A) (f : A → Op → Client → Client × ErrorCode)
    (op : Op) (c : Client)
    → ((x : A) → Kept c (f x op c))
    → Kept c (given b a f op c)
given-Kept b none f op c h = record { kept = outside refl }
given-Kept b (some x) f op c h = h x

module _ (b : Build) where
  send_disconnect-Evolves :
      (elapsed id : ℕ) (c : Client)
      → HasType disconnects id (lists c)
      → Evolves c (send_disconnect b elapsed id c).0
  unfolding send_disconnect
  send_disconnect-Evolves elapsed id c h =
      let c1 : Client = record c { locked = false } in
      outside_first
        (guarded-known b disconnects id elapsed (disconnect_body b id) c1 h (λ d k.
          Evolves-trans
            (then_complete b disconnects id d _ k (send_message-Evolves b disconnect_msg d))
            (disconnect_broker-Evolves b none broker_disconnected _)))
        refl

  call-Kept : (k : Call) (c : Client) → Kept c (call b k c)
  unfolding call cancel_connect cancel_subscribe cancel_unsubscribe cancel_send cancel_disconnect
  call-Kept (sets_callback k present) c = record {
    kept = if-Evolves c present _ _ (outside refl) (outside refl);
  }
  call-Kept (ticks ms) c = record { kept = client_tick-Evolves b ms c }
  call-Kept (processes_data elapsed len reads) c = record {
    kept = process_data-Evolves b elapsed len reads c;
  }
  call-Kept (loses_network elapsed) c = record {
    kept = notify_network_disconnected-Evolves b elapsed c;
  }
  call-Kept (sets_response_timeout ms) c =
      if-Kept c (ms == 0) _ _ (record { kept = outside refl }) (record { kept = outside refl })
  call-Kept (verifies_outgoing on) c =
      if-Kept c b.cfg.has_topic_format_verification _ _ (record { kept = outside refl })
        (record { kept = outside refl })
  call-Kept (verifies_incoming on) c =
      if-Kept c b.cfg.has_topic_format_verification _ _ (record { kept = outside refl })
        (record { kept = outside refl })
  call-Kept (verifies_subscribed on) c =
      if-Kept c b.cfg.has_sub_topic_verification _ _ (record { kept = outside refl })
        (record { kept = outside refl })
  call-Kept (orders_publishes none) c = record { kept = outside refl }
  call-Kept (orders_publishes (some order)) c = record { kept = outside refl }
  call-Kept (prepares_connect elapsed) c = record {
    kept = (connect_prepare-Prepares b elapsed c).prepares;
  }
  call-Kept (times_connect op ms) c =
      connect-Kept op _ c (λ o h. update_connect-Evolves o.id _ c (λ p. refl))
  call-Kept (configures_connect op config) c = connect-Kept op _ c (λ o h.
      (given-Kept b config _ o c
        (λ x. record { kept = update_connect-Evolves o.id _ c (λ p. refl) })).kept)
  call-Kept (configures_will op config) c = connect-Kept op _ c (λ o h.
      (given-Kept b config _ o c
        (λ x. record { kept = update_connect-Evolves o.id _ c (λ p. refl) })).kept)
  call-Kept (sends_connect elapsed op has_cb) c =
      connect-Kept op _ c (λ o h. send_connect-Evolves b _ (scoped-Evolves b elapsed) has_cb o c h)
  call-Kept (cancels_connect op) c =
      connect-Kept op _ c (λ o h. cancel-Evolves b connects o.id o.has_cb c h)
  call-Kept prepares_disconnect c = record { kept = (disconnect_prepare-Prepares b c).prepares }
  call-Kept (sends_disconnect elapsed op) c =
      disconnect-Kept op _ c (λ o h. send_disconnect-Evolves elapsed o c h)
  call-Kept (cancels_disconnect op) c =
      disconnect-Kept op _ c (λ o h. cancel-Evolves b disconnects o false c h)
  call-Kept prepares_subscribe c = record { kept = (subscribe_prepare-Prepares b c).prepares }
  call-Kept (times_subscribe op ms) c =
      subscribe-Kept op _ c (λ o h. update_subscribe-Evolves o.id _ c (λ p. refl))
  call-Kept (configures_subscribe op config) c = subscribe-Kept op _ c (λ o h.
      (given-Kept b config _ o c
        (λ x. record { kept = update_subscribe-Evolves o.id _ c (λ p. refl) })).kept)
  call-Kept (sends_subscribe elapsed op has_cb) c =
      subscribe-Kept op _ c
        (λ o h. send_subscribe-Evolves b _ (scoped-Evolves b elapsed) has_cb o c h)
  call-Kept (cancels_subscribe op) c =
      subscribe-Kept op _ c (λ o h. cancel-Evolves b subscribes o.id o.has_cb c h)
  call-Kept prepares_unsubscribe c = record { kept = (unsubscribe_prepare-Prepares b c).prepares }
  call-Kept (times_unsubscribe op ms) c =
      unsubscribe-Kept op _ c (λ o h. update_unsubscribe-Evolves o.id _ c (λ p. refl))
  call-Kept (configures_unsubscribe op config) c = unsubscribe-Kept op _ c (λ o h.
      (given-Kept b config _ o c
        (λ x. record { kept = update_unsubscribe-Evolves o.id _ c (λ p. refl) })).kept)
  call-Kept (sends_unsubscribe elapsed op has_cb) c =
      unsubscribe-Kept op _ c
        (λ o h. send_unsubscribe-Evolves b _ (scoped-Evolves b elapsed) has_cb o c h)
  call-Kept (cancels_unsubscribe op) c =
      unsubscribe-Kept op _ c (λ o h. cancel-Evolves b unsubscribes o.id o.has_cb c h)
  call-Kept prepares_publish c = record { kept = (publish_prepare-Prepares b c).prepares }
  call-Kept (resends_publish op attempts) c =
      send-Kept op _ c (λ o h. update_send-Evolves o.id _ c (λ p. refl))
  call-Kept (configures_publish op config) c = send-Kept op _ c (λ o h.
      (given-Kept b config _ o c
        (λ x. record { kept = update_send-Evolves o.id _ c (λ p. refl) })).kept)
  call-Kept (sends_publish elapsed op has_cb) c =
      send-Kept op _ c (λ o h. send_publish-Evolves b _ (guarded-Evolves b elapsed) has_cb o c h)
  call-Kept (cancels_publish op) c =
      send-Kept op _ c (λ o h. cancel-Evolves b sends o.id o.has_cb c h)

  pub calls-IsRegistered :
      (ks : List Call) (c : Client) → IsRegistered c → IsRegistered (calls b ks c)
  unfolding calls
  calls-IsRegistered [] c r = r
  calls-IsRegistered (k ∷ ks) c r =
      calls-IsRegistered ks _ (((call-Kept k c).kept.grown r).registry)

  -- Whatever calls the application makes of a new client, with whatever the broker sends in
  -- between, if the list of all operations is never appended to where it is a full vector of fixed
  -- storage: the pointers that are not null in that list are, for each type, the operations in the
  -- list of that type, one for one and in order; no two of them have one identity, and identities
  -- to come are new.
  pub run-IsRegistered :
      (callbacks : Callbacks) (config : ConfigState) (ks : List Call)
      → has_overflow (calls b ks (new_client callbacks config)).trace ≡ false
      → IsRegistered (calls b ks (new_client callbacks config))
  run-IsRegistered callbacks config ks defined =
      calls-IsRegistered ks _ (record { listed = λ t. ground arith; distinct = tt; below = tt })
