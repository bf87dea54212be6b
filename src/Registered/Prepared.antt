-- ===== src/Registered/Prepared.antt =====
-- The calls that prepare an operation, in the registry.
use cc_mqtt311_libs.Base.{
  ℕ, ◌+◌, refl, Bool, true, false, not, ◌||◌, ◌&&◌, some, [], ◌∷◌, ◌++◌, if◌then◌else◌, length,
  is_empty, ltb, arith,
}
use cc_mqtt311_libs.Client.{
  Client, Build, ErrorCode, ConnectOp, SubscribeOp, UnsubscribeOp, SendOp, connects, disconnects,
  subscribes, unsubscribes, sends, aborted,
}
use cc_mqtt311_libs.Client.Sends.{is_success}
use cc_mqtt311_libs.Client.Broker.{keep_send_recv}
use cc_mqtt311_libs.Session.Connected.{new_timer, ops_full}
use cc_mqtt311_libs.Api.Prepare.{
  refuse, Prepared, disconnect_prepare, subscribe_prepare, unsubscribe_prepare, publish_prepare,
  add_subscribe, add_unsubscribe, add_send,
}
use cc_mqtt311_libs.Api.Connect.{
  has_callbacks, clears_flag, init_body, init_internal, add_connect, connect_prepare_initialized,
  prepare_if, connect_prepare,
}
use cc_mqtt311_libs.Registered.{lists}
use cc_mqtt311_libs.Registered.Evolves.{
  Evolves, Evolves-trans, outside, outside_first, added, map-append,
}
use cc_mqtt311_libs.Registered.Broker.{terminate_ops-Evolves}
use cc_mqtt311_libs.Registered.Scope.{guarded-Evolves}

abbrev add_disconnect : Client → Client
add_disconnect c = record c {
  locked = true;
  ops = c.ops ++ some (record { op_type = disconnects; id = c.next_op }) ∷ [];
  next_op = c.next_op + 1;
  disconnect_ops = c.disconnect_ops ++ c.next_op ∷ [];
}

pub record Kept {ℓ} {R : Type ℓ} (c : Client) (r : Client × R) : Type 0 where
  pub kept : Evolves c r.0

pub if-Kept {ℓ} :
    {R : Type ℓ} (c : Client) (t : Bool) (x y : Client × R)
    → Kept c x
    → Kept c y
    → Kept c (if t then x else y)
if-Kept c true x y p q = p
if-Kept c false x y p q = q

pub record Prepares (c : Client) (r : Prepared) : Type 0 where
  pub prepares : Evolves c r.0

if-Prepares :
    (c : Client) (t : Bool) (x y : Prepared)
    → Prepares c x
    → Prepares c y
    → Prepares c (if t then x else y)
if-Prepares c true x y p q = p
if-Prepares c false x y p q = q

refused : (c : Client) (ec : ErrorCode) → Prepares c (refuse ec c)
refused c ec = record { prepares = outside refl }

module _ (b : Build) where
  -- A new operation of each type.
  add_connect-Evolves : (c : Client) → Evolves c (add_connect b c).0
  unfolding add_connect
  add_connect-Evolves c = record {
    grown = λ r.
        added connects (lists c) _ (map-append (λ (o : ConnectOp). o.id) c.connect_ops _)
          (λ s e. ground arith) refl refl r;
  }

  add_disconnect-Evolves : (c : Client) → Evolves c (add_disconnect c)
  add_disconnect-Evolves c = record {
    grown = λ r. added disconnects (lists c) _ refl (λ s e. ground arith) refl refl r;
  }

  add_subscribe-Evolves : (c : Client) → Evolves c (add_subscribe b c).0
  unfolding add_subscribe
  add_subscribe-Evolves c = record {
    grown = λ r.
        added subscribes (lists c) _ (map-append (λ (o : SubscribeOp). o.id) c.subscribe_ops _)
          (λ s e. ground arith) refl refl r;
  }

  add_unsubscribe-Evolves : (c : Client) → Evolves c (add_unsubscribe b c).0
  unfolding add_unsubscribe
  add_unsubscribe-Evolves c = record {
    grown = λ r.
        added unsubscribes (lists c) _
          (map-append (λ (o : UnsubscribeOp). o.id) c.unsubscribe_ops _) (λ s e. ground arith) refl
          refl r;
  }

  add_send-Evolves : (timer : ℕ) (c : Client) → Evolves c (add_send b timer c).0
  unfolding add_send
  add_send-Evolves timer c = record {
    grown = λ r.
        added sends (lists c) _ (map-append (λ (o : SendOp). o.id) c.send_ops _)
          (λ s e. ground arith) refl refl r;
  }

  pub disconnect_prepare-Prepares : (c : Client) → Prepares c (disconnect_prepare b c)
  unfolding disconnect_prepare
  disconnect_prepare-Prepares c = if-Prepares c (not c.session.connected) _ _ (refused c _) (
      if-Prepares c (not (is_empty c.disconnect_ops)) _ _ (refused c _) (
        if-Prepares c c.session.disconnecting _ _ (refused c _) (
          if-Prepares c c.client_state.network_disconnected _ _ (refused c _) (
            if-Prepares c (ops_full b c) _ _ (refused c _) (
              if-Prepares c c.locked _ _ (refused c _) (
                if-Prepares c (not (b.alloc_room disconnects (length c.disconnect_ops))) _ _
                  (refused c _) (record { prepares = add_disconnect-Evolves c })))))))

  pub subscribe_prepare-Prepares : (c : Client) → Prepares c (subscribe_prepare b c)
  unfolding subscribe_prepare
  subscribe_prepare-Prepares c = if-Prepares c (not c.session.connected) _ _ (refused c _) (
      if-Prepares c c.session.disconnecting _ _ (refused c _) (
        if-Prepares c c.client_state.network_disconnected _ _ (refused c _) (
          if-Prepares c (ops_full b c) _ _ (refused c _) (
            if-Prepares c c.locked _ _ (refused c _) (
              if-Prepares c (not (b.alloc_room subscribes (length c.subscribe_ops))) _ _
                (refused c _) (record { prepares = add_subscribe-Evolves c }))))))

  pub unsubscribe_prepare-Prepares : (c : Client) → Prepares c (unsubscribe_prepare b c)
  unfolding unsubscribe_prepare
  unsubscribe_prepare-Prepares c = if-Prepares c (not c.session.connected) _ _ (refused c _) (
      if-Prepares c c.session.disconnecting _ _ (refused c _) (
        if-Prepares c c.client_state.network_disconnected _ _ (refused c _) (
          if-Prepares c (ops_full b c) _ _ (refused c _) (
            if-Prepares c c.locked _ _ (refused c _) (
              if-Prepares c (not (b.alloc_room unsubscribes (length c.unsubscribe_ops))) _ _
                (refused c _) (record { prepares = add_unsubscribe-Evolves c }))))))

  pub publish_prepare-Prepares : (c : Client) → Prepares c (publish_prepare b c)
  unfolding publish_prepare
  publish_prepare-Prepares c =
      let (c1, timer) = new_timer b c in
      if-Prepares c (not c.session.connected) _ _ (refused c _) (
        if-Prepares c c.session.disconnecting _ _ (refused c _) (
          if-Prepares c c.client_state.network_disconnected _ _ (refused c _) (
            if-Prepares c (ops_full b c) _ _ (refused c _) (
              if-Prepares c (not (b.alloc_room sends (length c.send_ops))) _ _ (refused c _) (
                if-Prepares c c.locked _ _ (record { prepares = outside refl })
                  (record { prepares = outside_first (add_send-Evolves timer c1) refl }))))))

  init_body-Kept : (c : Client) → Kept c (init_body b c)
  unfolding init_body
  init_body-Kept c =
      let s = terminate_ops-Evolves b aborted keep_send_recv c in
      if-Kept c (not (has_callbacks c.callbacks)) _ _ (record { kept = outside refl })
        (if-Kept c
          ((c.callbacks.next_tick || c.callbacks.cancel_tick)
            && not (c.callbacks.next_tick && c.callbacks.cancel_tick))
          _ _ (record { kept = outside refl }) (record { kept = Evolves-trans s (outside refl) }))

  connect_prepare_initialized-Prepares : (c : Client) → Prepares c (connect_prepare_initialized b c)
  unfolding connect_prepare_initialized
  connect_prepare_initialized-Prepares c =
      if-Prepares c (not (is_empty c.connect_ops)) _ _ (refused c _) (
        if-Prepares c c.session.disconnecting _ _ (refused c _) (
          if-Prepares c c.session.connected _ _ (refused c _) (
            if-Prepares c (ops_full b c) _ _ (refused c _) (
              if-Prepares c c.locked _ _ (refused c _) (
                if-Prepares c (not (b.alloc_room connects (length c.connect_ops))) _ _ (refused c _)
                  (record { prepares = add_connect-Evolves c }))))))

  prepare_if-Prepares :
      (c : Client) (r : Client × ErrorCode) → Evolves c r.0 → Prepares c (prepare_if b r)
  prepare_if-Prepares c (d, ec) s =
      if-Prepares c (is_success ec) _ _
        (record { prepares = Evolves-trans s (connect_prepare_initialized-Prepares d).prepares })
        (record { prepares = s })

  pub connect_prepare-Prepares :
      (elapsed : ℕ) (c : Client) → Prepares c (connect_prepare b elapsed c)
  unfolding connect_prepare init_internal
  connect_prepare-Prepares elapsed c =
      let c1 = clears_flag c in
      if-Prepares c c.client_state.initialized _ _
        (record {
          prepares = outside_first (connect_prepare_initialized-Prepares c1).prepares refl;
        })
        (if-Prepares c (ltb 0 c.api_enter_count) _ _ (record { prepares = outside refl })
          (prepare_if-Prepares c _ (
            outside_first
              (guarded-Evolves b elapsed (init_body b) c1 (λ d. (init_body-Kept d).kept)) refl)))
