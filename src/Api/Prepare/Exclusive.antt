-- ===== src/Api/Prepare/Exclusive.antt =====
-- Between a prepare call and the `send` or `cancel` of its operation no other one can be prepared
-- (`m_preparationLocked` of client/lib/src/ClientImpl.cpp).
use cc_mqtt311_libs.Base.{
  ◌+◌, ◌≡◌, refl, Bool, true, false, not, ◌⊎◌, inl, inr, none, some, [], ◌∷◌, ◌++◌, if◌then◌else◌,
  arith, is_empty, length,
}
use cc_mqtt311_libs.Client.{
  Client, Build, ErrorCode, OpType, disconnects, subscribes, unsubscribes, sends, not_connected,
  busy, disconnecting, network_disconnected, retry_later, preparation_locked, out_of_memory,
}
use cc_mqtt311_libs.Client.Sends.{is_success}
use cc_mqtt311_libs.Session.Connected.{ops_full}
use cc_mqtt311_libs.Api.Prepare.{
  Prepared, disconnect_prepare, subscribe_prepare, unsubscribe_prepare, publish_prepare,
  add_subscribe, add_unsubscribe, add_send,
}

-- The calls that prepare an operation of a connected client.
pub data PrepareCall : Type 0 where
  disconnect_call subscribe_call unsubscribe_call publish_call : PrepareCall

abbrev pub call_type : PrepareCall → OpType
call_type disconnect_call = disconnects
call_type subscribe_call = subscribes
call_type unsubscribe_call = unsubscribes
call_type publish_call = sends

module _ (b : Build) where
  abbrev pub prepare : PrepareCall → Client → Prepared
  prepare disconnect_call c = disconnect_prepare b c
  prepare subscribe_call c = subscribe_prepare b c
  prepare unsubscribe_call c = unsubscribe_prepare b c
  prepare publish_call c = publish_prepare b c

  -- A call that is refused gives no operation, and leaves the client as it was but for the storage
  -- of timers, in which a publish has taken one and given it back.
  pub record Refused (c : Client) (r : Prepared) : Type 0 where
    pub nothing : r.1 ≡ none
    pub fails : is_success r.2 ≡ false
    pub unchanged : r.0 ≡ record c { timer_mgr = r.0.timer_mgr }

  -- A call that succeeds gives a new operation, registers it last, and locks the preparation; the
  -- client was connected and the preparation free.
  pub record Accepts (t : OpType) (c : Client) (r : Prepared) : Type 0 where
    pub given : r.1 ≡ some c.next_op
    pub succeeds : is_success r.2 ≡ true
    pub registered : r.0.ops ≡ c.ops ++ some (record { op_type = t; id = c.next_op }) ∷ []
    pub locks : r.0.locked ≡ true
    pub next_id : r.0.next_op ≡ c.next_op + 1
    pub quiet : r.0.trace ≡ c.trace
    pub was_connected : c.session.connected ≡ true
    pub was_active : c.session.disconnecting ≡ false
    pub was_unlocked : c.locked ≡ false
    pub had_room : ops_full b c ≡ false

  -- One guard of a prepare call.
  guard_cases :
      {t : OpType} {c : Client} {r : Prepared} (c' : Client) (test : Bool) (ec : ErrorCode)
      → is_success ec ≡ false
      → c' ≡ record c { timer_mgr = c'.timer_mgr }
      → (test ≡ false → Refused c r ⊎ Accepts t c r)
      → Refused c (if test then (c', none, ec) else r)
        ⊎ Accepts t c (if test then (c', none, ec) else r)
  guard_cases c' true ec e same k = inl (record { nothing = refl; fails = e; unchanged = same })
  guard_cases c' false ec e same k = k refl

  from_not : (x : Bool) → not x ≡ false → x ≡ true
  from_not x h = ground arith

  disconnect_cases :
      (c : Client)
      → Refused c (disconnect_prepare b c) ⊎ Accepts disconnects c (disconnect_prepare b c)
  unfolding disconnect_prepare
  disconnect_cases c = guard_cases c (not c.session.connected) not_connected refl refl λ connected.
      guard_cases c (not (is_empty c.disconnect_ops)) busy refl refl λ one.
        guard_cases c c.session.disconnecting disconnecting refl refl λ active.
          guard_cases c c.client_state.network_disconnected network_disconnected refl refl λ up.
            guard_cases c (ops_full b c) retry_later refl refl λ room.
              guard_cases c c.locked preparation_locked refl refl λ free.
                guard_cases c (not (b.alloc_room disconnects (length c.disconnect_ops)))
                  out_of_memory refl refl
                  λ alloc. inr (record {
                    given = refl;
                    succeeds = refl;
                    registered = refl;
                    locks = refl;
                    next_id = refl;
                    quiet = refl;
                    was_connected = from_not _ connected;
                    was_active = active;
                    was_unlocked = free;
                    had_room = room;
                  })

  subscribe_cases :
      (c : Client)
      → Refused c (subscribe_prepare b c) ⊎ Accepts subscribes c (subscribe_prepare b c)
  unfolding subscribe_prepare add_subscribe
  subscribe_cases c = guard_cases c (not c.session.connected) not_connected refl refl λ connected.
      guard_cases c c.session.disconnecting disconnecting refl refl λ active.
        guard_cases c c.client_state.network_disconnected network_disconnected refl refl λ up.
          guard_cases c (ops_full b c) retry_later refl refl λ room.
            guard_cases c c.locked preparation_locked refl refl λ free.
              guard_cases c (not (b.alloc_room subscribes (length c.subscribe_ops))) out_of_memory
                refl refl
                λ alloc. inr (record {
                  given = refl;
                  succeeds = refl;
                  registered = refl;
                  locks = refl;
                  next_id = refl;
                  quiet = refl;
                  was_connected = from_not _ connected;
                  was_active = active;
                  was_unlocked = free;
                  had_room = room;
                })

  unsubscribe_cases :
      (c : Client)
      → Refused c (unsubscribe_prepare b c) ⊎ Accepts unsubscribes c (unsubscribe_prepare b c)
  unfolding unsubscribe_prepare add_unsubscribe
  unsubscribe_cases c = guard_cases c (not c.session.connected) not_connected refl refl λ connected.
      guard_cases c c.session.disconnecting disconnecting refl refl λ active.
        guard_cases c c.client_state.network_disconnected network_disconnected refl refl λ up.
          guard_cases c (ops_full b c) retry_later refl refl λ room.
            guard_cases c c.locked preparation_locked refl refl λ free.
              guard_cases c (not (b.alloc_room unsubscribes (length c.unsubscribe_ops)))
                out_of_memory refl refl
                λ alloc. inr (record {
                  given = refl;
                  succeeds = refl;
                  registered = refl;
                  locks = refl;
                  next_id = refl;
                  quiet = refl;
                  was_connected = from_not _ connected;
                  was_active = active;
                  was_unlocked = free;
                  had_room = room;
                })

  publish_cases :
      (c : Client) → Refused c (publish_prepare b c) ⊎ Accepts sends c (publish_prepare b c)
  unfolding publish_prepare add_send
  publish_cases c = guard_cases c (not c.session.connected) not_connected refl refl λ connected.
      guard_cases c c.session.disconnecting disconnecting refl refl λ active.
        guard_cases c c.client_state.network_disconnected network_disconnected refl refl λ up.
          guard_cases c (ops_full b c) retry_later refl refl λ room.
            guard_cases c (not (b.alloc_room sends (length c.send_ops))) out_of_memory refl refl
              λ alloc. guard_cases _ c.locked preparation_locked refl refl λ free. inr (record {
                given = refl;
                succeeds = refl;
                registered = refl;
                locks = refl;
                next_id = refl;
                quiet = refl;
                was_connected = from_not _ connected;
                was_active = active;
                was_unlocked = free;
                had_room = room;
              })

  -- Every call that prepares a disconnect, a subscribe, an unsubscribe or a publish either is
  -- refused, and then gives no operation and leaves the client as it was but for the storage of
  -- timers; or it succeeds, and then gives a new operation, registers it last, locks the
  -- preparation and shows the application nothing, and the client was connected, not
  -- disconnecting, not locked and with room for one more operation.
  pub prepare_lem :
      (call : PrepareCall) (c : Client)
      → Refused c (prepare call c) ⊎ Accepts (call_type call) c (prepare call c)
  prepare_lem disconnect_call c = disconnect_cases c
  prepare_lem subscribe_call c = subscribe_cases c
  prepare_lem unsubscribe_call c = unsubscribe_cases c
  prepare_lem publish_call c = publish_cases c

  -- When one of the calls that prepare a disconnect, a subscribe, an unsubscribe or a publish has
  -- succeeded, each of them that follows straight after is refused.
  pub prepare-exclusive :
      (first second : PrepareCall) (c : Client)
      → is_success (prepare first c).2 ≡ true
      → Refused (prepare first c).0 (prepare second (prepare first c).0)
  prepare-exclusive first second c h = elim (prepare_lem first c) [
    | inl r ↦ cc (r.fails, h)
    | inr a ↦ elim (prepare_lem second (prepare first c).0) [
      | inl r ↦ r
      | inr a' ↦ cc (a.locks, a'.was_unlocked)
    ]
  ]
