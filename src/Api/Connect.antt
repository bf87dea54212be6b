-- ===== src/Api/Connect.antt =====
-- `connectPrepare` and `initInternal` of client/lib/src/ClientImpl.cpp.
use cc_mqtt311_libs.Base.{
  ℕ, Bool, true, false, not, ◌&&◌, ◌||◌, some, [], ◌∷◌, ◌++◌, ltb, if◌then◌else◌, length, is_empty,
}
use cc_mqtt311_libs.State.{initial_session}
use cc_mqtt311_libs.Client.{
  Client, Build, ErrorCode, ConnectOp, ConnectMsg, Callbacks, success, not_initialized, busy,
  already_connected, out_of_memory, retry_later, disconnecting, preparation_locked, connects,
  aborted,
}
use cc_mqtt311_libs.Client.Sends.{is_success}
use cc_mqtt311_libs.Client.Broker.{terminate_ops, keep_send_recv}
use cc_mqtt311_libs.Session.Connected.{new_timer, ops_full}
use cc_mqtt311_libs.Api.Loop.{guarded}
use cc_mqtt311_libs.Api.Prepare.{Prepared, refuse, register}

abbrev pub empty_connect : ConnectMsg
empty_connect = record {
  client_id = [];
  clean_session = false;
  keep_alive = 0;
  has_username = false;
  username = [];
  has_password = false;
  password = [];
  will_flag = false;
  will_topic = [];
  will_data = [];
  will_qos = 0;
  will_retain = false;
}

-- `initInternal` in its scope.
abbrev pub has_callbacks : Callbacks → Bool
has_callbacks s = s.sends_data && s.reports_disconnect && s.reports_message

abbrev pub clears_flag : Client → Client
clears_flag c = record c { client_state = record client_state { network_disconnected = false } }
  where
    open c use {client_state}

abbrev pub mark_initialized : Client → Client
mark_initialized c = record c {
  session = initial_session;
  client_state = record client_state { initialized = true };
}
  where
    open c use {client_state}

module _ (b : Build) where
  unfoldable pub init_body : Client → Client × ErrorCode
  init_body c =
      if not (has_callbacks c.callbacks)
      then (c, not_initialized)
      else if (c.callbacks.next_tick || c.callbacks.cancel_tick)
          && not (c.callbacks.next_tick && c.callbacks.cancel_tick)
      then (c, not_initialized)
      else (mark_initialized (terminate_ops b aborted keep_send_recv c), success)

  unfoldable pub init_internal : ℕ → Client → Client × ErrorCode
  init_internal elapsed c = guarded b elapsed (init_body) c

  unfoldable pub add_connect : Client → Prepared
  add_connect c =
      let (c1, timer) = new_timer b c in
      let op : ConnectOp = record {
        id = c.next_op;
        timer = timer;
        msg = empty_connect;
        has_cb = false;
        response_timeout_ms = c.config.response_timeout_ms;
      } in
      let c2 = register connects op.id c1 in
      (record c2 { connect_ops = c2.connect_ops ++ op ∷ [] }, some op.id, success)

  -- `connectPrepare` behind the initialisation.
  unfoldable pub connect_prepare_initialized : Client → Prepared
  connect_prepare_initialized c =
      if not (is_empty c.connect_ops)
      then refuse busy c
      else if c.session.disconnecting
      then refuse disconnecting c
      else if c.session.connected
      then refuse already_connected c
      else if ops_full b c
      then refuse retry_later c
      else if c.locked
      then refuse preparation_locked c
      else if not (b.alloc_room connects (length c.connect_ops))
      then refuse out_of_memory c
      else add_connect c

  abbrev pub prepare_if : Client × ErrorCode → Prepared
  prepare_if (c, ec) = if is_success ec then connect_prepare_initialized c else refuse ec c

  unfoldable pub connect_prepare : ℕ → Client → Prepared
  unfolding connect_prepare_initialized
  connect_prepare elapsed c =
      let c1 = clears_flag c in
      if c.client_state.initialized
      then connect_prepare_initialized c1
      else if ltb 0 c.api_enter_count
      then refuse retry_later c1
      else prepare_if (init_internal elapsed c1)
