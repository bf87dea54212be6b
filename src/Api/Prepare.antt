-- ===== src/Api/Prepare.antt =====
-- The calls of client/lib/src/ClientImpl.cpp that prepare an operation of a connected client;
-- `connectPrepare` is in Api/Connect.
pub mod Exclusive
use cc_mqtt311_libs.Base.{
  ℕ, ◌+◌, Bool, true, false, not, Option, none, some, [], ◌∷◌, ◌++◌, leb, if◌then◌else◌, length,
  is_empty,
}
use cc_mqtt311_libs.Config.{ops_limit, list_max_size}
use cc_mqtt311_libs.Client.{
  Client, Build, ErrorCode, OpType, SubscribeOp, UnsubscribeOp, SendOp, PublishMsg, success, busy,
  not_connected, out_of_memory, retry_later, disconnecting, network_disconnected,
  preparation_locked, disconnects, subscribes, unsubscribes, sends,
}
use cc_mqtt311_libs.Client.Registry.{free_op_timer}
use cc_mqtt311_libs.Session.Connected.{new_timer, ops_full}

-- What a prepare call gives: the operation, and the error code.
abbrev pub Prepared : Type 0
Prepared = Client × Option ℕ × ErrorCode

abbrev pub refuse : ErrorCode → Client → Prepared
refuse ec c = (c, none, ec)

-- `m_preparationLocked = true; m_ops.push_back(...)`
abbrev pub register : OpType → ℕ → Client → Client
register t id c = record c {
  locked = true;
  ops = c.ops ++ some (record { op_type = t; id = id }) ∷ [];
  next_op = id + 1;
}

abbrev pub empty_publish : PublishMsg
empty_publish = record {
  qos = 0;
  retain = false;
  dup = false;
  topic = [];
  packet_id = 0;
  has_packet_id = false;
  payload = [];
}

module _ (b : Build) where
  unfoldable pub disconnect_prepare : Client → Prepared
  disconnect_prepare c =
      let c1 = register disconnects c.next_op c in
      if not c.session.connected
      then refuse not_connected c
      else if not (is_empty c.disconnect_ops)
      then refuse busy c
      else if c.session.disconnecting
      then refuse disconnecting c
      else if c.client_state.network_disconnected
      then refuse network_disconnected c
      else if ops_full b c
      then refuse retry_later c
      else if c.locked
      then refuse preparation_locked c
      else if not (b.alloc_room disconnects (length c.disconnect_ops))
      then refuse out_of_memory c
      else (
        record c1 { disconnect_ops = c1.disconnect_ops ++ c.next_op ∷ [] },
        some c.next_op,
        success,
      )

  unfoldable pub add_subscribe : Client → Prepared
  add_subscribe c =
      let (c1, timer) = new_timer b c in
      let op : SubscribeOp = record {
        id = c.next_op;
        timer = timer;
        packet_id = 0;
        topics = [];
        has_cb = false;
        response_timeout_ms = c.config.response_timeout_ms;
      } in
      let c2 = register subscribes op.id c1 in
      (record c2 { subscribe_ops = c2.subscribe_ops ++ op ∷ [] }, some op.id, success)

  unfoldable pub subscribe_prepare : Client → Prepared
  unfolding add_subscribe
  subscribe_prepare c =
      if not c.session.connected
      then refuse not_connected c
      else if c.session.disconnecting
      then refuse disconnecting c
      else if c.client_state.network_disconnected
      then refuse network_disconnected c
      else if ops_full b c
      then refuse retry_later c
      else if c.locked
      then refuse preparation_locked c
      else if not (b.alloc_room subscribes (length c.subscribe_ops))
      then refuse out_of_memory c
      else add_subscribe c

  unfoldable pub add_unsubscribe : Client → Prepared
  add_unsubscribe c =
      let (c1, timer) = new_timer b c in
      let op : UnsubscribeOp = record {
        id = c.next_op;
        timer = timer;
        packet_id = 0;
        topics = [];
        has_cb = false;
        response_timeout_ms = c.config.response_timeout_ms;
      } in
      let c2 = register unsubscribes op.id c1 in
      (record c2 { unsubscribe_ops = c2.unsubscribe_ops ++ op ∷ [] }, some op.id, success)

  unfoldable pub unsubscribe_prepare : Client → Prepared
  unfolding add_unsubscribe
  unsubscribe_prepare c =
      if not c.session.connected
      then refuse not_connected c
      else if c.session.disconnecting
      then refuse disconnecting c
      else if c.client_state.network_disconnected
      then refuse network_disconnected c
      else if ops_full b c
      then refuse retry_later c
      else if c.locked
      then refuse preparation_locked c
      else if not (b.alloc_room unsubscribes (length c.unsubscribe_ops))
      then refuse out_of_memory c
      else add_unsubscribe c

  abbrev pub fresh_send : Client → ℕ → SendOp
  fresh_send c timer = record {
    id = c.next_op;
    timer = timer;
    pub_msg = empty_publish;
    has_cb = false;
    total_send_attempts = 2;
    send_attempts = 0;
    published = false;
    acked = false;
    paused = false;
  }

  unfoldable pub add_send : ℕ → Client → Prepared
  add_send timer c =
      let c1 = register sends c.next_op c in
      (record c1 { send_ops = c1.send_ops ++ fresh_send c timer ∷ [] }, some c.next_op, success)

  -- The operation is made before the test of the lock, and dropped again if that fails.
  unfoldable pub publish_prepare : Client → Prepared
  unfolding add_send
  publish_prepare c =
      let (c1, timer) = new_timer b c in
      if not c.session.connected
      then refuse not_connected c
      else if c.session.disconnecting
      then refuse disconnecting c
      else if c.client_state.network_disconnected
      then refuse network_disconnected c
      else if ops_full b c
      then refuse retry_later c
      else if not (b.alloc_room sends (length c.send_ops))
      then refuse out_of_memory c
      else if c.locked
      then refuse preparation_locked (free_op_timer timer c1)
      else add_send timer c1
