-- ===== src/Client/Registry.antt =====
-- The lists of operations: `m_ops`, and for each type the list that owns its operations
-- (client/lib/src/ClientImpl.cpp). An erased operation is destroyed: its timers are freed, and its
-- packet id is released.
use cc_mqtt311_libs.Base.{
  ℕ, Bool, false, Option, none, some, List, [], ◌∷◌, ◌==◌, if◌then◌else◌, find_if, erase_first,
  update_if, keep_if, is_some,
}
use cc_mqtt311_libs.Timers.{destroy_timer}
use cc_mqtt311_libs.PacketIds.{release_packet_id}
use cc_mqtt311_libs.Client.{
  Client, OpPtr, SendOp, RecvOp, ConnectOp, SubscribeOp, UnsubscribeOp, KeepAliveOp,
}

abbrev pub is_send : ℕ → SendOp → Bool
is_send id op = op.id == id

abbrev pub is_recv : ℕ → RecvOp → Bool
is_recv id op = op.id == id

abbrev pub is_connect : ℕ → ConnectOp → Bool
is_connect id op = op.id == id

abbrev pub is_subscribe : ℕ → SubscribeOp → Bool
is_subscribe id op = op.id == id

abbrev pub is_unsubscribe : ℕ → UnsubscribeOp → Bool
is_unsubscribe id op = op.id == id

abbrev pub is_keep_alive : ℕ → KeepAliveOp → Bool
is_keep_alive id op = op.id == id

abbrev pub points_to : ℕ → Option OpPtr → Bool
points_to id none = false
points_to id (some p) = p.id == id

-- `*iter = nullptr` at the first entry that is this operation.
abbrev pub nullify : ℕ → List (Option OpPtr) → List (Option OpPtr)
nullify id [] = []
nullify id (p ∷ ps) = if points_to id p then none ∷ ps else p ∷ nullify id ps

abbrev pub update_send : ℕ → (SendOp → SendOp) → Client → Client
update_send id f c = record c { send_ops = update_if (is_send id) f c.send_ops }

abbrev pub free_op_timer : ℕ → Client → Client
free_op_timer idx c = record c { timer_mgr = destroy_timer c.timer_mgr idx }

abbrev pub release_id : ℕ → Client → Client
release_id packet_id c = record c { client_state = release_packet_id packet_id c.client_state }

abbrev pub when_found {ℓ} : {A : Type ℓ} → Option A → (A → Client → Client) → Client → Client
when_found none f c = c
when_found (some op) f c = f op c

unfoldable pub erase_connect : ℕ → Client → Client
erase_connect id c =
    when_found (find_if (is_connect id) c.connect_ops) (λ op. free_op_timer op.timer)
      (record c { connect_ops = erase_first (is_connect id) c.connect_ops })

unfoldable pub erase_keep_alive : ℕ → Client → Client
erase_keep_alive id c =
    when_found (find_if (is_keep_alive id) c.keep_alive_ops)
      (λ op c'.
        free_op_timer op.ping_timer (free_op_timer op.recv_timer (free_op_timer op.resp_timer c')))
      (record c { keep_alive_ops = erase_first (is_keep_alive id) c.keep_alive_ops })

unfoldable pub erase_disconnect : ℕ → Client → Client
erase_disconnect id c = record c { disconnect_ops = erase_first (λ op. op == id) c.disconnect_ops }

unfoldable pub erase_subscribe : ℕ → Client → Client
erase_subscribe id c =
    when_found (find_if (is_subscribe id) c.subscribe_ops)
      (λ op c'. free_op_timer op.timer (release_id op.packet_id c'))
      (record c { subscribe_ops = erase_first (is_subscribe id) c.subscribe_ops })

unfoldable pub erase_unsubscribe : ℕ → Client → Client
erase_unsubscribe id c =
    when_found (find_if (is_unsubscribe id) c.unsubscribe_ops)
      (λ op c'. free_op_timer op.timer (release_id op.packet_id c'))
      (record c { unsubscribe_ops = erase_first (is_unsubscribe id) c.unsubscribe_ops })

unfoldable pub erase_recv : ℕ → Client → Client
erase_recv id c =
    when_found (find_if (is_recv id) c.recv_ops) (λ op. free_op_timer op.timer)
      (record c { recv_ops = erase_first (is_recv id) c.recv_ops })

unfoldable pub erase_send : ℕ → Client → Client
erase_send id c =
    when_found (find_if (is_send id) c.send_ops)
      (λ op c'. free_op_timer op.timer (release_id op.pub_msg.packet_id c'))
      (record c { send_ops = erase_first (is_send id) c.send_ops })

abbrev pub is_live : Option OpPtr → Bool
is_live p = is_some p

unfoldable pub clean_ops : Client → Client
clean_ops c =
    if c.ops_deleted then record c { ops = keep_if is_live c.ops; ops_deleted = false } else c
