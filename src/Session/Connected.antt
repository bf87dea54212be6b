-- ===== src/Session/Connected.antt =====
-- `ClientImpl::brokerConnected` and `createKeepAliveOpIfNeeded`.
pub mod Suffix
use cc_mqtt311_libs.Base.{
  ℕ, zero, suc, ◌+◌, Bool, true, false, not, Option, none, some, List, [], ◌∷◌, ◌++◌, ltb, leb,
  if◌then◌else◌, get_elem?, length, is_empty,
}
use cc_mqtt311_libs.Timers.{alloc_timer}
use cc_mqtt311_libs.Config.{timers_limit, ops_limit, list_max_size}
use cc_mqtt311_libs.Client.{
  Client, Build, OpType, OpPtr, SendOp, RecvOp, KeepAliveOp, keeps_alive, receives, sends, aborted,
  uses_destroyed, overflows_ops,
}
use cc_mqtt311_libs.Client.Output.{emit, restart_ping_timer}
use cc_mqtt311_libs.Client.Sends.{resume_since}
use cc_mqtt311_libs.Client.Broker.{terminate_op}
use cc_mqtt311_libs.Ops.Send.{post_reconnection_resend}
use cc_mqtt311_libs.Ops.Recv.{post_reconnection_resume}

abbrev pub mark_connected : Client → Client
mark_connected c = record c {
  client_state = record client_state { first_connect = false };
  session = record session { connected = true };
}
  where
    open c use {client_state, session}

-- `resumeFromIdx`: where the paused publishes at the end of the list begin.
unfoldable pub paused_suffix : List SendOp → ℕ
paused_suffix [] = 0
paused_suffix (op ∷ rest) =
    let from = paused_suffix rest in
    if ltb 0 from then suc from else if op.paused then 0 else suc from

abbrev pub is_transfer : OpType → Bool
is_transfer sends = true
is_transfer receives = true
is_transfer _ = false

module _ (b : Build) where
  abbrev pub timers_max_size : ℕ
  timers_max_size = list_max_size b.cfg (timers_limit b.cfg) true

  abbrev pub new_timer : Client → Client × ℕ
  new_timer c =
      let (m, idx) = alloc_timer timers_max_size c.timer_mgr in (record c { timer_mgr = m }, idx)

  abbrev pub ops_max_size : ℕ
  ops_max_size = list_max_size b.cfg (ops_limit b.cfg) true

  abbrev pub ops_full : Client → Bool
  ops_full c = leb ops_max_size (length c.ops)

  -- `m_ops.push_back` with no test for room before it.
  abbrev pub push_op : OpPtr → Client → Client
  push_op p c = record c {
    ops = c.ops ++ some p ∷ [];
    trace = if ops_full c then overflows_ops ∷ c.trace else c.trace;
  }

  -- The constructor of KeepAliveOp allocates the three timers and starts the first.
  unfoldable pub create_keep_alive_op_if_needed : Client → Client
  create_keep_alive_op_if_needed c =
      let (c1, ping) = new_timer c in
      let (c2, recv) = new_timer c1 in
      let (c3, resp) = new_timer c2 in
      let op : KeepAliveOp = record {
        id = c.next_op;
        ping_timer = ping;
        recv_timer = recv;
        resp_timer = resp;
      } in
      let c4 = restart_ping_timer op c3 in
      if not (is_empty c.keep_alive_ops)
      then c
      else if not (b.alloc_room keeps_alive 0)
      then c
      else record (push_op (record { op_type = keeps_alive; id = op.id }) c4) {
        keep_alive_ops = op ∷ [];
        next_op = c.next_op + 1;
      }

  -- The loop over `m_sendOps` to the end that it had at first. If an operation completes under the
  -- loop the list is shorter, and the loop reads what it should not.
  unfoldable pub resend_from : ℕ → ℕ → Client → Client
  resend_from zero idx c = c
  resend_from (suc count) idx c = elim (get_elem? c.send_ops idx) [
    | none ↦ emit uses_destroyed c
    | some op ↦ resend_from count (idx + 1) (post_reconnection_resend b op c)
  ]

  unfoldable pub resume_recvs : List RecvOp → Client → Client
  resume_recvs [] c = c
  resume_recvs (op ∷ rest) c = resume_recvs rest (post_reconnection_resume b op c)

  -- `op->type()` reads the operation, so a null entry is a fault here.
  unfoldable pub abort_entry : Option (Option OpPtr) → Client → Client
  abort_entry none c = c
  abort_entry (some none) c = emit uses_destroyed c
  abort_entry (some (some p)) c =
      if not (is_transfer p.op_type) then c else terminate_op b p aborted c

  unfoldable pub abort_from : ℕ → ℕ → Client → Client
  abort_from zero idx c = c
  abort_from (suc count) idx c = abort_from count (idx + 1) (abort_entry (get_elem? c.ops idx) c)

  abbrev pub resume_suffix : Client → Client
  resume_suffix c =
      if ltb (paused_suffix c.send_ops) (length c.send_ops)
      then resume_since b (paused_suffix c.send_ops) c
      else c

  abbrev pub restore_session : Client → Client
  restore_session c =
      let c1 = resend_from (length c.send_ops) 0 c in resume_suffix (resume_recvs c1.recv_ops c1)

  unfoldable pub broker_connected : Bool → Client → Client
  broker_connected session_present c =
      let c1 = mark_connected c in
      create_keep_alive_op_if_needed
        (if session_present then restore_session c1 else abort_from (length c1.ops) 0 c1)
