-- ===== src/Client/Sends.antt =====
-- Sending and completing publishes: the part of SendOp.cpp and ClientImpl.cpp that calls itself
-- around, `resumeSendOpsSince` → `resume` → `doSendInternal` → `completeWithCb` → `opComplete` →
-- `resumeSendOpsSince`. The functions in the middle take the last one as the argument `again`.
pub mod Order
pub mod Lists
pub mod Settles
pub mod Attempts
pub mod Fuel
use cc_mqtt311_libs.Base.{
  ℕ, zero, suc, ◌+◌, ◌*◌, Bool, true, false, not, ◌||◌, none, some, List, [], ◌∷◌, ltb, ◌==◌,
  if◌then◌else◌, find_if, find_index, get_elem?, length,
}
use cc_mqtt311_libs.State.{same_qos, full}
use cc_mqtt311_libs.Client.{
  Client, Build, ErrorCode, AsyncOpStatus, OpPtr, OpType, SendOp, connects, keeps_alive,
  disconnects, subscribes, unsubscribes, receives, sends, success, internal_error, bad_param,
  buffer_overflow, complete, failed_internally, bad_value, no_memory, publish_msg,
  publish_completes, uses_destroyed, out_of_fuel, send_op_timeout,
}
use cc_mqtt311_libs.Client.Output.{emit, wait_timer, send_message}
use cc_mqtt311_libs.Client.Registry.{
  is_send, points_to, nullify, update_send, erase_connect, erase_keep_alive, erase_disconnect,
  erase_subscribe, erase_unsubscribe, erase_recv, erase_send,
}

-- `resumeSendOpsSince` at an index.
abbrev pub Resume : Type 0
Resume = ℕ → Client → Client

-- `opComplete_Send`
unfoldable pub op_complete_send : Resume → ℕ → Client → Client
op_complete_send again id c =
    let idx = find_index (is_send id) c.send_ops in
    let c' = erase_send id c in if c.session.disconnecting then c' else again idx c'

-- The table `Map` of `opComplete`.
unfoldable pub op_complete_by_type : Resume → OpType → ℕ → Client → Client
unfolding op_complete_send
op_complete_by_type again connects id c = erase_connect id c
op_complete_by_type again keeps_alive id c = erase_keep_alive id c
op_complete_by_type again disconnects id c = erase_disconnect id c
op_complete_by_type again subscribes id c = erase_subscribe id c
op_complete_by_type again unsubscribes id c = erase_unsubscribe id c
op_complete_by_type again receives id c = erase_recv id c
op_complete_by_type again sends id c = op_complete_send again id c

unfoldable pub op_complete_with : Resume → OpPtr → Client → Client
op_complete_with again p c = elim (find_if (points_to p.id) c.ops) [
  | none ↦ c
  | some _ ↦
      op_complete_by_type again p.op_type p.id
        (record c { ops = nullify p.id c.ops; ops_deleted = true })
]

abbrev pub send_ptr : ℕ → OpPtr
send_ptr id = record { op_type = sends; id = id }

abbrev pub report_publish : Bool → ℕ → AsyncOpStatus → Client → Client
report_publish has_cb id status c = if has_cb then emit (publish_completes id status) c else c

-- `SendOp::completeWithCb`; on an operation that is no more it would read freed memory.
unfoldable pub complete_send_with : Resume → ℕ → AsyncOpStatus → Client → Client
complete_send_with again id status c = elim (find_if (is_send id) c.send_ops) [
  | none ↦ emit uses_destroyed c
  | some op ↦ report_publish op.has_cb id status (op_complete_with again (send_ptr id) c)
]

unfoldable pub restart_send_timer : SendOp → Client → Client
restart_send_timer op c = wait_timer op.timer c.config.response_timeout_ms (send_op_timeout op.id) c

abbrev pub is_success : ErrorCode → Bool
is_success success = true
is_success _ = false

abbrev pub count_attempt : SendOp → SendOp
count_attempt op = record op { send_attempts = op.send_attempts + 1 }

abbrev pub first_attempt : SendOp → SendOp
first_attempt op = record op { send_attempts = 1; published = true }

abbrev pub no_attempts : SendOp → SendOp
no_attempts op = record op { send_attempts = 0 }

abbrev pub unpause : SendOp → SendOp
unpause op = record op { paused = false }

abbrev pub after_send : Resume → SendOp → Client × ErrorCode → Client × ErrorCode
after_send again op (c, ec) =
    let sent = update_send op.id first_attempt c in
    if not (is_success ec)
    then (c, ec)
    else if op.pub_msg.qos == 0
    then (complete_send_with again op.id complete sent, success)
    else (restart_send_timer op sent, success)

-- `has...Before` and `canSend` of ClientImpl.cpp and SendOp.cpp.
abbrev pub paused_at : List SendOp → ℕ → Bool
paused_at xs zero = false
paused_at xs (suc before) = elim (get_elem? xs before) [ none ↦ false | some op ↦ op.paused ]

unfoldable pub has_paused_sends_before : ℕ → Client → Bool
has_paused_sends_before id c =
    let idx = find_index (is_send id) c.send_ops in
    if ltb idx (length c.send_ops) then paused_at c.send_ops idx else false

unfoldable pub higher_qos_before : ℕ → ℕ → List SendOp → Bool
higher_qos_before id qos [] = false
higher_qos_before id qos (op ∷ rest) =
    if op.id == id
    then false
    else if ltb qos op.pub_msg.qos
    then true
    else higher_qos_before id qos rest

unfoldable pub can_send : SendOp → Client → Bool
unfolding has_paused_sends_before higher_qos_before
can_send op c = elim c.config.publish_ordering [
  | same_qos ↦ true
  | full ↦
      not (has_paused_sends_before op.id c || higher_qos_before op.id op.pub_msg.qos c.send_ops)
]

-- The status that `resume` reports for an error.
abbrev pub resume_status : ErrorCode → AsyncOpStatus
resume_status bad_param = bad_value
resume_status buffer_overflow = no_memory
resume_status _ = failed_internally

abbrev pub after_resume : Resume → ℕ → Client × ErrorCode → Client
after_resume again id (c, ec) =
    if is_success ec then c else complete_send_with again id (resume_status ec) c

module _ (b : Build) where
  unfoldable pub do_send_internal : Resume → ℕ → Client → Client × ErrorCode
  do_send_internal again id c = elim (find_if (is_send id) c.send_ops) [
    | none ↦ (emit uses_destroyed c, internal_error)
    | some op ↦
        after_send again op (send_message b (publish_msg op.pub_msg) (update_send id no_attempts c))
  ]

  -- `SendOp::resume`, with its result.
  unfoldable pub resume_op : Resume → ℕ → Client → Client × Bool
  resume_op again id c = elim (find_if (is_send id) c.send_ops) [
    | none ↦ (emit uses_destroyed c, false)
    | some op ↦
        if not op.paused
        then (c, false)
        else if not (can_send op c)
        then (c, false)
        else (after_resume again id (do_send_internal again id (update_send id unpause c)), true)
  ]

  abbrev pub go_on : Resume → ℕ → Client × Bool → Client
  go_on again idx (c, resumed) = if resumed then again idx c else c

  unfoldable pub resume_send_ops_since : ℕ → Resume
  resume_send_ops_since zero idx c = emit out_of_fuel c
  resume_send_ops_since (suc fuel) idx c = elim (get_elem? c.send_ops idx) [
    | none ↦ c
    | some op ↦ elim op.paused [
      | false ↦ resume_send_ops_since fuel (idx + 1) c
      | true ↦
          go_on (resume_send_ops_since fuel) idx (resume_op (resume_send_ops_since fuel) op.id c)
    ]
  ]

  -- Each round passes one publish by, or takes it from paused to sent.
  abbrev pub resume_fuel : Client → ℕ
  resume_fuel c = 2 * length c.send_ops + 1

  unfoldable pub resume_since : Resume
  resume_since idx c = resume_send_ops_since (resume_fuel c) idx c

  unfoldable pub op_complete : OpPtr → Client → Client
  op_complete p c = op_complete_with resume_since p c

  unfoldable pub complete_send : ℕ → AsyncOpStatus → Client → Client
  complete_send id status c = complete_send_with resume_since id status c
