-- ===== src/Client.antt =====
-- The state of client/lib/src/ClientImpl.h: the operations in progress (client/lib/src/op/*.h), the
-- messages, the callbacks to the application, and what the build and the serialisation library fix.
pub mod Output
pub mod Registry
pub mod Sends
pub mod Broker
use cc_mqtt311_libs.Base.{ℕ, Bool, true, false, Option, none, List, [], ◌∷◌}
use cc_mqtt311_libs.Timers.{TimerMgr, empty_mgr}
use cc_mqtt311_libs.Config.{Config}
use cc_mqtt311_libs.State.{
  Text, ConfigState, ClientState, SessionState, ReuseState, initial_client_state, initial_session,
}

pub data ErrorCode : Type 0 where
  success internal_error not_initialized busy not_connected already_connected bad_param
        insufficient_config out_of_memory buffer_overflow not_supported retry_later disconnecting
        network_disconnected preparation_locked :
      ErrorCode

pub data AsyncOpStatus : Type 0 where
  complete failed_internally timeout protocol_error aborted broker_disconnected no_memory
        bad_value :
      AsyncOpStatus

pub data DisconnectReason : Type 0 where
  no_broker_response internal_fault protocol_violation : DisconnectReason

-- `Op::Type`
pub data OpType : Type 0 where
  connects keeps_alive disconnects subscribes unsubscribes receives sends : OpType

-- An entry of `m_ops`: a pointer to an operation, with the type that its virtual method gives.
pub record OpPtr : Type 0 where
  pub op_type : OpType
  pub id : ℕ

pub record PublishMsg : Type 0 where
  pub qos : ℕ
  pub retain : Bool
  pub dup : Bool
  pub topic : Text
  pub packet_id : ℕ
  pub has_packet_id : Bool
  pub payload : Text

pub record ConnectMsg : Type 0 where
  pub client_id : Text
  pub clean_session : Bool
  pub keep_alive : ℕ
  pub has_username : Bool
  pub username : Text
  pub has_password : Bool
  pub password : Text
  pub will_flag : Bool
  pub will_topic : Text
  pub will_data : Text
  pub will_qos : ℕ
  pub will_retain : Bool

-- The messages that the client sends.
pub data Msg : Type 0 where
  connect_msg : ConnectMsg → Msg
  publish_msg : PublishMsg → Msg
  puback_msg pubrec_msg pubrel_msg pubcomp_msg : ℕ → Msg
  subscribe_msg : ℕ → List (Text × ℕ) → Msg
  unsubscribe_msg : ℕ → List Text → Msg
  pingreq_msg disconnect_msg : Msg

-- The static timeout functions of the operations, with the operation that they are given.
pub data TimerCb : Type 0 where
  connect_op_timeout subscribe_op_timeout unsubscribe_op_timeout send_op_timeout recv_op_timeout
        keep_alive_ping keep_alive_recv keep_alive_resp :
      ℕ → TimerCb

pub record MessageInfo : Type 0 where
  pub topic : Text
  pub content : Text
  pub qos : ℕ
  pub retained : Bool

pub record ConnectResponse : Type 0 where
  pub return_code : ℕ
  pub session_present : Bool

-- What the application sees, in the order of the calls of its callbacks. `uses_destroyed` marks a
-- step at which the program reads an operation through a pointer that is null or dangling, and
-- `overflows_ops` one at which it appends to `m_ops` where that is a full vector of fixed storage: what
-- such a vector does then is not defined, and from there on the model is that of a vector with room.
pub data Event : Type 0 where
  sends_output : Msg → Event
  connect_completes : AsyncOpStatus → Option ConnectResponse → Event
  subscribe_completes : ℕ → AsyncOpStatus → Option (List ℕ) → Event
  unsubscribe_completes publish_completes : ℕ → AsyncOpStatus → Event
  broker_disconnects : DisconnectReason → Event
  message_received : MessageInfo → Event
  programs_tick : ℕ → Event
  uses_destroyed out_of_fuel overflows_ops : Event

-- The trace shows an append to a full vector.
abbrev pub has_overflow : List Event → Bool
has_overflow [] = false
has_overflow (overflows_ops ∷ t) = true
has_overflow (_ ∷ t) = has_overflow t

pub record ConnectOp : Type 0 where
  pub id : ℕ
  pub timer : ℕ
  pub msg : ConnectMsg
  pub has_cb : Bool
  pub response_timeout_ms : ℕ

pub record KeepAliveOp : Type 0 where
  pub id : ℕ
  pub ping_timer : ℕ
  pub recv_timer : ℕ
  pub resp_timer : ℕ

pub record SubscribeOp : Type 0 where
  pub id : ℕ
  pub timer : ℕ
  pub packet_id : ℕ
  pub topics : List (Text × ℕ)
  pub has_cb : Bool
  pub response_timeout_ms : ℕ

pub record UnsubscribeOp : Type 0 where
  pub id : ℕ
  pub timer : ℕ
  pub packet_id : ℕ
  pub topics : List Text
  pub has_cb : Bool
  pub response_timeout_ms : ℕ

pub record RecvOp : Type 0 where
  pub id : ℕ
  pub timer : ℕ
  pub packet_id : ℕ

pub record SendOp : Type 0 where
  pub id : ℕ
  pub timer : ℕ
  pub pub_msg : PublishMsg
  pub has_cb : Bool
  pub total_send_attempts : ℕ
  pub send_attempts : ℕ
  pub published : Bool
  pub acked : Bool
  pub paused : Bool

-- Which of the callbacks are set.
pub record Callbacks : Type 0 where
  pub sends_data : Bool
  pub reports_disconnect : Bool
  pub reports_message : Bool
  pub next_tick : Bool
  pub cancel_tick : Bool

-- `trace` holds the events so far, the latest first. `next_op` is the identity of the next object.
pub record Client : Type 0 where
  pub callbacks : Callbacks
  pub config : ConfigState
  pub client_state : ClientState
  pub session : SessionState
  pub reuse : ReuseState
  pub timer_mgr : TimerMgr TimerCb
  pub api_enter_count : ℕ
  pub connect_ops : List ConnectOp
  pub keep_alive_ops : List KeepAliveOp
  pub disconnect_ops : List ℕ
  pub subscribe_ops : List SubscribeOp
  pub unsubscribe_ops : List UnsubscribeOp
  pub recv_ops : List RecvOp
  pub send_ops : List SendOp
  pub ops : List (Option OpPtr)
  pub ops_deleted : Bool
  pub locked : Bool
  pub next_op : ℕ
  pub trace : List Event

-- What is not in this repository: the generated configuration; `frame_length` and `frame_write`
-- of the protocol library's frame (the length of a message, and whether its serialisation
-- succeeds), `publish_refresh` (its `doRefresh`), and the limits of its fields; whether the
-- allocator has room for one more operation of a type beside so many.
-- The last Text → Text are what a field holds once a text is assigned to it: the same text, unless the
-- storage of the field is fixed and too short for it.
pub record Build : Type 0 where
  pub cfg : Config
  pub frame_length : Msg → ℕ
  pub frame_write : Msg → Bool
  pub publish_refresh : PublishMsg → PublishMsg
  pub alloc_room : OpType → ℕ → Bool
  pub sub_topics_max : ℕ
  pub unsub_topics_max : ℕ
  pub return_codes_max : ℕ
  pub text_field : Text → Text
  pub topic_field : Text → Text
  pub data_field : Text → Text
  pub keep_alive_max : ℕ
  pub connack_codes_limit : ℕ

-- `ClientImpl()`
abbrev pub new_client : Callbacks → ConfigState → Client
new_client callbacks config = record {
  callbacks = callbacks;
  config = config;
  client_state = initial_client_state;
  session = initial_session;
  reuse = record { sub_filters = [] };
  timer_mgr = empty_mgr;
  api_enter_count = 0;
  connect_ops = [];
  keep_alive_ops = [];
  disconnect_ops = [];
  subscribe_ops = [];
  unsubscribe_ops = [];
  recv_ops = [];
  send_ops = [];
  ops = [];
  ops_deleted = false;
  locked = false;
  next_op = 0;
  trace = [];
}
