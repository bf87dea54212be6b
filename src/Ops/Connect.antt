-- ===== src/Ops/Connect.antt =====
-- client/lib/src/op/ConnectOp.cpp: the configuration of a connection, and the broker's answer.
use cc_mqtt311_libs.Base.{
  ℕ, ◌*◌, Bool, true, false, not, ◌&&◌, Option, none, some, [], ltb, leb, ◌==◌, if◌then◌else◌,
  length, is_empty, is_some, take, update_if,
}
use cc_mqtt311_libs.State.{Text, initial_session}
use cc_mqtt311_libs.Timers.{is_valid}
use cc_mqtt311_libs.Client.{
  Client, Build, ErrorCode, ConnectOp, ConnectMsg, success, bad_param, internal_error,
  insufficient_config, complete, protocol_error, connect_msg, connects, connect_op_timeout,
}
use cc_mqtt311_libs.Client.Output.{cancel_timer, wait_timer, send_message}
use cc_mqtt311_libs.Client.Registry.{is_connect}
use cc_mqtt311_libs.Client.Sends.{op_complete, is_success}
use cc_mqtt311_libs.Client.Broker.{complete_connect}
use cc_mqtt311_libs.Ops.Send.{max_string_len}
use cc_mqtt311_libs.Session.Connected.{broker_connected}

-- `CC_Mqtt311ConnectConfig`; a null pointer is `none`.
pub record ConnectConfig : Type 0 where
  pub client_id : Option Text
  pub username : Option Text
  pub password : Option Text
  pub password_len : ℕ
  pub keep_alive : ℕ
  pub clean_session : Bool

-- `CC_Mqtt311ConnectWillConfig`
pub record WillConfig : Type 0 where
  pub topic : Option Text
  pub content : Option Text
  pub content_len : ℕ
  pub qos : ℕ
  pub retain : Bool

abbrev pub text_or : Text → Option Text → Text
text_or d none = d
text_or d (some t) = t

abbrev pub stored_or : (Text → Text) → Text → Option Text → Text
stored_or field d none = d
stored_or field d (some t) = field t

-- The fields in the order in which `config` writes them.
abbrev pub with_client_id : Build → ConnectConfig → ConnectMsg → ConnectMsg
with_client_id b config m = record m { client_id = stored_or b.text_field [] config.client_id }

abbrev pub with_username : Build → ConnectConfig → ConnectMsg → ConnectMsg
with_username b config m = record m {
  has_username = is_some config.username;
  username = stored_or b.text_field m.username config.username;
}

abbrev pub with_password : Build → ConnectConfig → ConnectMsg → ConnectMsg
with_password b config m = record m {
  has_password = ltb 0 config.password_len;
  password =
      if ltb 0 config.password_len
      then b.data_field (take config.password_len (text_or [] config.password))
      else m.password;
}

abbrev pub with_will_topic : Build → Text → ConnectMsg → ConnectMsg
with_will_topic b topic m = record m { will_topic = b.topic_field topic }

abbrev pub with_will_data : Build → WillConfig → ConnectMsg → ConnectMsg
with_will_data b config m = record m {
  will_data =
      if ltb 0 config.content_len
      then b.data_field (take config.content_len (text_or [] config.content))
      else m.will_data;
}

-- The condition that `config` and `send` share.
abbrev pub needs_clean_session : Bool → Client → Bool
needs_clean_session clean_session c =
    not clean_session && c.client_state.first_connect && c.config.verify_sub_filter

-- How the answer of the broker is classified, before anything is changed.
pub data Connack : Type 0 where
  bad_code session_clash : Connack
  refused accepted : Bool → Connack

module _ (b : Build) where
  config_texts : ConnectConfig → ConnectMsg → ConnectMsg × ErrorCode
  config_texts config m =
      let m1 = with_client_id b config m in
      let m2 = with_username b config m1 in
      let m3 = with_password b config m2 in
      let m4 : ConnectMsg = record m3 { clean_session = config.clean_session } in
      if ltb max_string_len (length m1.client_id)
      then (record m1 { client_id = [] }, bad_param)
      else if is_empty m1.client_id && not config.clean_session
      then (m1, bad_param)
      else if ltb max_string_len (length m2.username)
      then (record m2 { username = [] }, bad_param)
      else if ltb max_string_len (length m3.password)
      then (record m3 { password = [] }, bad_param)
      else if ltb b.keep_alive_max config.keep_alive
      then (m4, bad_param)
      else (record m4 { keep_alive = config.keep_alive }, success)

  unfoldable pub config_connect : ConnectConfig → ConnectMsg → Client → ConnectMsg × ErrorCode
  unfolding config_texts
  config_connect config m c =
      if ltb 0 config.password_len && not (is_some config.password)
      then (m, bad_param)
      else if ltb 0 config.password_len && not (is_some config.username)
      then (m, bad_param)
      else if needs_clean_session config.clean_session c
      then (m, bad_param)
      else if config.keep_alive == 0
      then (m, bad_param)
      else config_texts config m

  unfoldable pub config_will : WillConfig → ConnectMsg → ConnectMsg × ErrorCode
  config_will config m =
      let topic = text_or [] config.topic in
      let m1 = with_will_topic b topic m in
      let m2 = with_will_data b config m1 in
      if ltb 0 config.content_len && not (is_some config.content)
      then (m, bad_param)
      else if is_empty topic
      then (m, bad_param)
      else if ltb b.cfg.max_qos config.qos
      then (m, bad_param)
      else if ltb max_string_len (length m1.will_topic)
      then (record m1 { will_topic = [] }, bad_param)
      else if ltb max_string_len (length m2.will_data)
      then (record m2 { will_data = [] }, bad_param)
      else (
        record m2 { will_qos = config.qos; will_retain = config.retain; will_flag = true },
        success,
      )

  abbrev pub drop_connect : ConnectOp → Client → Client
  drop_connect op c = op_complete b (record { op_type = connects; id = op.id }) c

  -- `guarded` enters and leaves the scope of `apiEnter`.
  abbrev pub connect_sent :
      ((Client → Client) → Client → Client) → ConnectOp → Client × ErrorCode → Client × ErrorCode
  connect_sent guarded op (c, ec) = if not (is_success ec) then (drop_connect op c, ec) else (
    guarded (wait_timer op.timer op.response_timeout_ms (connect_op_timeout op.id)) c,
    success,
  )

  unfoldable pub send_connect :
      ((Client → Client) → Client → Client) → Bool → ConnectOp → Client → Client × ErrorCode
  send_connect guarded has_cb op c =
      let c1 : Client = record c { locked = false } in
      let c2 : Client = record c1 {
        connect_ops = update_if (is_connect op.id) (λ o. record o { has_cb = true }) c1.connect_ops;
      } in
      if not has_cb
      then (drop_connect op c1, bad_param)
      else if not (is_valid op.timer)
      then (drop_connect op c1, internal_error)
      else if needs_clean_session op.msg.clean_session c1
      then (drop_connect op c1, insufficient_config)
      else connect_sent guarded op (send_message b (connect_msg op.msg) c2)

  unfoldable pub cancel_connect : ConnectOp → Client → Client
  cancel_connect op c = drop_connect op (if op.has_cb then c else record c { locked = false })

  unfoldable pub classify_connack : ConnectMsg → ℕ → Bool → Connack
  classify_connack m code session_present =
      if leb b.connack_codes_limit code
      then bad_code
      else if session_present && m.clean_session
      then session_clash
      else if not (code == 0)
      then refused session_present
      else accepted session_present

  abbrev pub forget_filters : Bool → Client → Client
  forget_filters session_present c =
      if session_present then c else record c { reuse = record { sub_filters = [] } }

  abbrev pub note_keep_alive : ℕ → Client → Client
  note_keep_alive seconds c = record c {
    session = record session { keep_alive_ms = seconds * 1000 };
  }
    where
      open c use {session}

  abbrev pub act_connack : ConnectOp → ℕ → Connack → Client → Client
  act_connack op code bad_code c = complete_connect b op.id protocol_error none c
  act_connack op code session_clash c = complete_connect b op.id protocol_error none c
  act_connack op code (refused session_present) c =
      complete_connect b op.id complete
        (some (record { return_code = code; session_present = session_present }))
        (record c { session = initial_session })
  act_connack op code (accepted session_present) c =
      complete_connect b op.id complete
        (some (record { return_code = code; session_present = session_present }))
        (broker_connected b session_present
          (note_keep_alive op.msg.keep_alive (forget_filters session_present c)))

  -- `handle(ConnackMsg&)`
  unfoldable pub handle_connack : ConnectOp → ℕ → Bool → Client → Client
  unfolding classify_connack
  handle_connack op code session_present c =
      act_connack op code (classify_connack op.msg code session_present) (cancel_timer op.timer c)
