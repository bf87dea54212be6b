-- ===== src/Api/Interface.antt =====
-- What the functions of client/lib/templ/client.cpp.templ do, with `setPublishOrdering` of
-- ClientImpl.cpp. The handle of an operation that is no more is a use of an object that is destroyed.
use cc_mqtt311_libs.Base.{
  ℕ, Bool, Option, none, some, List, [], ◌∷◌, ◌==◌, if◌then◌else◌, find_if, update_if,
}
use cc_mqtt311_libs.State.{Text, ConfigState}
use cc_mqtt311_libs.Client.{
  Client, Build, ErrorCode, ConnectMsg, ConnectOp, SubscribeOp, UnsubscribeOp, SendOp, success,
  bad_param, not_supported, internal_error, uses_destroyed,
}
use cc_mqtt311_libs.Client.Output.{emit}
use cc_mqtt311_libs.Client.Registry.{is_connect, is_subscribe, is_unsubscribe, is_send, update_send}
use cc_mqtt311_libs.Ops.Connect.{
  ConnectConfig, WillConfig, config_connect, config_will, send_connect, cancel_connect,
}
use cc_mqtt311_libs.Ops.Subscribe.{config_sub_topic, send_subscribe, cancel_subscribe}
use cc_mqtt311_libs.Ops.Unsubscribe.{config_unsub_topic, send_unsubscribe, cancel_unsubscribe}
use cc_mqtt311_libs.Ops.Send.{
  PublishConfig, config_send, set_resend_attempts, send_publish, cancel_send,
}
use cc_mqtt311_libs.Api.Loop.{client_tick, guarded}
use cc_mqtt311_libs.Api.Prepare.{
  Prepared, disconnect_prepare, subscribe_prepare, unsubscribe_prepare, publish_prepare,
}
use cc_mqtt311_libs.Api.Connect.{connect_prepare}
use cc_mqtt311_libs.Api.Calls.{
  Call, sets_callback, ticks, processes_data, loses_network, sets_response_timeout,
  verifies_outgoing, verifies_incoming, verifies_subscribed, orders_publishes, prepares_connect,
  sends_connect, cancels_connect, times_connect, configures_connect, prepares_disconnect,
  sends_disconnect, cancels_disconnect, prepares_subscribe, sends_subscribe, cancels_subscribe,
  times_subscribe, configures_subscribe, prepares_unsubscribe, sends_unsubscribe,
  cancels_unsubscribe, times_unsubscribe, configures_unsubscribe, prepares_publish, sends_publish,
  cancels_publish, configures_publish, configures_will, resends_publish, set_callback,
}
use cc_mqtt311_libs.Api.Data.{
  process_data, notify_network_disconnected, send_disconnect, cancel_disconnect,
}

-- A method of the operation that a handle stands for.
abbrev pub found_op {ℓ} :
    {A : Type ℓ} → Option A → (A → Client → Client × ErrorCode) → Client → Client × ErrorCode
found_op none f c = (emit uses_destroyed c, internal_error)
found_op (some op) f c = f op c

abbrev pub with_connect :
    Option ℕ → (ConnectOp → Client → Client × ErrorCode) → Client → Client × ErrorCode
with_connect none f c = (c, bad_param)
with_connect (some id) f c = found_op (find_if (is_connect id) c.connect_ops) f c

abbrev pub with_subscribe :
    Option ℕ → (SubscribeOp → Client → Client × ErrorCode) → Client → Client × ErrorCode
with_subscribe none f c = (c, bad_param)
with_subscribe (some id) f c = found_op (find_if (is_subscribe id) c.subscribe_ops) f c

abbrev pub with_unsubscribe :
    Option ℕ → (UnsubscribeOp → Client → Client × ErrorCode) → Client → Client × ErrorCode
with_unsubscribe none f c = (c, bad_param)
with_unsubscribe (some id) f c = found_op (find_if (is_unsubscribe id) c.unsubscribe_ops) f c

abbrev pub with_send :
    Option ℕ → (SendOp → Client → Client × ErrorCode) → Client → Client × ErrorCode
with_send none f c = (c, bad_param)
with_send (some id) f c = found_op (find_if (is_send id) c.send_ops) f c

abbrev pub with_disconnect :
    Option ℕ → (ℕ → Client → Client × ErrorCode) → Client → Client × ErrorCode
with_disconnect none f c = (c, bad_param)
with_disconnect (some id) f c = found_op (find_if (λ op. op == id) c.disconnect_ops) f c

-- The operations after a change of one.
abbrev pub update_connect : ℕ → (ConnectOp → ConnectOp) → Client → Client
update_connect id f c = record c { connect_ops = update_if (is_connect id) f c.connect_ops }

abbrev pub update_subscribe : ℕ → (SubscribeOp → SubscribeOp) → Client → Client
update_subscribe id f c = record c { subscribe_ops = update_if (is_subscribe id) f c.subscribe_ops }

abbrev pub update_unsubscribe : ℕ → (UnsubscribeOp → UnsubscribeOp) → Client → Client
update_unsubscribe id f c = record c {
  unsubscribe_ops = update_if (is_unsubscribe id) f c.unsubscribe_ops;
}

abbrev pub set_message : ConnectMsg → ConnectOp → ConnectOp
set_message m op = record op { msg = m }

-- The fields of a publish that its configuration changes.
abbrev pub set_publish : SendOp → SendOp → SendOp
set_publish new op = record op {
  pub_msg = new.pub_msg;
  total_send_attempts = new.total_send_attempts;
}

abbrev pub configure : (ConfigState → ConfigState) → Client → Client
configure f c = record c { config = f c.config }

module _ (b : Build) where
  abbrev pub config_connect_op : ConnectConfig → ConnectOp → Client → Client × ErrorCode
  config_connect_op config op c =
      let (m, ec) = config_connect b config op.msg c in (update_connect op.id (set_message m) c, ec)

  abbrev pub config_will_op : WillConfig → ConnectOp → Client → Client × ErrorCode
  config_will_op config op c =
      let (m, ec) = config_will b config op.msg in (update_connect op.id (set_message m) c, ec)

  abbrev pub config_subscribe_op : Option Text × ℕ → SubscribeOp → Client → Client × ErrorCode
  config_subscribe_op (topic, max_qos) op c =
      let (topics, ec) = config_sub_topic b topic max_qos op.topics c in
      (update_subscribe op.id (λ o. record o { topics = topics }) c, ec)

  abbrev pub config_publish_op : PublishConfig → SendOp → Client → Client × ErrorCode
  config_publish_op config op c =
      let (new, ec) = config_send b config op c in (update_send op.id (set_publish new) c, ec)

  abbrev pub resend_publish_op : ℕ → SendOp → Client → Client × ErrorCode
  resend_publish_op attempts op c =
      let (new, ec) = set_resend_attempts b attempts op in
      (update_send op.id (set_publish new) c, ec)

  abbrev pub config_unsubscribe_op : Option Text → UnsubscribeOp → Client → Client × ErrorCode
  config_unsubscribe_op topic op c =
      let (topics, ec) = config_unsub_topic b topic op.topics c in
      (update_unsubscribe op.id (λ o. record o { topics = topics }) c, ec)

  -- A configuration behind a null pointer is refused.
  abbrev pub given {ℓ κ} :
      {A : Type ℓ} {Op : Type κ}
      → Option A
      → (A → Op → Client → Client × ErrorCode)
      → Op
      → Client
      → Client × ErrorCode
  given none f op c = (c, bad_param)
  given (some a) f op c = f a op c

  abbrev pub prepared_error : Prepared → Client × ErrorCode
  prepared_error (c, op, ec) = (c, ec)

  -- The scope of `apiEnter` around a part of a method that has no result.
  abbrev pub scoped : ℕ → (Client → Client) → Client → Client
  scoped elapsed f c = (guarded b elapsed (λ d. (f d, success)) c).0

  abbrev pub enable_if : Bool → (ConfigState → ConfigState) → Client → Client × ErrorCode
  enable_if supported f c = if supported then (configure f c, success) else (c, not_supported)

  -- With the error code; the functions that have none give `success` here.
  unfoldable pub call : Call → Client → Client × ErrorCode
  call (sets_callback k present) c =
      (if present then record c { callbacks = set_callback k c.callbacks } else c, success)
  call (ticks ms) c = (client_tick b ms c, success)
  call (processes_data elapsed len reads) c = ((process_data b elapsed len reads c).0, success)
  call (loses_network elapsed) c = (notify_network_disconnected b elapsed c, success)
  call (sets_response_timeout ms) c =
      if ms == 0
      then (c, bad_param)
      else (configure (λ s. record s { response_timeout_ms = ms }) c, success)
  call (verifies_outgoing on) c =
      enable_if b.cfg.has_topic_format_verification (λ s. record s { verify_outgoing_topic = on }) c
  call (verifies_incoming on) c =
      enable_if b.cfg.has_topic_format_verification (λ s. record s { verify_incoming_topic = on }) c
  call (verifies_subscribed on) c =
      enable_if b.cfg.has_sub_topic_verification (λ s. record s { verify_sub_filter = on }) c
  call (orders_publishes none) c = (c, bad_param)
  call (orders_publishes (some order)) c =
      (configure (λ s. record s { publish_ordering = order }) c, success)
  call (prepares_connect elapsed) c = prepared_error (connect_prepare b elapsed c)
  call (times_connect op ms) c =
      with_connect op
        (λ o d. (update_connect o.id (λ p. record p { response_timeout_ms = ms }) d, success)) c
  call (configures_connect op config) c = with_connect op (given config config_connect_op) c
  call (configures_will op config) c = with_connect op (given config config_will_op) c
  call (sends_connect elapsed op has_cb) c =
      with_connect op (send_connect b (scoped elapsed) has_cb) c
  call (cancels_connect op) c = with_connect op (λ o d. (cancel_connect b o d, success)) c
  call prepares_disconnect c = prepared_error (disconnect_prepare b c)
  call (sends_disconnect elapsed op) c = with_disconnect op (send_disconnect b elapsed) c
  call (cancels_disconnect op) c = with_disconnect op (λ o d. (cancel_disconnect b o d, success)) c
  call prepares_subscribe c = prepared_error (subscribe_prepare b c)
  call (times_subscribe op ms) c =
      with_subscribe op
        (λ o d. (update_subscribe o.id (λ p. record p { response_timeout_ms = ms }) d, success)) c
  call (configures_subscribe op config) c = with_subscribe op (given config config_subscribe_op) c
  call (sends_subscribe elapsed op has_cb) c =
      with_subscribe op (send_subscribe b (scoped elapsed) has_cb) c
  call (cancels_subscribe op) c = with_subscribe op (λ o d. (cancel_subscribe b o d, success)) c
  call prepares_unsubscribe c = prepared_error (unsubscribe_prepare b c)
  call (times_unsubscribe op ms) c =
      with_unsubscribe op
        (λ o d. (update_unsubscribe o.id (λ p. record p { response_timeout_ms = ms }) d, success)) c
  call (configures_unsubscribe op config) c =
      with_unsubscribe op (given config config_unsubscribe_op) c
  call (sends_unsubscribe elapsed op has_cb) c =
      with_unsubscribe op (send_unsubscribe b (scoped elapsed) has_cb) c
  call (cancels_unsubscribe op) c =
      with_unsubscribe op (λ o d. (cancel_unsubscribe b o d, success)) c
  call prepares_publish c = prepared_error (publish_prepare b c)
  call (resends_publish op attempts) c = with_send op (resend_publish_op attempts) c
  call (configures_publish op config) c = with_send op (given config config_publish_op) c
  call (sends_publish elapsed op has_cb) c =
      with_send op (send_publish b (guarded b elapsed) has_cb) c
  call (cancels_publish op) c = with_send op (cancel_send b) c

  -- The application calls the client again and again.
  unfoldable pub calls : List Call → Client → Client
  calls [] c = c
  calls (k ∷ ks) c = calls ks (call k c).0
