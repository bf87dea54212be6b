-- ===== src/Api/Calls.antt =====
-- The calls of the C interface that change the client (client/lib/templ/client.cpp.templ), with the
-- setters of callbacks of ClientImpl.h. A handle is the identity of an operation; a null pointer is
-- `none`.
use cc_mqtt311_libs.Base.{ℕ, Bool, true, Option, List}
use cc_mqtt311_libs.State.{Text, PublishOrdering}
use cc_mqtt311_libs.Client.{Callbacks}
use cc_mqtt311_libs.Ops.Connect.{ConnectConfig, WillConfig}
use cc_mqtt311_libs.Ops.Send.{PublishConfig}
use cc_mqtt311_libs.Api.Data.{Read}

-- The callbacks that the client has a state for.
pub data CallbackKind : Type 0 where
  on_next_tick on_cancel_tick on_output on_disconnect on_message : CallbackKind

-- A null pointer leaves the callback that is set.
abbrev pub set_callback : CallbackKind → Callbacks → Callbacks
set_callback on_next_tick s = record s { next_tick = true }
set_callback on_cancel_tick s = record s { cancel_tick = true }
set_callback on_output s = record s { sends_data = true }
set_callback on_disconnect s = record s { reports_disconnect = true }
set_callback on_message s = record s { reports_message = true }

-- The calls; `elapsed` is what the application answers when it is asked for the time waited.
pub data Call : Type 0 where
  sets_callback : CallbackKind → (present : Bool) → Call
  ticks : (ms : ℕ) → Call
  processes_data : (elapsed len : ℕ) → List Read → Call
  loses_network : (elapsed : ℕ) → Call
  sets_response_timeout : (ms : ℕ) → Call
  verifies_outgoing verifies_incoming verifies_subscribed : Bool → Call
  orders_publishes : Option PublishOrdering → Call
  prepares_connect : (elapsed : ℕ) → Call
  times_connect : Option ℕ → (ms : ℕ) → Call
  configures_connect : Option ℕ → Option ConnectConfig → Call
  configures_will : Option ℕ → Option WillConfig → Call
  sends_connect : (elapsed : ℕ) → Option ℕ → (has_cb : Bool) → Call
  cancels_connect : Option ℕ → Call
  prepares_disconnect : Call
  sends_disconnect : (elapsed : ℕ) → Option ℕ → Call
  cancels_disconnect : Option ℕ → Call
  prepares_subscribe : Call
  times_subscribe : Option ℕ → (ms : ℕ) → Call
  configures_subscribe : Option ℕ → Option (Option Text × ℕ) → Call
  sends_subscribe : (elapsed : ℕ) → Option ℕ → (has_cb : Bool) → Call
  cancels_subscribe : Option ℕ → Call
  prepares_unsubscribe : Call
  times_unsubscribe : Option ℕ → (ms : ℕ) → Call
  configures_unsubscribe : Option ℕ → Option (Option Text) → Call
  sends_unsubscribe : (elapsed : ℕ) → Option ℕ → (has_cb : Bool) → Call
  cancels_unsubscribe : Option ℕ → Call
  prepares_publish : Call
  resends_publish : Option ℕ → (attempts : ℕ) → Call
  configures_publish : Option ℕ → Option PublishConfig → Call
  sends_publish : (elapsed : ℕ) → Option ℕ → (has_cb : Bool) → Call
  cancels_publish : Option ℕ → Call
