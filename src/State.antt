-- ===== src/State.antt =====
-- client/lib/src/ClientState.h, ConfigState.h, SessionState.h and ReuseState.h, the parts of the
-- client's state.
use cc_mqtt311_libs.Base.{ℕ, Bool, true, false, List, []}

-- A string without its terminating zero, byte by byte.
abbrev pub Text : Type 0
Text = List ℕ

pub data PublishOrdering : Type 0 where
  same_qos full : PublishOrdering

pub record ConfigState : Type 0 where
  pub response_timeout_ms : ℕ
  pub publish_ordering : PublishOrdering
  pub verify_outgoing_topic : Bool
  pub verify_incoming_topic : Bool
  pub verify_sub_filter : Bool

pub record ClientState : Type 0 where
  pub allocated_packet_ids : List ℕ
  pub last_packet_id : ℕ
  pub initialized : Bool
  pub first_connect : Bool
  pub network_disconnected : Bool

pub record SessionState : Type 0 where
  pub keep_alive_ms : ℕ
  pub connected : Bool
  pub disconnecting : Bool

pub record ReuseState : Type 0 where
  pub sub_filters : List Text

abbrev pub initial_client_state : ClientState
initial_client_state = record {
  allocated_packet_ids = [];
  last_packet_id = 0;
  initialized = false;
  first_connect = true;
  network_disconnected = false;
}

-- `SessionState()`
abbrev pub initial_session : SessionState
initial_session = record { keep_alive_ms = 0; connected = false; disconnecting = false }
