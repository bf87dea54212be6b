-- ===== src/Examples/OverflowRuns.antt =====
-- Publishes that come in where the list of operations has fixed storage.
use cc_mqtt311_libs.Base.{
  ℕ, zero, suc, ◌+◌, ◌≡◌, refl, ◌∙◌, true, false, List, [], ◌∷◌, ltb, length, All, arith,
}
use cc_mqtt311_libs.State.{initial_session}
use cc_mqtt311_libs.Config.{Config, list_max_size, ops_limit}
use cc_mqtt311_libs.Topics.{
  verify_pub_topic, pub_topic_from, is_topic_match, is_topic_match_from, find_sep, text_eq,
}
use cc_mqtt311_libs.Client.{Client, Build, PublishMsg, new_client, has_overflow}
use cc_mqtt311_libs.Session.Connected.{ops_max_size}
use cc_mqtt311_libs.Session.Incoming.Duplicate.{handle_publishes}
use cc_mqtt311_libs.Session.Incoming.Overflow.{is_taken, handle_publishes-overflow}
use cc_mqtt311_libs.Examples.TopicRuns.{checked_cfg, checked_state}
use cc_mqtt311_libs.Examples.ClientRuns.{demo_build, all_callbacks}

abbrev static_cfg : Config
static_cfg = record checked_cfg {
  has_dyn_mem_alloc = false;
  receive_max_limit = 1;
  send_max_limit = 2;
  config_subscribe_ops_limit = 1;
  config_unsubscribe_ops_limit = 1;
}

abbrev static_build : Build
static_build = record demo_build { cfg = static_cfg }

-- Every message is taken at QoS 0, with all checks switched on.
abbrev listening_client : Client
listening_client = record (new_client all_callbacks checked_state) {
  session = record initial_session { connected = true; keep_alive_ms = 1000 };
  reuse = record { sub_filters = (97 ∷ []) ∷ [] };
}

abbrev news : PublishMsg
news = record {
  qos = 0;
  retain = false;
  dup = false;
  topic = 97 ∷ [];
  packet_id = 0;
  has_packet_id = false;
  payload = 1 ∷ [];
}

abbrev copies : ℕ → List PublishMsg
copies zero = []
copies (suc n) = news ∷ copies n

news_taken : is_taken static_build listening_client news ≡ true
unfolding verify_pub_topic pub_topic_from is_topic_match is_topic_match_from find_sep text_eq
news_taken = refl

copies_taken : (n : ℕ) → All (λ msg. is_taken static_build listening_client msg ≡ true) (copies n)
copies_taken zero = tt
copies_taken (suc n) = (news_taken, copies_taken n)

ten_entries : ops_max_size static_build ≡ 10
unfolding list_max_size ops_limit
ten_entries = refl

overflow_example :
    has_overflow (handle_publishes static_build (copies 11) listening_client).trace
    ≡ ltb (ops_max_size static_build) (length listening_client.ops + length (copies 11))
overflow_example =
    handle_publishes-overflow static_build (copies 11) listening_client refl refl refl refl
      (copies_taken 11) refl (omega arith)

-- Eleven publishes overflow the ten entries.
overflow_shown :
    has_overflow (handle_publishes static_build (copies 11) listening_client).trace ≡ true
overflow_shown =
    handle_publishes-overflow static_build (copies 11) listening_client refl refl refl refl
      (copies_taken 11) refl (omega arith)
    ∙ rw ten_entries refl
