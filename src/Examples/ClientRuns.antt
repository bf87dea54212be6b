-- ===== src/Examples/ClientRuns.antt =====
-- A connected client with publishes in progress in both directions.
use cc_mqtt311_libs.Base.{
  ℕ, ◌≤◌, drop, ◌≡◌, refl, Bool, true, false, not, ◌&&◌, ◌||◌, ◌⊎◌, none, some, List, [], ◌∷◌,
  is_empty,
}
use cc_mqtt311_libs.Base.SortedSet.{member, Sorted, found_at}
use cc_mqtt311_libs.Config.{list_max_size, ops_limit}
use cc_mqtt311_libs.State.{Text, initial_session}
use cc_mqtt311_libs.Timers.{TimerMgr}
use cc_mqtt311_libs.Topics.Order.{text_order, text_lt}
use cc_mqtt311_libs.Client.{
  Client, Build, Callbacks, SendOp, RecvOp, PublishMsg, TimerCb, new_client, pubrec_msg,
}
use cc_mqtt311_libs.Client.Sends.{is_success, can_send}
use cc_mqtt311_libs.Client.Sends.Order.{
  is_full, last_paused, any_paused, none_above, goes_by_doc, can_send_lem,
}
use cc_mqtt311_libs.Api.Prepare.{subscribe_prepare, add_subscribe, empty_publish}
use cc_mqtt311_libs.Api.Prepare.Exclusive.{
  subscribe_call, publish_call, prepare, Refused, Accepts, call_type, prepare_lem,
  prepare-exclusive,
}
use cc_mqtt311_libs.Ops.Subscribe.{Progress, take_codes, take_code, record_filter}
use cc_mqtt311_libs.Ops.Subscribe.Granted.{all_allowed, is_granted, take_codes_lem}
use cc_mqtt311_libs.Ops.Unsubscribe.{forget_topics}
use cc_mqtt311_libs.Ops.Unsubscribe.Forgotten.{is_named, forget_topics_lem}
use cc_mqtt311_libs.Session.Acks.{is_legit_send_ack, pubcomp, find_send_op, handle_ack}
use cc_mqtt311_libs.Session.Frame.{output_if}
use cc_mqtt311_libs.Session.Stray.{handle_ack_stray, handle_pubrel_stray}
use cc_mqtt311_libs.Session.Acks.Legit.{all_acked, is_legit_send_ack_lem}
use cc_mqtt311_libs.Session.Incoming.{handle_publish, handle_pubrel}
use cc_mqtt311_libs.Session.Incoming.Duplicate.{
  messages, receiving, handle_publishes, handle_publishes_once, handle_publish_dup,
}
use cc_mqtt311_libs.Session.Connected.{paused_suffix}
use cc_mqtt311_libs.Session.Connected.Suffix.{all_paused, paused_suffix_lem}
use cc_mqtt311_libs.Client.Sends.{paused_at}
use cc_mqtt311_libs.Examples.TopicRuns.{checked_cfg, checked_state}

abbrev pub demo_build : Build
demo_build = record {
  cfg = checked_cfg;
  frame_length = λ msg. 10;
  frame_write = λ msg. true;
  publish_refresh = λ msg. msg;
  alloc_room = λ t n. true;
  sub_topics_max = 100;
  unsub_topics_max = 100;
  return_codes_max = 100;
  text_field = λ t. t;
  topic_field = λ t. t;
  data_field = λ t. t;
  keep_alive_max = 65535;
  connack_codes_limit = 6;
}

abbrev pub all_callbacks : Callbacks
all_callbacks = record {
  sends_data = true;
  reports_disconnect = true;
  reports_message = true;
  next_tick = true;
  cancel_tick = true;
}

abbrev send_op : ℕ → Bool → SendOp
send_op id acked = record {
  id = id;
  timer = id;
  pub_msg = record empty_publish { qos = 2; packet_id = id };
  has_cb = true;
  total_send_attempts = 2;
  send_attempts = 1;
  published = true;
  acked = acked;
  paused = false;
}

abbrev recv_op : RecvOp
recv_op = record { id = 3; timer = 3; packet_id = 17 }

abbrev pub busy_client : Client
busy_client = record (new_client all_callbacks checked_state) {
  session = record initial_session { connected = true; keep_alive_ms = 1000 };
  send_ops = send_op 1 true ∷ send_op 2 false ∷ [];
  recv_ops = recv_op ∷ [];
  next_op = 4;
}

abbrev again : PublishMsg
again = record empty_publish { qos = 2; dup = true; packet_id = 17 }

dup_example :
    (m : TimerMgr TimerCb) × (handle_publish demo_build again busy_client
      ≡ record busy_client { timer_mgr = m; trace = output_if demo_build (pubrec_msg 17) [] })
dup_example = handle_publish_dup demo_build again recv_op busy_client refl refl refl refl refl

once_example :
    (messages (handle_publishes demo_build (again ∷ again ∷ []) busy_client).trace ≡ [])
    × (receiving demo_build 17 (handle_publishes demo_build (again ∷ again ∷ []) busy_client)
        ≡ some recv_op)
once_example =
    handle_publishes_once demo_build 17 recv_op (again ∷ again ∷ []) busy_client refl refl refl
      ((refl, refl, refl), ((refl, refl, refl), tt))

legit_example : is_legit_send_ack (send_op 2 false) false busy_client ≡ (
    true && all_acked (send_op 1 true ∷ []) && not (false && not (is_empty (send_op 1 true ∷ []))))
legit_example =
    is_legit_send_ack_lem busy_client false (send_op 1 true ∷ []) (send_op 2 false) [] refl
      (refl, tt)

can_send_example :
    (can_send (send_op 2 false) busy_client ≡ (
      not (is_full checked_state.publish_ordering)
      || not (last_paused (send_op 1 true ∷ [])) && none_above 2 (send_op 1 true ∷ [])))
    × (goes_by_doc checked_state.publish_ordering 2 (send_op 1 true ∷ []) ≡ (
        can_send (send_op 2 false) busy_client
        && (not (is_full checked_state.publish_ordering)
            || not (any_paused (send_op 1 true ∷ [])))))
can_send_example =
    can_send_lem busy_client (send_op 1 true ∷ []) (send_op 2 false) [] refl (refl, tt)

prepare_example :
    Refused demo_build busy_client (prepare demo_build publish_call busy_client)
    ⊎ Accepts demo_build
        (call_type publish_call)
        busy_client
        (prepare demo_build publish_call busy_client)
prepare_example = prepare_lem demo_build publish_call busy_client

subscribe_prepared : is_success (prepare demo_build subscribe_call busy_client).2 ≡ true
unfolding subscribe_prepare add_subscribe list_max_size ops_limit
subscribe_prepared = refl

exclusive_example :
    Refused demo_build
      (prepare demo_build subscribe_call busy_client).0
      (prepare demo_build publish_call (prepare demo_build subscribe_call busy_client).0)
exclusive_example =
    prepare-exclusive demo_build subscribe_call publish_call busy_client subscribe_prepared

-- Topics `a` and `b`, of which `a` is granted and `b` fails.
abbrev asked_topics : List (Text × ℕ)
asked_topics = (b'a' ∷ [], 2) ∷ (b'b' ∷ [], 1) ∷ []

abbrev no_progress : Progress
no_progress = record { filters = []; codes = []; stopped = none }

asked_run : (take_codes demo_build true asked_topics (1 ∷ 0x80 ∷ []) no_progress).stopped ≡ none
unfolding take_codes take_code record_filter found_at list_max_size
asked_run = refl

codes_example :
    let q = take_codes demo_build true asked_topics (1 ∷ 0x80 ∷ []) no_progress in
    (q.codes ≡ 1 ∷ 0x80 ∷ [])
    × (all_allowed asked_topics (1 ∷ 0x80 ∷ []) ≡ true)
    × Sorted q.filters
    × ((j : Text)
        → member j q.filters
          ≡ (true && true && is_granted j asked_topics (1 ∷ 0x80 ∷ []) || member {A = Text} j []))
codes_example =
    take_codes_lem demo_build true asked_topics (1 ∷ 0x80 ∷ []) no_progress refl tt refl asked_run

two_filters-Sorted : Sorted {A = Text} ((b'a' ∷ []) ∷ (b'b' ∷ []) ∷ [])
unfolding text_lt
two_filters-Sorted = ((refl, tt), (tt, tt))

forget_example :
    Sorted (forget_topics ((b'b' ∷ []) ∷ (b'c' ∷ []) ∷ []) ((b'a' ∷ []) ∷ (b'b' ∷ []) ∷ []))
    × ((j : Text)
        → member j (forget_topics ((b'b' ∷ []) ∷ (b'c' ∷ []) ∷ []) ((b'a' ∷ []) ∷ (b'b' ∷ []) ∷ []))
          ≡ (not (is_named j ((b'b' ∷ []) ∷ (b'c' ∷ []) ∷ []))
              && member {A = Text} j ((b'a' ∷ []) ∷ (b'b' ∷ []) ∷ [])))
forget_example =
    forget_topics_lem ((b'b' ∷ []) ∷ (b'c' ∷ []) ∷ []) ((b'a' ∷ []) ∷ (b'b' ∷ []) ∷ [])
      two_filters-Sorted

suffix_example :
    let xs = send_op 1 true ∷ record (send_op 2 false) { paused = true } ∷ [] in
    (paused_suffix xs ≤ 2)
    × (all_paused (drop (paused_suffix xs) xs) ≡ true)
    × (paused_at xs (paused_suffix xs) ≡ false)
suffix_example =
    paused_suffix_lem (send_op 1 true ∷ record (send_op 2 false) { paused = true } ∷ [])

no_publish_40 : find_send_op 40 busy_client ≡ none
unfolding find_send_op
no_publish_40 = refl

stray_ack_example :
    (m : TimerMgr TimerCb) × (handle_ack demo_build pubcomp 40 busy_client
      ≡ record busy_client { timer_mgr = m })
stray_ack_example = handle_ack_stray demo_build pubcomp 40 busy_client no_publish_40

stray_pubrel_example :
    (m : TimerMgr TimerCb) × (handle_pubrel demo_build 40 true busy_client
      ≡ record busy_client { timer_mgr = m })
stray_pubrel_example = handle_pubrel_stray demo_build 40 true busy_client refl
