-- ===== src/Fuzz/Broker.antt =====
-- The handlers of client/afl_fuzz/Generator.cpp: the answers of a broker that publishes to every
-- filter. A message is what the frame of the protocol library decodes; the packet id of a publish is
-- the one that is given to the field of 16 bits of that library. The assertion that there is a topic is
-- not modelled.
pub mod Counts
use cc_mqtt311_libs.Base.{
  ℕ, ◌+◌, ◌%◌, ◌^◌, Bool, true, false, List, [], ◌∷◌, map, ltb, ◌==◌, if◌then◌else◌,
}
use cc_mqtt311_libs.State.{Text}
use cc_mqtt311_libs.Fuzz.Topic.{pub_topic_from_filter}

pub data Sent : Type 0 where
  sent_connack : Sent
  sent_puback sent_pubrec sent_pubrel sent_pubcomp sent_unsuback : ℕ → Sent
  sent_suback : ℕ → List ℕ → Sent
  sent_publish : (topic : Text) → (qos packet_id : ℕ) → Sent

pub data Received : Type 0 where
  got_connect got_other : Received
  got_publish : (qos packet_id : ℕ) → Received
  got_pubrec got_pubrel got_unsubscribe : ℕ → Received
  got_subscribe : ℕ → List Text → Received

-- `sent` has what was written, the latest first.
pub record Generator : Type 0 where
  pub min_pub_count : ℕ
  pub last_packet_id : ℕ
  pub next_pub_qos : ℕ
  pub last_pub_topic : Text
  pub pub_count : ℕ
  pub connected : Bool
  pub sent : List Sent

abbrev pub new_generator : ℕ → Generator
new_generator min_pub_count = record {
  min_pub_count = min_pub_count;
  last_packet_id = 0;
  next_pub_qos = 0;
  last_pub_topic = [];
  pub_count = 0;
  connected = false;
  sent = [];
}

-- The counters are `unsigned`.
abbrev pub next_unsigned : ℕ → ℕ
next_unsigned n = (n + 1) % 2 ^ 32

abbrev pub write_message : Sent → Generator → Generator
write_message m g = record g { sent = m ∷ g.sent }

unfoldable pub send_publish_to : Text → ℕ → Generator → Generator
send_publish_to topic qos g =
    let id = if ltb 0 qos then next_unsigned g.last_packet_id else g.last_packet_id in
    let g' = write_message (sent_publish topic qos (if ltb 0 qos then id else 0)) g in
    record g' { last_packet_id = id; pub_count = next_unsigned g.pub_count }

-- `doPublish`
unfoldable pub do_publish : Generator → Generator
unfolding send_publish_to
do_publish g =
    let g' = send_publish_to g.last_pub_topic g.next_pub_qos g in
    record g' {
      next_pub_qos =
          if ltb 2 (next_unsigned g.next_pub_qos) then 0 else next_unsigned g.next_pub_qos;
    }

-- `doNextPublishIfNeeded`
unfoldable pub publish_if_needed : Generator → Generator
publish_if_needed g = if ltb g.pub_count g.min_pub_count then do_publish g else g

-- The loop over the filters of a subscribe.
unfoldable pub publish_to_filters : List Text → Generator → Generator
publish_to_filters [] g = g
publish_to_filters (filter ∷ rest) g =
    publish_to_filters rest
      (do_publish (record g { last_pub_topic = pub_topic_from_filter filter }))

-- The handlers.
unfoldable pub handle : Received → Generator → Generator
handle got_connect g = record (write_message sent_connack g) { connected = true }
handle (got_publish qos packet_id) g =
    if qos == 0
    then publish_if_needed g
    else if qos == 1
    then publish_if_needed (write_message (sent_puback packet_id) g)
    else write_message (sent_pubrec packet_id) g
handle (got_pubrec packet_id) g = write_message (sent_pubrel packet_id) g
handle (got_pubrel packet_id) g = publish_if_needed (write_message (sent_pubcomp packet_id) g)
handle (got_subscribe packet_id filters) g =
    publish_to_filters filters (write_message (sent_suback packet_id (map (λ filter. 2) filters)) g)
handle (got_unsubscribe packet_id) g = write_message (sent_unsuback packet_id) g
handle got_other g = g

unfoldable pub handle_all : List Received → Generator → Generator
handle_all [] g = g
handle_all (m ∷ ms) g = handle_all ms (handle m g)
