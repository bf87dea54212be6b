-- ===== src/Fuzz/Broker/Counts.antt =====
-- The counters of the generator against what it has sent.
use cc_mqtt311_libs.Base.{
  ℕ, ◌%◌, ◌^◌, ◌≡◌, refl, Bool, true, false, List, [], ◌∷◌, ltb, ◌==◌, if◌then◌else◌, count_if,
  arith,
}
use cc_mqtt311_libs.State.{Text}
use cc_mqtt311_libs.Fuzz.Broker.{
  Sent, sent_publish, Received, got_connect, got_other, got_publish, got_pubrec, got_pubrel,
  got_unsubscribe, got_subscribe, Generator, new_generator, send_publish_to, do_publish,
  publish_if_needed, publish_to_filters, handle, handle_all,
}

abbrev pub is_publish : Sent → Bool
is_publish (sent_publish topic qos packet_id) = true
is_publish _ = false

abbrev pub is_marked : Sent → Bool
is_marked (sent_publish topic qos packet_id) = ltb 0 qos
is_marked _ = false

-- The counters up to their wrap-around, and the qualities of service, each in its turn.
pub record Counted (g : Generator) : Type 0 where
  pub publishes : g.pub_count ≡ count_if is_publish g.sent % 2 ^ 32
  pub packet_ids : g.last_packet_id ≡ count_if is_marked g.sent % 2 ^ 32
  pub turn : g.next_pub_qos ≡ count_if is_publish g.sent % 3

do_publish-Counted : (g : Generator) → Counted g → Counted (do_publish g)
unfolding do_publish send_publish_to
do_publish-Counted g c = record {
  publishes = omega (arith, c.publishes);
  packet_ids = ground (arith, c.packet_ids);
  turn = ground (arith, c.turn);
}

if-Counted : (t : Bool) (g h : Generator) → Counted g → Counted h → Counted (if t then g else h)
if-Counted true g h c d = c
if-Counted false g h c d = d

publish_if_needed-Counted : (g : Generator) → Counted g → Counted (publish_if_needed g)
unfolding publish_if_needed
publish_if_needed-Counted g c =
    if-Counted (ltb g.pub_count g.min_pub_count) _ _ (do_publish-Counted g c) c

-- A change that sends no publish.
answers :
    (g h : Generator)
    → Counted g
    → h.pub_count ≡ g.pub_count
    → h.last_packet_id ≡ g.last_packet_id
    → h.next_pub_qos ≡ g.next_pub_qos
    → count_if is_publish h.sent ≡ count_if is_publish g.sent
    → count_if is_marked h.sent ≡ count_if is_marked g.sent
    → Counted h
answers g h c pubs ids turn same same' = record {
  publishes = rw (pubs, same) c.publishes;
  packet_ids = rw (ids, same') c.packet_ids;
  turn = rw (turn, same) c.turn;
}

publish_to_filters-Counted :
    (filters : List Text) (g : Generator) → Counted g → Counted (publish_to_filters filters g)
unfolding publish_to_filters
publish_to_filters-Counted [] g c = c
publish_to_filters-Counted (filter ∷ rest) g c =
    publish_to_filters-Counted rest _
      (do_publish-Counted _ (answers g _ c refl refl refl refl refl))

handle-Counted : (m : Received) (g : Generator) → Counted g → Counted (handle m g)
unfolding handle
handle-Counted got_connect g c = answers g _ c refl refl refl refl refl
handle-Counted got_other g c = c
handle-Counted (got_publish qos packet_id) g c =
    if-Counted (qos == 0) _ _ (publish_if_needed-Counted g c) (
      if-Counted (qos == 1) _ _
        (publish_if_needed-Counted _ (answers g _ c refl refl refl refl refl))
        (answers g _ c refl refl refl refl refl))
handle-Counted (got_pubrec packet_id) g c = answers g _ c refl refl refl refl refl
handle-Counted (got_pubrel packet_id) g c =
    publish_if_needed-Counted _ (answers g _ c refl refl refl refl refl)
handle-Counted (got_unsubscribe packet_id) g c = answers g _ c refl refl refl refl refl
handle-Counted (got_subscribe packet_id filters) g c =
    publish_to_filters-Counted filters _ (answers g _ c refl refl refl refl refl)

-- The messages one after the other.
handle_all-kept : (ms : List Received) (g : Generator) → Counted g → Counted (handle_all ms g)
unfolding handle_all
handle_all-kept [] g c = c
handle_all-kept (m ∷ ms) g c = handle_all-kept ms _ (handle-Counted m g c)

-- Whatever messages the fuzzing broker handles: its count of publishes and its last packet id are,
-- up to the wrap-around of unsigned, the numbers of all publishes sent and of those above QoS 0,
-- and the QoS of the next publish is the number of all publishes sent modulo 3.
pub handle_all-Counted :
    (min_pub_count : ℕ) (ms : List Received) → Counted (handle_all ms (new_generator min_pub_count))
handle_all-Counted min_pub_count ms =
    handle_all-kept ms _ (record { publishes = refl; packet_ids = refl; turn = refl })
