-- ===== src/Examples/FuzzRuns.antt =====
-- A client that subscribes to two filters, and the filters' topics.
use cc_mqtt311_libs.Base.{◌≡◌, refl, true, List, [], ◌∷◌}
use cc_mqtt311_libs.State.{Text}
use cc_mqtt311_libs.Topics.Levels.{levels, level_list, plain_levels, matches}
use cc_mqtt311_libs.Fuzz.Topic.{pub_topic_from_filter}
use cc_mqtt311_libs.Fuzz.Topic.Fits.{pub_topic_from_filter_lem}
use cc_mqtt311_libs.Fuzz.Broker.{
  Received, got_connect, got_subscribe, got_publish, new_generator, handle_all,
}
use cc_mqtt311_libs.Fuzz.Broker.Counts.{Counted, handle_all-Counted}

-- a/+/#
abbrev some_filter : Text
some_filter = 97 ∷ 47 ∷ 43 ∷ 47 ∷ 35 ∷ []

fits_example :
    let topic = pub_topic_from_filter some_filter in
    (matches (level_list some_filter) (level_list topic) ≡ true)
    × (plain_levels (levels topic).0 (levels topic).1 ≡ true)
fits_example = pub_topic_from_filter_lem some_filter refl

abbrev some_messages : List Received
some_messages = got_connect ∷ got_subscribe 1 (some_filter ∷ (97 ∷ []) ∷ []) ∷ got_publish 1 7 ∷ []

counted_example : Counted (handle_all some_messages (new_generator 3))
counted_example = handle_all-Counted 3 some_messages
