-- ===== src/Topics/PubTopic.antt =====
-- `Op::verifyPubTopicInternal` accepts the topics that MQTT allows.
use cc_mqtt311_libs.Base.{
  ℕ, ◌≡◌, refl, Bool, true, not, ◌&&◌, ◌||◌, List, [], ◌∷◌, if◌then◌else◌, is_empty, arith,
}
use cc_mqtt311_libs.State.{Text, ConfigState}
use cc_mqtt311_libs.Config.{Config}
use cc_mqtt311_libs.Topics.{pub_topic_from, verify_pub_topic, verify_sub_filter, starts_with_dollar}
use cc_mqtt311_libs.Topics.Levels.{levels, is_wildcard, plain_levels, valid_levels}
use cc_mqtt311_libs.Topics.Filter.{verify_sub_filter_lem}

plain_cons :
    (c : ℕ) (l : Text) (ls : List Text)
    → plain_levels (c ∷ l) ls ≡ (not (is_wildcard c) && plain_levels l ls)
plain_cons c l [] = refl
plain_cons c l (m ∷ ls) = ground arith

pub_topic_from_lem : (t : Text) → pub_topic_from t ≡ plain_levels (levels t).0 (levels t).1
unfolding pub_topic_from
pub_topic_from_lem [] = refl
pub_topic_from_lem (c ∷ cs) =
    ground (arith, pub_topic_from_lem cs, plain_cons c (levels cs).0 (levels cs).1)

-- With the format checks built in, a topic is accepted exactly if its direction's check is
-- switched off, or it is not empty, no level has a wildcard in it and, going out, it does not
-- begin with $.
pub verify_pub_topic_lem :
    (cfg : Config) (state : ConfigState) (topic : Text) (outgoing : Bool)
    → cfg.has_topic_format_verification ≡ true
    → verify_pub_topic cfg state topic outgoing ≡ (
        not (if outgoing then state.verify_outgoing_topic else state.verify_incoming_topic)
        || not (is_empty topic)
          && not (outgoing && starts_with_dollar topic)
          && plain_levels (levels topic).0 (levels topic).1)
unfolding verify_pub_topic
verify_pub_topic_lem cfg state topic outgoing h = ground (arith, pub_topic_from_lem topic)

plain_valid : (l : Text) (ls : List Text) → plain_levels l ls ≡ true → valid_levels l ls ≡ true
plain_valid l [] h = ground arith
plain_valid l (m ∷ ls) h = ground (arith, plain_valid m ls)

-- Every topic accepted for publishing is accepted as a filter.
pub pub_topic-sub_filter :
    (cfg : Config) (state : ConfigState) (topic : Text)
    → verify_pub_topic cfg state topic true ≡ true
    → verify_sub_filter cfg state topic ≡ true
unfolding verify_pub_topic
pub_topic-sub_filter cfg state topic h =
    rw (verify_sub_filter_lem cfg state topic)
      (ground (arith, pub_topic_from_lem topic, plain_valid (levels topic).0 (levels topic).1))
