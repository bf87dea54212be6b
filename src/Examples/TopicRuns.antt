-- ===== src/Examples/TopicRuns.antt =====
-- Topics and filters written out.
use cc_mqtt311_libs.Base.{
  ◌≡◌, refl, true, false, not, ◌&&◌, ◌||◌, none, [], ◌∷◌, is_empty, if◌then◌else◌,
}
use cc_mqtt311_libs.Config.{Config}
use cc_mqtt311_libs.State.{Text, ConfigState, same_qos}
use cc_mqtt311_libs.Topics.{
  verify_sub_filter, verify_pub_topic, is_topic_match, starts_with_dollar, find_sep, pub_topic_from,
}
use cc_mqtt311_libs.Topics.Levels.{
  levels, level_list, valid_levels, plain_levels, matches, is_kept_apart, mqtt_matches,
}
use cc_mqtt311_libs.Topics.Filter.{verify_sub_filter_lem}
use cc_mqtt311_libs.Topics.PubTopic.{verify_pub_topic_lem, pub_topic-sub_filter}
use cc_mqtt311_libs.Topics.Match.{is_topic_match_lem}
use cc_mqtt311_libs.Topics.Trailing.{trailing_unmatched}

abbrev pub checked_cfg : Config
checked_cfg = record {
  has_dyn_mem_alloc = true;
  has_topic_format_verification = true;
  has_sub_topic_verification = true;
  max_output_packet_size = 0;
  receive_max_limit = 0;
  send_max_limit = 0;
  config_subscribe_ops_limit = 0;
  config_unsubscribe_ops_limit = 0;
  sub_filters_limit = 0;
  max_qos = 2;
  vector_max_size = 1000;
}

abbrev pub checked_state : ConfigState
checked_state = record {
  response_timeout_ms = 2000;
  publish_ordering = same_qos;
  verify_outgoing_topic = true;
  verify_incoming_topic = true;
  verify_sub_filter = true;
}

-- `a/+/#` and `a/b`
abbrev plus_filter : Text
plus_filter = b'a' ∷ b'/' ∷ b'+' ∷ b'/' ∷ b'#' ∷ []

abbrev two_levels : Text
two_levels = b'a' ∷ b'/' ∷ b'b' ∷ []

filter_example : verify_sub_filter checked_cfg checked_state plus_filter ≡ (
    not (checked_cfg.has_topic_format_verification && checked_state.verify_outgoing_topic)
    || not (is_empty plus_filter) && valid_levels (levels plus_filter).0 (levels plus_filter).1)
filter_example = verify_sub_filter_lem checked_cfg checked_state plus_filter

pub_topic_example : verify_pub_topic checked_cfg checked_state two_levels true ≡ (
    not (if true then checked_state.verify_outgoing_topic else checked_state.verify_incoming_topic)
    || not (is_empty two_levels)
      && not (true && starts_with_dollar two_levels)
      && plain_levels (levels two_levels).0 (levels two_levels).1)
pub_topic_example = verify_pub_topic_lem checked_cfg checked_state two_levels true refl

two_levels_published : verify_pub_topic checked_cfg checked_state two_levels true ≡ true
unfolding verify_pub_topic pub_topic_from
two_levels_published = refl

subscribable_example : verify_sub_filter checked_cfg checked_state two_levels ≡ true
subscribable_example =
    pub_topic-sub_filter checked_cfg checked_state two_levels two_levels_published

match_example :
    (is_topic_match plus_filter two_levels
      ≡ matches (level_list plus_filter) (level_list two_levels))
    × (mqtt_matches plus_filter two_levels
        ≡ (not (is_kept_apart plus_filter two_levels) && is_topic_match plus_filter two_levels))
match_example = is_topic_match_lem plus_filter two_levels refl

no_sep : find_sep (b'a' ∷ []) ≡ none
unfolding find_sep
no_sep = refl

trailing_example :
    (is_topic_match (b'a' ∷ b'/' ∷ b'+' ∷ []) (b'a' ∷ b'/' ∷ []) ≡ false)
    × (matches (level_list (b'a' ∷ b'/' ∷ b'+' ∷ [])) (level_list (b'a' ∷ b'/' ∷ [])) ≡ true)
trailing_example = trailing_unmatched (b'a' ∷ []) no_sep
