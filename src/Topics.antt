-- ===== src/Topics.antt =====
-- The topic tests of client/lib/src/op/Op.h and Op.cpp, and `isTopicMatch` of RecvOp.cpp.
pub mod Levels
pub mod Filter
pub mod PubTopic
pub mod Match
pub mod Trailing
pub mod Order
use cc_mqtt311_libs.Base.{
  ℕ, zero, suc, ◌+◌, ◌-◌, Bool, true, false, not, ◌&&◌, ◌||◌, Option, none, some, List, [], ◌∷◌,
  leb, ◌==◌, if◌then◌else◌, is_empty, length, take, drop, is_some,
}
use cc_mqtt311_libs.State.{Text, ConfigState}
use cc_mqtt311_libs.Config.{Config}

abbrev pub topic_sep : ℕ
topic_sep = b'/'

abbrev pub multi_level_wildcard : ℕ
multi_level_wildcard = b'#'

abbrev pub single_level_wildcard : ℕ
single_level_wildcard = b'+'

-- `(0 <= lastSep) && (pos - 1U == lastSep)`
abbrev pub follows_sep : ℕ → Option ℕ → Bool
follows_sep pos none = false
follows_sep pos (some last_sep) = last_sep == (pos - 1)

-- `(nextCh != '\0') && (nextCh != TopicSep)`, where `nextCh` is the head of the rest.
abbrev pub goes_on : Text → Bool
goes_on [] = false
goes_on (next_ch ∷ rest) = not (next_ch == topic_sep)

-- The loop of `verifySubFilterInternal` at `pos`, over what is left of the filter. `none` is the
-- `lastSep` of -1.
unfoldable pub sub_filter_from : ℕ → Option ℕ → Text → Bool
sub_filter_from pos last_sep [] = true
sub_filter_from pos last_sep (ch ∷ rest) =
    let next = sub_filter_from (pos + 1) (if ch == topic_sep then some pos else last_sep) rest in
    if ch == topic_sep
    then next
    else if ch == multi_level_wildcard
    then (if not (is_empty rest)
        then false
        else if pos == 0
        then true
        else follows_sep pos last_sep)
    else if not (ch == single_level_wildcard)
    then next
    else if goes_on rest
    then false
    else if pos == 0
    then next
    else if not (follows_sep pos last_sep)
    then false
    else next

unfoldable pub verify_sub_filter_internal : Config → ConfigState → Text → Bool
verify_sub_filter_internal cfg state filter =
    if not cfg.has_topic_format_verification
    then false
    else if not state.verify_outgoing_topic
    then true
    else if is_empty filter
    then false
    else sub_filter_from 0 none filter

unfoldable pub verify_sub_filter : Config → ConfigState → Text → Bool
unfolding verify_sub_filter_internal
verify_sub_filter cfg state filter =
    if cfg.has_topic_format_verification then verify_sub_filter_internal cfg state filter else true

-- The loop of `verifyPubTopicInternal`.
unfoldable pub pub_topic_from : Text → Bool
pub_topic_from [] = true
pub_topic_from (ch ∷ rest) =
    let next = pub_topic_from rest in
    if (ch == multi_level_wildcard) || (ch == single_level_wildcard) then false else next

abbrev pub starts_with_dollar : Text → Bool
starts_with_dollar [] = false
starts_with_dollar (ch ∷ rest) = ch == b'$'

unfoldable pub verify_pub_topic_internal : Config → ConfigState → Text → Bool → Bool
verify_pub_topic_internal cfg state topic outgoing =
    if not cfg.has_topic_format_verification
    then false
    else if outgoing && not state.verify_outgoing_topic
    then true
    else if not outgoing && not state.verify_incoming_topic
    then true
    else if is_empty topic
    then false
    else if outgoing && starts_with_dollar topic
    then false
    else pub_topic_from topic

unfoldable pub verify_pub_topic : Config → ConfigState → Text → Bool → Bool
unfolding verify_pub_topic_internal
verify_pub_topic cfg state topic outgoing =
    if cfg.has_topic_format_verification
    then verify_pub_topic_internal cfg state topic outgoing
    else true

-- `==` of two strings
unfoldable pub text_eq : Text → Text → Bool
text_eq [] [] = true
text_eq [] (y ∷ ys) = false
text_eq (x ∷ xs) [] = false
text_eq (x ∷ xs) (y ∷ ys) = (x == y) && text_eq xs ys

-- `find_first_of("/")`, `none` for `npos`
unfoldable pub find_sep : Text → Option ℕ
find_sep [] = none
find_sep (c ∷ cs) =
    let next = find_sep cs in
    if c == topic_sep then some 0 else elim next [ none ↦ none | some i ↦ some (suc i) ]

-- `filter[0] == c`; the text goes on in a zero-terminated string, so at its end there is no match.
abbrev pub head_is : ℕ → Text → Bool
head_is c [] = false
head_is c (x ∷ xs) = x == c

-- `isTopicMatch`; each recursive call is on a shorter filter, and so is given less fuel.
unfoldable pub is_topic_match_from : ℕ → Text → Text → Bool
is_topic_match_from zero filter topic = false
is_topic_match_from (suc fuel) filter topic =
    if (length filter == 1) && head_is b'#' filter
    then true
    else if is_empty topic
    then is_empty filter
    else elim (find_sep filter) [
      | none ↦ elim (find_sep topic) [
        | some topic_sep_pos ↦ false
        | none ↦ head_is b'+' filter && (length filter == 1) || text_eq filter topic
      ]
      | some filter_sep_pos ↦ elim (find_sep topic) [
        | some topic_sep_pos ↦
            let rest =
              is_topic_match_from fuel (drop (suc filter_sep_pos) filter)
                (drop (suc topic_sep_pos) topic) in
            if head_is b'+' filter && (filter_sep_pos == 1)
              || text_eq (take filter_sep_pos filter) (take topic_sep_pos topic)
            then rest
            else false
        | none ↦
            let rest = is_topic_match_from fuel (drop (suc filter_sep_pos) filter) [] in
            if leb (length filter) (filter_sep_pos + 1)
            then false
            else if head_is b'+' filter && (filter_sep_pos == 1)
                || text_eq (take filter_sep_pos filter) topic
            then rest
            else false
      ]
    ]

unfoldable pub is_topic_match : Text → Text → Bool
is_topic_match filter topic = is_topic_match_from (suc (length filter)) filter topic
