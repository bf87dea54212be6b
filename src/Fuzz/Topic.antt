-- ===== src/Fuzz/Topic.antt =====
-- `pubTopicFromFilter` of client/afl_fuzz/Generator.cpp: a topic made from a filter.
pub mod Characters
pub mod Fits
use cc_mqtt311_libs.Base.{
  ℕ, zero, suc, Bool, true, false, ◌||◌, Option, none, some, List, [], ◌∷◌, ◌++◌, ◌==◌,
  if◌then◌else◌, length, take, drop,
}
use cc_mqtt311_libs.State.{Text}

-- `find_first_of("#+")`, `none` for `npos`
unfoldable pub find_wildcard : Text → Option ℕ
find_wildcard [] = none
find_wildcard (c ∷ cs) =
    let next = find_wildcard cs in
    if (c == b'#') || (c == b'+') then some 0 else elim next [ none ↦ none | some i ↦ some (suc i) ]

abbrev pub starts_with_hash : Text → Bool
starts_with_hash [] = false
starts_with_hash (c ∷ cs) = c == b'#'

abbrev pub hash_word : Text
hash_word = b'h' ∷ b'a' ∷ b's' ∷ b'h' ∷ []

abbrev pub plus_word : Text
plus_word = b'p' ∷ b'l' ∷ b'u' ∷ b's' ∷ []

-- The loop over the wildcards from a position on.
unfoldable pub topic_from : ℕ → Text → Text
topic_from zero filter = []
topic_from (suc fuel) filter = elim (find_wildcard filter) [
  | none ↦ filter
  | some i ↦
      let rest = topic_from fuel (drop (suc i) filter) in
      take i filter ++ (if starts_with_hash (drop i filter) then hash_word else plus_word ++ rest)
]

-- Each round goes past a wildcard.
unfoldable pub pub_topic_from_filter : Text → Text
pub_topic_from_filter filter = topic_from (suc (length filter)) filter
