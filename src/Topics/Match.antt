-- ===== src/Topics/Match.antt =====
-- `isTopicMatch` against the matching of levels, and against that of MQTT.
use cc_mqtt311_libs.Base.{
  ℕ, zero, suc, ◌+◌, ◌<◌, ◌≡◌, refl, sym, ap, ◌∙◌, inl, inr, Bool-cases, Option-cases, Bool, true,
  false, not, ◌&&◌, none, some, List, [], ◌∷◌, leb, ◌==◌, is_empty, length, take, drop, arith,
}
use cc_mqtt311_libs.State.{Text}
use cc_mqtt311_libs.Topics.{find_sep, head_is, is_topic_match_from, is_topic_match}
use cc_mqtt311_libs.Topics.Levels.{
  levels, level_list, is_char, level_matches, matches, is_kept_apart, mqtt_matches,
}

-- The text is not empty and its last character is no separator.
abbrev pub ends_in_level : Text → Bool
ends_in_level [] = false
ends_in_level (c ∷ []) = not (c == b'/')
ends_in_level (c ∷ d ∷ r) = ends_in_level (d ∷ r)

-- One level, or a first level up to a separator and the levels of what follows it.
find_sep-none : (t : Text) → find_sep t ≡ none → levels t ≡ (t, [])
unfolding find_sep
find_sep-none [] h = refl
find_sep-none (c ∷ cs) h = ground (arith, find_sep-none cs)

sep_zero : (c : ℕ) (cs : Text) → find_sep (c ∷ cs) ≡ some zero → (c == b'/') ≡ true
unfolding find_sep
sep_zero c cs h = ground arith

sep_suc :
    (c : ℕ) (cs : Text) (i : ℕ)
    → find_sep (c ∷ cs) ≡ some (suc i)
    → ((c == b'/') ≡ false) × (find_sep cs ≡ some i)
unfolding find_sep
sep_suc c cs i h = ground arith

pub find_sep-some :
    (t : Text) (i : ℕ)
    → find_sep t ≡ some i
    → (levels t ≡ (take i t, level_list (drop (suc i) t))) × (i < length t)
unfolding find_sep
find_sep-some [] i h = cc
find_sep-some (c ∷ cs) zero h = rw (sep_zero c cs h) (refl, omega arith)
find_sep-some (c ∷ cs) (suc i) h =
    let s = sep_suc c cs i h in
    let r = find_sep-some cs i s.1 in rw (s.0, r.0) (refl, omega (arith, r.1))

ends_drop :
    (t : Text) (i : ℕ)
    → find_sep t ≡ some i
    → ends_in_level t ≡ true
    → ends_in_level (drop (suc i) t) ≡ true
unfolding find_sep
ends_drop [] i h e = cc
ends_drop (c ∷ []) i h e = ground arith
ends_drop (c ∷ d ∷ r) zero h e = e
ends_drop (c ∷ d ∷ r) (suc i) h e = ends_drop (d ∷ r) i (sep_suc c (d ∷ r) i h).1 e

length-drop : (t : Text) (i : ℕ) → i < length t → length (drop (suc i) t) + suc i ≡ length t
length-drop [] i h = elim h [ ]
length-drop (c ∷ cs) zero h = omega arith
length-drop (c ∷ cs) (suc i) h = omega (arith, length-drop cs i (omega arith))

abbrev pub is_hash : Text → Bool
is_hash f = (length f == 1) && head_is b'#' f

hash_levels : (f : Text) → is_hash f ≡ (is_char b'#' (levels f).0 && is_empty (levels f).1)
hash_levels [] = refl
hash_levels (c ∷ []) = ground arith
hash_levels (c ∷ d ∷ r) = ground arith

-- The test for `+` in the code reads the first character and the length of the level.
plus_whole : (f : Text) → (head_is b'+' f && (length f == 1)) ≡ is_char b'+' f
plus_whole [] = refl
plus_whole (c ∷ []) = ground arith
plus_whole (c ∷ d ∷ r) = ground arith

plus_level :
    (f : Text) (i : ℕ) → i < length f → (head_is b'+' f && (i == 1)) ≡ is_char b'+' (take i f)
plus_level [] i h = elim h [ ]
plus_level (c ∷ cs) zero h = ground arith
plus_level (c ∷ cs) (suc zero) h = ground arith
plus_level (c ∷ []) (suc (suc i)) h = absurd (omega arith)
plus_level (c ∷ d ∷ r) (suc (suc i)) h = ground arith

module _ (n : ℕ) (f t : Text) (not_hash : is_hash f ≡ false) (more : is_empty t ≡ false) where
  step_last :
      find_sep f ≡ none → find_sep t ≡ none → is_topic_match_from (suc n) f t ≡ level_matches f t
  unfolding is_topic_match_from
  step_last p q = ground (arith, plus_whole f)

  step_short :
      (j : ℕ) → find_sep f ≡ none → find_sep t ≡ some j → is_topic_match_from (suc n) f t ≡ false
  unfolding is_topic_match_from
  step_short j p q = ground arith

  pub step_both :
      (i j : ℕ)
      → find_sep f ≡ some i
      → find_sep t ≡ some j
      → is_topic_match_from (suc n) f t ≡ (
          level_matches (take i f) (take j t)
          && is_topic_match_from n (drop (suc i) f) (drop (suc j) t))
  unfolding is_topic_match_from
  step_both i j p q = ground (arith, plus_level f i (find_sep-some f i p).1)

  step_long :
      (i : ℕ)
      → find_sep f ≡ some i
      → find_sep t ≡ none
      → is_topic_match_from (suc n) f t ≡ (
          not (leb (length f) (i + 1))
          && (level_matches (take i f) t && is_topic_match_from n (drop (suc i) f) []))
  unfolding is_topic_match_from
  step_long i p q = ground (arith, plus_level f i (find_sep-some f i p).1)

-- Nothing of the topic is left.
match_end : (n : ℕ) (f : Text) → is_empty f ≡ false → is_topic_match_from (suc n) f [] ≡ is_hash f
unfolding is_topic_match_from
match_end n f h = ground arith

ends_more : (t : Text) → ends_in_level t ≡ true → is_empty t ≡ false
ends_more [] h = cc
ends_more (c ∷ cs) h = refl

-- `leb` with its difference, for the trailing separator of a filter.
trailing : (f : Text) (i : ℕ) → i < length f → leb (length f) (i + 1) ≡ is_empty (drop (suc i) f)
trailing f i h = let e = length-drop f i h in empty_by_length (length f) i (drop (suc i) f) e
  where
    empty_by_length : (n i : ℕ) (r : Text) → length r + suc i ≡ n → leb n (i + 1) ≡ is_empty r
    empty_by_length n i [] e = ground arith
    empty_by_length n i (c ∷ cs) e = ground arith

matches_end :
    (n : ℕ) (r : Text)
    → length r < n
    → (not (is_empty r) && is_topic_match_from n r []) ≡ matches (level_list r) []
matches_end zero r h = absurd (omega arith)
matches_end (suc n) [] h = refl
matches_end (suc n) (c ∷ cs) h = match_end n (c ∷ cs) refl ∙ hash_levels (c ∷ cs)

join_and : (a b c d : Bool) → (a && c) ≡ d → (a && (b && c)) ≡ (b && d)
join_and a b c d h = ground arith

hash_round : (n : ℕ) (f t : Text) → is_hash f ≡ true → is_topic_match_from (suc n) f t ≡ true
unfolding is_topic_match_from
hash_round n f t h = ground arith

pub matches_nonhash :
    (l : Text) (ls : List Text) (m : Text) (ms : List Text)
    → (is_char b'#' l && is_empty ls) ≡ false
    → matches (l ∷ ls) (m ∷ ms) ≡ (level_matches l m && matches ls ms)
matches_nonhash l ls m ms h = rw h

and_true : (b : Bool) → b ≡ (b && true)
and_true true = refl
and_true false = refl

and_false : (b : Bool) → false ≡ (b && false)
and_false true = refl
and_false false = refl

is_topic_match_from_lem :
    (n : ℕ) (f t : Text)
    → length f < n
    → ends_in_level t ≡ true
    → is_topic_match_from n f t ≡ matches (level_list f) (level_list t)
is_topic_match_from_lem zero f t h e = absurd (omega arith)
is_topic_match_from_lem (suc n) f t h e = elim (Bool-cases (is_hash f)) [
  | inl hash ↦ let g = sym (hash_levels f) ∙ hash in hash_round n f t hash ∙ sym (rw g)
  | inr nh ↦
      let g = sym (hash_levels f) ∙ nh in
      let more = ends_more t e in
      let by_levels = sym (matches_nonhash (levels f).0 (levels f).1 (levels t).0 (levels t).1 g) in
      elim (Option-cases (find_sep f)) [
        | inl fn ↦ elim (Option-cases (find_sep t)) [
          | inl tn ↦
              step_last n f t nh more fn tn
              ∙ rw (find_sep-none f fn, find_sep-none t tn) (and_true (level_matches f t))
              ∙ by_levels
          | inr (j, ts) ↦
              step_short n f t nh more j fn ts
              ∙ rw (find_sep-none f fn, (find_sep-some t j ts).0)
                  (and_false (level_matches f (take j t)))
              ∙ by_levels
        ]
        | inr (i, fs) ↦
            let split = find_sep-some f i fs in
            let f' = drop (suc i) f in
            let shorter : length f' < n = omega (arith, length-drop f i split.1) in
            elim (Option-cases (find_sep t)) [
              | inl tn ↦
                  step_long n f t nh more i fs tn
                  ∙ rw (split.0, find_sep-none t tn, trailing f i split.1)
                      (join_and (not (is_empty f')) (level_matches (take i f) t)
                        (is_topic_match_from n f' []) (matches (level_list f') [])
                        (matches_end n f' shorter))
                  ∙ by_levels
              | inr (j, ts) ↦
                  let t' = drop (suc j) t in
                  step_both n f t nh more i j fs ts
                  ∙ (rw (
                    split.0,
                    (find_sep-some t j ts).0,
                    is_topic_match_from_lem n f' t' shorter (ends_drop t j ts e),
                  ))
                  ∙ by_levels
            ]
      ]
]

-- On a topic that is not empty and does not end in /, for every filter: the matching of the
-- program is that of the levels, where + stands for one level and a last # for any number of them;
-- and MQTT matches the two exactly if the program does and it is not the case that the filter
-- begins with a wildcard and the topic with $.
pub is_topic_match_lem :
    (filter topic : Text)
    → ends_in_level topic ≡ true
    → (is_topic_match filter topic ≡ matches (level_list filter) (level_list topic))
      × (mqtt_matches filter topic
          ≡ (not (is_kept_apart filter topic) && is_topic_match filter topic))
unfolding is_topic_match
is_topic_match_lem filter topic e =
    let by_levels = is_topic_match_from_lem (suc (length filter)) filter topic (omega arith) e in
    (by_levels, ap (λ m. not (is_kept_apart filter topic) && m) (sym by_levels))
