-- ===== src/Topics/Trailing.antt =====
-- Where `isTopicMatch` and MQTT part: a topic whose last level is empty.
use cc_mqtt311_libs.Base.{
  ℕ, suc, ◌≡◌, refl, ◌∙◌, Bool, true, false, ◌&&◌, ◌||◌, none, some, [], ◌∷◌, ◌++◌, is_empty,
  length, take, drop, arith,
}
use cc_mqtt311_libs.State.{Text}
use cc_mqtt311_libs.Topics.{text_eq, find_sep, is_topic_match_from, is_topic_match}
use cc_mqtt311_libs.Topics.Levels.{levels, level_list, is_char, level_matches, matches}
use cc_mqtt311_libs.Topics.Match.{is_hash, find_sep-some, step_both}

find_sep-append : (p r : Text) → find_sep p ≡ none → find_sep (p ++ b'/' ∷ r) ≡ some (length p)
unfolding find_sep
find_sep-append [] r h = refl
find_sep-append (c ∷ cs) r h = ground (arith, find_sep-append cs r)

take-length : (p r : Text) → take (length p) (p ++ r) ≡ p
take-length [] r = refl
take-length (c ∷ cs) r = rw (take-length cs r)

drop-length : (p : Text) (c : ℕ) (r : Text) → drop (suc (length p)) (p ++ c ∷ r) ≡ r
drop-length [] c r = refl
drop-length (d ∷ ds) c r = drop-length ds c r

text_eq_refl : (t : Text) → text_eq t t ≡ true
unfolding text_eq
text_eq_refl [] = refl
text_eq_refl (c ∷ cs) = ground (arith, text_eq_refl cs)

same_matches : (p : Text) → level_matches p p ≡ true
same_matches p = ground (arith, text_eq_refl p)

not_one : (p r : Text) (c d : ℕ) → is_hash (p ++ c ∷ d ∷ r) ≡ false
not_one [] r c d = ground arith
not_one (x ∷ []) r c d = ground arith
not_one (x ∷ y ∷ p) r c d = ground arith

not_empty : (p r : Text) (c : ℕ) → is_empty (p ++ c ∷ r) ≡ false
not_empty [] r c = refl
not_empty (x ∷ p) r c = refl

plus_end : (n : ℕ) → is_topic_match_from (suc n) (b'+' ∷ []) [] ≡ false
unfolding is_topic_match_from
plus_end n = refl

more_fuel : (p : Text) → (n : ℕ) × (length (p ++ b'/' ∷ b'+' ∷ []) ≡ suc n)
more_fuel [] = (1, refl)
more_fuel (c ∷ p) = (suc (more_fuel p).0, ground (arith, (more_fuel p).1))

levels-append : (p r : Text) → find_sep p ≡ none → levels (p ++ b'/' ∷ r) ≡ (p, level_list r)
levels-append p r h =
    let s = find_sep-some (p ++ b'/' ∷ r) (length p) (find_sep-append p r h) in
    rw (take-length p (b'/' ∷ r), drop-length p b'/' r) at (s.0)

-- For every level p with no separator in it, MQTT matches the filter p/+ with the topic p/, and
-- the program does not.
pub trailing_unmatched :
    (p : Text)
    → find_sep p ≡ none
    → (is_topic_match (p ++ b'/' ∷ b'+' ∷ []) (p ++ b'/' ∷ []) ≡ false)
      × (matches (level_list (p ++ b'/' ∷ b'+' ∷ [])) (level_list (p ++ b'/' ∷ [])) ≡ true)
unfolding is_topic_match
trailing_unmatched p h = (
  step_both (length (p ++ b'/' ∷ b'+' ∷ [])) (p ++ b'/' ∷ b'+' ∷ []) (p ++ b'/' ∷ [])
        (not_one p [] b'/' b'+') (not_empty p [] b'/') (length p) (length p)
        (find_sep-append p (b'+' ∷ []) h) (find_sep-append p [] h)
      ∙ (rw
          (
            drop-length p b'/' (b'+' ∷ []),
            drop-length p b'/' [],
            (more_fuel p).1,
            plus_end (more_fuel p).0,
          )
          (and_false (
            level_matches (take (length p) (p ++ b'/' ∷ b'+' ∷ []))
              (take (length p) (p ++ b'/' ∷ []))))),
  rw (levels-append p (b'+' ∷ []) h, levels-append p [] h, same_matches p)
      (or_true (is_char b'#' p && false)),
)
  where
    and_false : (b : Bool) → (b && false) ≡ false
    and_false true = refl
    and_false false = refl

    or_true : (b : Bool) → (b || true) ≡ true
    or_true true = refl
    or_true false = refl
