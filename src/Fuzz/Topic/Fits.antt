-- ===== src/Fuzz/Topic/Fits.antt =====
-- The topic made from a filter fits the filter.
use mathlib.Core.Path.{subst}
use cc_mqtt311_libs.Base.{
  ℕ, suc, ◌≡◌, refl, ap, ◌∙◌, Bool, true, false, ◌&&◌, ◌||◌, inl, inr, List, [], ◌∷◌, ◌++◌, ◌==◌,
  ==_iff, length, Bool-cases, arith,
}
use cc_mqtt311_libs.State.{Text}
use cc_mqtt311_libs.Topics.{text_eq}
use cc_mqtt311_libs.Topics.Order.{text_eq_iff}
use cc_mqtt311_libs.Topics.Levels.{
  levels, level_list, is_wildcard, is_plain, valid_levels, plain_levels, matches,
}
use cc_mqtt311_libs.Fuzz.Topic.{plus_word, pub_topic_from_filter}
use cc_mqtt311_libs.Fuzz.Topic.Characters.{by_character, topic_from-by_character}

text_eq_refl : (t : Text) → text_eq t t ≡ true
text_eq_refl t = (text_eq_iff t t).1 refl

-- The levels of a filter that is valid, and of the topic made from it.
record FitsLevels (l : Text) (ls : List Text) (l' : Text) (ls' : List Text) : Type 0 where
  plain_stays : is_plain l ≡ true → l' ≡ l
  rest_matches : matches ls ls' ≡ true
  is_topic : plain_levels l' ls' ≡ true

or_last : (a c d e : Bool) → d ≡ true → e ≡ true → (a || (c || d) && e) ≡ true
or_last a c d e h k = ground (arith, h, k)

-- A level that is a wildcard.
wild :
    (l : Text) (ls : List Text) (l' : Text) (ls' : List Text)
    → is_plain l ≡ false
    → valid_levels l ls ≡ true
    → matches ls ls' ≡ true
    → matches (l ∷ ls) (l' ∷ ls') ≡ true
wild l [] l' ls' p v m = ground (arith, p, v, m)
wild l (k ∷ ls) l' ls' p v m = ground (arith, p, v, m)

FitsLevels-matches :
    (l : Text) (ls : List Text) (l' : Text) (ls' : List Text)
    → valid_levels l ls ≡ true
    → FitsLevels l ls l' ls'
    → matches (l ∷ ls) (l' ∷ ls') ≡ true
FitsLevels-matches l ls l' ls' v f = elim (Bool-cases (is_plain l)) [
  | inl p ↦
      let same = ap (text_eq l) (f.plain_stays p) ∙ text_eq_refl l in
      or_last _ _ _ _ same f.rest_matches
  | inr p ↦ wild l ls l' ls' p v f.rest_matches
]

levels-sep :
    (c : ℕ) (cs : Text) → (c == b'/') ≡ true → levels (c ∷ cs) ≡ ([], (levels cs).0 ∷ (levels cs).1)
levels-sep c cs e = rw (e, levels) refl

levels-char :
    (c : ℕ) (cs : Text) → (c == b'/') ≡ false → levels (c ∷ cs) ≡ (c ∷ (levels cs).0, (levels cs).1)
levels-char c cs e = rw (e, levels) refl

by_character-other :
    (c : ℕ) (cs : Text)
    → (c == b'#') ≡ false
    → (c == b'+') ≡ false
    → by_character (c ∷ cs) ≡ c ∷ by_character cs
unfolding by_character
by_character-other c cs h p = rw (h, p, by_character) refl

-- The levels after a separator.
FitsLevels-sep :
    (l : Text) (ls : List Text) (l' : Text) (ls' : List Text)
    → valid_levels l ls ≡ true
    → FitsLevels l ls l' ls'
    → FitsLevels [] (l ∷ ls) [] (l' ∷ ls')
FitsLevels-sep l ls l' ls' v f = record {
  plain_stays = λ h. refl;
  rest_matches = FitsLevels-matches l ls l' ls' v f;
  is_topic = f.is_topic;
}

plain_before :
    (c : ℕ) (l : Text) (ls : List Text)
    → is_wildcard c ≡ false
    → plain_levels l ls ≡ true
    → plain_levels (c ∷ l) ls ≡ true
plain_before c l [] n h = ground (arith, n, h)
plain_before c l (k ∷ ls) n h = ground (arith, n, h)

plus_before :
    (l : Text) (ls : List Text) → plain_levels l ls ≡ true → plain_levels (plus_word ++ l) ls ≡ true
plus_before l [] h = h
plus_before l (k ∷ ls) h = h

-- A character before a level.
FitsLevels-char :
    (c : ℕ) (l : Text) (ls : List Text) (l' : Text) (ls' : List Text)
    → is_wildcard c ≡ false
    → FitsLevels l ls l' ls'
    → FitsLevels (c ∷ l) ls (c ∷ l') ls'
FitsLevels-char c l ls l' ls' n f = record {
  plain_stays = λ h. ap (λ t. c ∷ t) (f.plain_stays (ground (arith, n, h)));
  rest_matches = f.rest_matches;
  is_topic = plain_before c l' ls' n f.is_topic;
}

-- `+` is a level of its own.
FitsLevels-plus :
    (l : Text) (ls : List Text) (l' : Text) (ls' : List Text)
    → valid_levels (b'+' ∷ l) ls ≡ true
    → FitsLevels l ls l' ls'
    → FitsLevels (b'+' ∷ l) ls (plus_word ++ l') ls'
FitsLevels-plus [] ls l' ls' v f = record {
  plain_stays = λ h. cc;
  rest_matches = f.rest_matches;
  is_topic = plus_before l' ls' f.is_topic;
}
FitsLevels-plus (c ∷ l) [] l' ls' v f = cc
FitsLevels-plus (c ∷ l) (k ∷ ls) l' ls' v f = cc

-- `#` is the last level.
hash_last : (l : Text) (ls : List Text) → valid_levels (b'#' ∷ l) ls ≡ true → (l ≡ []) × (ls ≡ [])
hash_last [] [] v = (refl, refl)
hash_last (c ∷ l) [] v = cc
hash_last [] (k ∷ ls) v = cc
hash_last (c ∷ l) (k ∷ ls) v = cc

valid_after :
    (c : ℕ) (l : Text) (ls : List Text) → valid_levels (c ∷ l) ls ≡ true → valid_levels l ls ≡ true
valid_after c [] [] v = refl
valid_after c [] (k ∷ ls) v = ground (arith, v)
valid_after c (d ∷ l) [] v = ground (arith, v)
valid_after c (d ∷ l) (k ∷ ls) v = ground (arith, v)

valid_split :
    (c : ℕ) (cs : Text)
    → (c == b'/') ≡ false
    → valid_levels (levels (c ∷ cs)).0 (levels (c ∷ cs)).1 ≡ true
    → valid_levels (c ∷ (levels cs).0) (levels cs).1 ≡ true
valid_split c cs n v =
    subst (λ (p : Text × List Text). valid_levels p.0 p.1 ≡ true) (levels-char c cs n) v

Fitting-hash :
    (c : ℕ) (cs : Text)
    → (c == b'#') ≡ true
    → valid_levels (levels (c ∷ cs)).0 (levels (c ∷ cs)).1 ≡ true
    → FitsLevels
        (levels (c ∷ cs)).0
        (levels (c ∷ cs)).1
        (levels (by_character (c ∷ cs))).0
        (levels (by_character (c ∷ cs))).1
unfolding by_character
Fitting-hash c cs e v =
    let is_hash : c ≡ b'#' = (==_iff c b'#').0 e in
    let no_sep : (c == b'/') ≡ false = ground (arith, e) in
    let split = levels-char c cs no_sep in
    let v' : valid_levels (b'#' ∷ (levels cs).0) (levels cs).1 ≡ true =
      subst (λ k. valid_levels (k ∷ (levels cs).0) (levels cs).1 ≡ true) is_hash
        (valid_split c cs no_sep v) in
    let (short, last) = hash_last (levels cs).0 (levels cs).1 v' in
    rw (split, short, last, e, by_character)
      (record {
        plain_stays = λ h. absurd (ground (arith, e, h));
        rest_matches = refl;
        is_topic = refl;
      })

abbrev Fitting : Text → Type 0
Fitting f =
    FitsLevels (levels f).0 (levels f).1 (levels (by_character f)).0 (levels (by_character f)).1

Fitting-plus :
    (c : ℕ) (cs : Text)
    → (c == b'#') ≡ false
    → (c == b'+') ≡ true
    → valid_levels (c ∷ (levels cs).0) (levels cs).1 ≡ true
    → Fitting cs
    → Fitting (c ∷ cs)
unfolding by_character
Fitting-plus c cs h p v f =
    let is_plus : c ≡ b'+' = (==_iff c b'+').0 p in
    let no_sep : (c == b'/') ≡ false = ground (arith, p) in
    let v' = subst (λ k. valid_levels (k ∷ (levels cs).0) (levels cs).1 ≡ true) is_plus v in
    let fitted =
      FitsLevels-plus (levels cs).0 (levels cs).1 (levels (by_character cs)).0
        (levels (by_character cs)).1 v' f in
    rw (levels-char c cs no_sep, h, p, is_plus, by_character) fitted

fitting : (f : Text) → valid_levels (levels f).0 (levels f).1 ≡ true → Fitting f
unfolding by_character
fitting [] v = record { plain_stays = λ h. refl; rest_matches = refl; is_topic = refl }
fitting (c ∷ cs) v = elim (Bool-cases (c == b'/')) [
  | inl e ↦
      let w = subst (λ (p : Text × List Text). valid_levels p.0 p.1 ≡ true) (levels-sep c cs e) v in
      let no_hash : (c == b'#') ≡ false = ground (arith, e) in
      let no_plus : (c == b'+') ≡ false = ground (arith, e) in
      rw
        (
          levels-sep c cs e,
          by_character-other c cs no_hash no_plus,
          levels-sep c (by_character cs) e,
        )
        (FitsLevels-sep _ _ _ _ w (fitting cs w))
  | inr e ↦
      let w = valid_split c cs e v in
      let f = fitting cs (valid_after c (levels cs).0 (levels cs).1 w) in
      elim (Bool-cases (c == b'#')) [
        | inl h ↦ Fitting-hash c cs h v
        | inr h ↦ elim (Bool-cases (c == b'+')) [
          | inl p ↦ Fitting-plus c cs h p w f
          | inr p ↦
              rw
                (levels-char c cs e, by_character-other c cs h p, levels-char c (by_character cs) e)
                (FitsLevels-char c _ _ _ _ (rw (h, p) refl) f)
        ]
      ]
]

-- The topic that the fuzzing broker makes from a filter whose levels are valid matches the filter
-- level by level, and no level of it has a wildcard.
pub pub_topic_from_filter_lem :
    (filter : Text)
    → valid_levels (levels filter).0 (levels filter).1 ≡ true
    → let topic = pub_topic_from_filter filter in
      (matches (level_list filter) (level_list topic) ≡ true)
      × (plain_levels (levels topic).0 (levels topic).1 ≡ true)
unfolding pub_topic_from_filter
pub_topic_from_filter_lem filter v =
    let f = fitting filter v in
    rw (topic_from-by_character (suc (length filter)) filter (omega arith))
      (FitsLevels-matches _ _ _ _ v f, f.is_topic)
