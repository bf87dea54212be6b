-- ===== src/Fuzz/Topic/Characters.antt =====
-- The loop over the wildcards of a filter, character by character.
use cc_mqtt311_libs.Base.{
  ℕ, zero, suc, ◌<◌, ◌≡◌, refl, ◌∙◌, true, false, ◌||◌, inl, inr, none, some, [], ◌∷◌, ◌++◌, ◌==◌,
  if◌then◌else◌, length, Bool-cases, Option-cases, arith,
}
use cc_mqtt311_libs.State.{Text}
use cc_mqtt311_libs.Fuzz.Topic.{find_wildcard, hash_word, plus_word, topic_from}

-- The same, character by character.
unfoldable pub by_character : Text → Text
by_character [] = []
by_character (c ∷ cs) =
    let rest = by_character cs in
    if c == b'#' then hash_word else if c == b'+' then plus_word ++ rest else c ∷ rest

topic_from-empty : (fuel : ℕ) → topic_from (suc fuel) [] ≡ []
unfolding topic_from find_wildcard
topic_from-empty fuel = refl

find_wildcard-here :
    (c : ℕ) (cs : Text) → ((c == b'#') || (c == b'+')) ≡ true → find_wildcard (c ∷ cs) ≡ some 0
unfolding find_wildcard
find_wildcard-here c cs e = rw (e, find_wildcard) refl

find_wildcard-none :
    (c : ℕ) (cs : Text)
    → ((c == b'#') || (c == b'+')) ≡ false
    → find_wildcard cs ≡ none
    → find_wildcard (c ∷ cs) ≡ none
unfolding find_wildcard
find_wildcard-none c cs e f = rw (e, find_wildcard) (rw f refl)

find_wildcard-later :
    (c i : ℕ) (cs : Text)
    → ((c == b'#') || (c == b'+')) ≡ false
    → find_wildcard cs ≡ some i
    → find_wildcard (c ∷ cs) ≡ some (suc i)
unfolding find_wildcard
find_wildcard-later c i cs e f = rw (e, find_wildcard) (rw f refl)

-- A character that is no wildcard is passed over.
topic_from-plain :
    (fuel c : ℕ) (cs : Text)
    → ((c == b'#') || (c == b'+')) ≡ false
    → topic_from (suc fuel) (c ∷ cs) ≡ c ∷ topic_from (suc fuel) cs
unfolding topic_from
topic_from-plain fuel c cs e = elim (Option-cases (find_wildcard cs)) [
  | inl f ↦ rw (find_wildcard-none c cs e f, f, topic_from) refl
  | inr (i, f) ↦ rw (find_wildcard-later c i cs e f, f, topic_from) refl
]

topic_from-wildcard :
    (fuel c : ℕ) (cs : Text)
    → ((c == b'#') || (c == b'+')) ≡ true
    → topic_from (suc fuel) (c ∷ cs)
      ≡ (if c == b'#' then hash_word else plus_word ++ topic_from fuel cs)
unfolding topic_from
topic_from-wildcard fuel c cs e = rw (find_wildcard-here c cs e, topic_from) refl

pub topic_from-by_character :
    (fuel : ℕ) (t : Text) → length t < fuel → topic_from fuel t ≡ by_character t
unfolding by_character
topic_from-by_character zero t h = absurd (omega (arith, h))
topic_from-by_character (suc fuel) [] h = topic_from-empty fuel
topic_from-by_character (suc fuel) (c ∷ cs) h = elim (Bool-cases (c == b'#')) [
  | inl e ↦ topic_from-wildcard fuel c cs (rw e refl) ∙ rw e refl
  | inr e ↦ elim (Bool-cases (c == b'+')) [
    | inl f ↦
        let rest = topic_from-by_character fuel cs (omega (arith, h)) in
        topic_from-wildcard fuel c cs (rw (e, f) refl) ∙ rw (e, f) (rw rest refl)
    | inr f ↦
        let rest = topic_from-by_character (suc fuel) cs (omega (arith, h)) in
        topic_from-plain fuel c cs (rw (e, f) refl) ∙ rw (e, f) (rw rest refl)
  ]
]
