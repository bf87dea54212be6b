-- ===== src/Topics/Filter.antt =====
-- `Op::verifySubFilterInternal` accepts the filters that MQTT allows.
use cc_mqtt311_libs.Base.{
  ℕ, ◌+◌, ◌<◌, ◌≡◌, refl, sym, ◌∙◌, inl, inr, Bool-cases, Bool, true, false, not, ◌&&◌, ◌||◌,
  Option, none, some, List, [], ◌∷◌, ◌==◌, if◌then◌else◌, is_empty, arith,
}
use cc_mqtt311_libs.State.{Text, ConfigState}
use cc_mqtt311_libs.Config.{Config}
use cc_mqtt311_libs.Topics.{sub_filter_from, verify_sub_filter, follows_sep, goes_on}
use cc_mqtt311_libs.Topics.Levels.{levels, is_plain, valid_levels, is_wildcard}

-- Whether a level begins at `pos`.
abbrev at_start : ℕ → Option ℕ → Bool
at_start pos last_sep = (pos == 0) || follows_sep pos last_sep

abbrev Before : Option ℕ → ℕ → Type 0
Before none pos = Unit
Before (some p) pos = p < pos

-- Inside a level the rest of it must be plain.
abbrev valid_rest : Text → List Text → Bool
valid_rest l [] = is_plain l
valid_rest l (m ∷ ls) = is_plain l && valid_levels m ls

abbrev expected : Bool → Text → Bool
expected start t =
    if start then valid_levels (levels t).0 (levels t).1 else valid_rest (levels t).0 (levels t).1

-- What the loop does at one character, by its kind, and what the description says of it.
at_sep :
    (pos : ℕ) (last_sep : Option ℕ) (start : Bool) (c : ℕ) (rest : Text)
    → c ≡ b'/'
    → (sub_filter_from pos last_sep (c ∷ rest) ≡ sub_filter_from (pos + 1) (some pos) rest)
      × (expected start (c ∷ rest) ≡ expected true rest)
unfolding sub_filter_from
at_sep pos last_sep true c rest h = (ground arith, ground arith)
at_sep pos last_sep false c rest h = (ground arith, ground arith)

at_other :
    (pos : ℕ) (last_sep : Option ℕ) (start : Bool) (c : ℕ) (rest : Text)
    → (c == b'/') ≡ false
    → is_wildcard c ≡ false
    → (sub_filter_from pos last_sep (c ∷ rest) ≡ sub_filter_from (pos + 1) last_sep rest)
      × (expected start (c ∷ rest) ≡ expected false rest)
unfolding sub_filter_from
at_other pos last_sep true c rest h k = (ground arith, ground arith)
at_other pos last_sep false c rest h k = (ground arith, ground arith)

at_hash :
    (pos : ℕ) (last_sep : Option ℕ) (c : ℕ) (rest : Text)
    → c ≡ b'#'
    → sub_filter_from pos last_sep (c ∷ rest) ≡ (is_empty rest && at_start pos last_sep)
unfolding sub_filter_from
at_hash pos last_sep c rest h = ground arith

levels_empty : (t : Text) → (is_empty (levels t).0 && is_empty (levels t).1) ≡ is_empty t
levels_empty [] = refl
levels_empty (c ∷ cs) = elim (Bool-cases (c == b'/')) [ inl e ↦ rw e | inr e ↦ rw e ]

levels_cons :
    (c : ℕ) (t : Text) → (c == b'/') ≡ false → levels (c ∷ t) ≡ (c ∷ (levels t).0, (levels t).1)
levels_cons c t h = rw h

hash_valid :
    (c : ℕ) (l : Text) (ls : List Text)
    → c ≡ b'#'
    → valid_levels (c ∷ l) ls ≡ (is_empty l && is_empty ls)
hash_valid c [] [] h = ground arith
hash_valid c [] (m ∷ ls) h = ground arith
hash_valid c (d ∷ l) [] h = ground arith
hash_valid c (d ∷ l) (m ∷ ls) h = ground arith

hash_rest : (c : ℕ) (l : Text) (ls : List Text) → c ≡ b'#' → valid_rest (c ∷ l) ls ≡ false
hash_rest c l [] h = ground arith
hash_rest c l (m ∷ ls) h = ground arith

hash_expected :
    (start : Bool) (c : ℕ) (rest : Text)
    → c ≡ b'#'
    → expected start (c ∷ rest) ≡ (is_empty rest && start)
hash_expected true c rest h =
    rw (levels_cons c rest (ground arith))
      (ground (arith, hash_valid c (levels rest).0 (levels rest).1 h, levels_empty rest))
hash_expected false c rest h =
    rw (levels_cons c rest (ground arith))
      (ground (arith, hash_rest c (levels rest).0 (levels rest).1 h))

at_plus :
    (pos : ℕ) (last_sep : Option ℕ) (c : ℕ) (rest : Text)
    → c ≡ b'+'
    → sub_filter_from pos last_sep (c ∷ rest)
      ≡ (not (goes_on rest) && (at_start pos last_sep && sub_filter_from (pos + 1) last_sep rest))
unfolding sub_filter_from
at_plus pos last_sep c rest h = ground arith

plus_expected :
    (start : Bool) (c : ℕ) (rest : Text)
    → c ≡ b'+'
    → expected start (c ∷ rest) ≡ (not (goes_on rest) && (start && expected false rest))
plus_expected true c [] h = ground arith
plus_expected true c (d ∷ r) h = ground arith
plus_expected false c [] h = ground arith
plus_expected false c (d ∷ r) h = ground arith

start_after_sep : (pos : ℕ) → at_start (pos + 1) (some pos) ≡ true
start_after_sep pos = ground arith

inside_level :
    (pos : ℕ) (last_sep : Option ℕ) → Before last_sep pos → at_start (pos + 1) last_sep ≡ false
inside_level pos none b = ground arith
inside_level pos (some p) b = ground arith

Before-suc : (last_sep : Option ℕ) (pos : ℕ) → Before last_sep pos → Before last_sep (pos + 1)
Before-suc none pos b = tt
Before-suc (some p) pos b = omega arith

sub_filter_from_lem :
    (pos : ℕ) (last_sep : Option ℕ) (t : Text)
    → Before last_sep pos
    → sub_filter_from pos last_sep t ≡ expected (at_start pos last_sep) t
unfolding sub_filter_from
sub_filter_from_lem pos last_sep [] b = ground arith
sub_filter_from_lem pos last_sep (c ∷ rest) b =
    let after_sep = sub_filter_from_lem (pos + 1) (some pos) rest (omega arith) in
    let inside = sub_filter_from_lem (pos + 1) last_sep rest (Before-suc last_sep pos b) in
    let inside' : sub_filter_from (pos + 1) last_sep rest ≡ expected false rest =
      rw (inside_level pos last_sep b) at inside in
    let after_sep' : sub_filter_from (pos + 1) (some pos) rest ≡ expected true rest =
      rw (start_after_sep pos) at after_sep in
    elim (Bool-cases (c == b'/')) [
      | inl e ↦
          let s = at_sep pos last_sep (at_start pos last_sep) c rest (ground arith) in
          s.0 ∙ after_sep' ∙ sym s.1
      | inr ne ↦ elim (Bool-cases (is_wildcard c)) [
        | inr plain ↦
            let s = at_other pos last_sep (at_start pos last_sep) c rest ne plain in
            s.0 ∙ inside' ∙ sym s.1
        | inl wild ↦ elim (Bool-cases (c == b'#')) [
          | inl e ↦
              at_hash pos last_sep c rest (ground arith)
              ∙ sym (hash_expected (at_start pos last_sep) c rest (ground arith))
          | inr other ↦ rw (
            at_plus pos last_sep c rest (ground arith),
            plus_expected (at_start pos last_sep) c rest (ground arith),
            inside',
          )
        ]
      ]
    ]

-- With the format checks built in and switched on, a filter is accepted exactly if it is not empty
-- and its levels are plain or + alone, with # alone allowed as the last one; otherwise every
-- filter is accepted.
pub verify_sub_filter_lem :
    (cfg : Config) (state : ConfigState) (filter : Text)
    → verify_sub_filter cfg state filter ≡ (
        not (cfg.has_topic_format_verification && state.verify_outgoing_topic)
        || not (is_empty filter) && valid_levels (levels filter).0 (levels filter).1)
unfolding verify_sub_filter
verify_sub_filter_lem cfg state filter = ground (arith, sub_filter_from_lem 0 none filter tt)
