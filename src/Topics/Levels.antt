-- ===== src/Topics/Levels.antt =====
-- Topics and filters by their levels, with `/` between them. This is the independent
-- description that the tests of the program are held to.
use cc_mqtt311_libs.Base.{
  ℕ, Bool, true, false, not, ◌&&◌, ◌||◌, List, [], ◌∷◌, ◌==◌, if◌then◌else◌, is_empty,
}
use cc_mqtt311_libs.State.{Text}
use cc_mqtt311_libs.Topics.{text_eq}

-- The first level, and the others.
abbrev pub levels : Text → Text × List Text
levels [] = ([], [])
levels (c ∷ cs) = let (l, ls) = levels cs in if c == b'/' then ([], l ∷ ls) else (c ∷ l, ls)

abbrev pub is_wildcard : ℕ → Bool
is_wildcard c = (c == b'#') || (c == b'+')

-- A level with no wildcard in it.
abbrev pub is_plain : Text → Bool
is_plain [] = true
is_plain (c ∷ cs) = not (is_wildcard c) && is_plain cs

-- The level is this one character.
abbrev pub is_char : ℕ → Text → Bool
is_char k [] = false
is_char k (c ∷ []) = c == k
is_char k (c ∷ d ∷ cs) = false

-- Every level is plain or `+`, and the last one may be `#`.
abbrev pub valid_levels : Text → List Text → Bool
valid_levels l [] = is_plain l || is_char b'+' l || is_char b'#' l
valid_levels l (m ∷ ls) = (is_plain l || is_char b'+' l) && valid_levels m ls

abbrev pub plain_levels : Text → List Text → Bool
plain_levels l [] = is_plain l
plain_levels l (m ∷ ls) = is_plain l && plain_levels m ls

-- `+` stands for any one level.
abbrev pub level_matches : Text → Text → Bool
level_matches f t = is_char b'+' f || text_eq f t

-- A last level `#` stands for any number of levels, none included.
abbrev pub matches : List Text → List Text → Bool
matches [] [] = true
matches [] (t ∷ ts) = false
matches (f ∷ fs) [] = is_char b'#' f && is_empty fs
matches (f ∷ fs) (t ∷ ts) = is_char b'#' f && is_empty fs || level_matches f t && matches fs ts

abbrev pub level_list : Text → List Text
level_list t = (levels t).0 ∷ (levels t).1

abbrev begins : ℕ → Text → Bool
begins k [] = false
begins k (c ∷ cs) = c == k

-- The filter begins with a wildcard and the topic with `$`: MQTT keeps these apart.
abbrev pub is_kept_apart : Text → Text → Bool
is_kept_apart filter topic = (begins b'#' filter || begins b'+' filter) && begins b'$' topic

-- The matching of MQTT 3.1.1, by the levels (4.7.1) and the rule on topics that begin with `$` (4.7.2).
abbrev pub mqtt_matches : Text → Text → Bool
mqtt_matches filter topic =
    not (is_kept_apart filter topic) && matches (level_list filter) (level_list topic)
