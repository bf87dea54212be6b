-- ===== src/App/Data.antt =====
-- `parseBinaryData` of client/app/common/AppClient.cpp, which reads a text with escapes as bytes, and
-- `toString` of data, which writes bytes as text.
pub mod Escapes
use cc_mqtt311_libs.Base.{
  ℕ, zero, suc, ◌+◌, ◌-◌, ◌*◌, ◌/◌, ◌%◌, ◌^◌, Bool, true, false, not, ◌&&◌, ◌||◌, Option, none,
  some, List, [], ◌∷◌, ◌++◌, ltb, leb, ◌==◌, if◌then◌else◌, length, drop, is_some,
}
use cc_mqtt311_libs.State.{Text}

abbrev pub backslash : ℕ
backslash = 92

abbrev pub hex_prefix : ℕ
hex_prefix = 120

abbrev pub space : ℕ
space = 32

-- What `stoul` does in base 16 in the C locale: `isspace`, and the value of a digit.
abbrev pub is_space : ℕ → Bool
is_space c = (c == space) || leb 9 c && leb c 13

abbrev pub hex_value : ℕ → Option ℕ
hex_value c =
    if leb 48 c && leb c 57
    then some (c - 48)
    else if leb 97 c && leb c 102
    then some (c - 87)
    else if leb 65 c && leb c 70
    then some (c - 55)
    else none

-- The digits from the first on, up to a character that is none.
abbrev pub more_digits : ℕ → Text → ℕ
more_digits n [] = n
more_digits n (c ∷ rest) = elim (hex_value c) [ none ↦ n | some v ↦ more_digits (n * 16 + v) rest ]

abbrev pub digits : Text → Option ℕ
digits [] = none
digits (c ∷ rest) = elim (hex_value c) [ none ↦ none | some v ↦ some (more_digits v rest) ]

-- `static_cast<std::uint8_t>` of the number, or of its negation in `unsigned long`.
abbrev pub low_byte : Bool → ℕ → ℕ
low_byte negated n = if negated then (2 ^ 64 - n) % 2 ^ 8 else n % 2 ^ 8

abbrev pub signed_digits : Text → Option (Bool × ℕ)
signed_digits [] = none
signed_digits (c ∷ rest) =
    if (c == 43) || (c == 45)
    then elim (digits rest) [ none ↦ none | some n ↦ some (c == 45, n) ]
    else elim (digits (c ∷ rest)) [ none ↦ none | some n ↦ some (false, n) ]

abbrev pub skip_spaces : Text → Text
skip_spaces [] = []
skip_spaces (c ∷ rest) = if is_space c then skip_spaces rest else c ∷ rest

-- `stoul` of two characters, as a byte; `none` is its exception. Two characters have no room for a
-- prefix 0x with a digit behind it, nor for a number out of range.
unfoldable pub stoul_byte : Text → Option ℕ
stoul_byte t = elim (signed_digits (skip_spaces t)) [
  | none ↦ none
  | some (negated, n) ↦ some (low_byte negated n)
]

-- One round of the loop of `parseBinaryData`: the byte, and how many of the characters behind the
-- first one are used up.
unfoldable pub read_hex : Text → ℕ × ℕ
read_hex [] = (backslash, 0)
read_hex (a ∷ []) = (backslash, 0)
read_hex (a ∷ b ∷ rest) = elim (stoul_byte (a ∷ b ∷ [])) [
  | none ↦ (backslash, 0)
  | some byte ↦ (byte, 3)
]

unfoldable pub read_escape : Text → ℕ × ℕ
unfolding read_hex
read_escape [] = (backslash, 0)
read_escape (c ∷ rest) =
    if c == backslash
    then (backslash, 1)
    else if not (c == hex_prefix)
    then (backslash, 0)
    else read_hex rest

unfoldable pub read_byte : ℕ → Text → ℕ × ℕ
unfolding read_escape
read_byte ch rest = if not (ch == backslash) then (ch, 0) else read_escape rest

-- Each round uses up at least one character.
unfoldable pub parse_from : ℕ → Text → List ℕ
parse_from zero t = []
parse_from (suc fuel) [] = []
parse_from (suc fuel) (ch ∷ rest) =
    let (byte, used) = read_byte ch rest in byte ∷ parse_from fuel (drop used rest)

unfoldable pub parse_binary_data : Text → List ℕ
parse_binary_data t = parse_from (length t) t

-- `toString` of data: as it is, or with two hex digits and a space for each byte.
abbrev pub is_print : ℕ → Bool
is_print byte = leb 0x20 byte && leb byte 0x7e

abbrev pub any_binary : List ℕ → Bool
any_binary [] = false
any_binary (byte ∷ rest) = (not (is_print byte) || ltb 0x7e byte) || any_binary rest

abbrev pub hex_digit : ℕ → ℕ
hex_digit v = if ltb v 10 then 48 + v else 87 + v

abbrev pub hex_byte : ℕ → Text
hex_byte byte = hex_digit (byte / 16) ∷ hex_digit (byte % 16) ∷ []

abbrev pub hex_text : List ℕ → Text
hex_text [] = []
hex_text (byte ∷ rest) = hex_byte byte ++ space ∷ hex_text rest

unfoldable pub data_to_string : Bool → List ℕ → Text
data_to_string force_binary bytes =
    if not (force_binary || any_binary bytes) then bytes else hex_text bytes
