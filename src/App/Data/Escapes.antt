-- ===== src/App/Data/Escapes.antt =====
-- What the escapes of the command line tools are read as.
use cc_mqtt311_libs.Base.{
  ℕ, zero, suc, ◌+◌, ◌*◌, ◌/◌, ◌%◌, ◌^◌, ◌≤◌, ◌<◌, ◌≡◌, ◌≢◌, refl, ap, ◌∙◌, false, ◌||◌, none, some,
  List, [], ◌∷◌, ◌++◌, ◌==◌, length, drop, All, arith,
}
use cc_mqtt311_libs.State.{Text}
use cc_mqtt311_libs.App.Data.{
  backslash, hex_prefix, is_space, hex_value, more_digits, digits, signed_digits, skip_spaces,
  stoul_byte, read_hex, read_escape, read_byte, parse_from, parse_binary_data, hex_digit, hex_byte,
}

-- A part of a text and the byte that it stands for.
pub data Piece : Type 0 where
  plain : ℕ → Piece
  doubled : Piece
  hex : ℕ → Piece

-- Plain is every character but the backslash; two hex digits make a byte.
abbrev pub IsPiece : Piece → Type 0
IsPiece (plain c) = c ≢ backslash
IsPiece doubled = Unit
IsPiece (hex byte) = byte < 2 ^ 8

abbrev pub text_of : List Piece → Text
text_of [] = []
text_of (plain c ∷ ps) = c ∷ text_of ps
text_of (doubled ∷ ps) = backslash ∷ backslash ∷ text_of ps
text_of (hex byte ∷ ps) = backslash ∷ hex_prefix ∷ hex_byte byte ++ text_of ps

abbrev pub bytes_of : List Piece → List ℕ
bytes_of [] = []
bytes_of (plain c ∷ ps) = c ∷ bytes_of ps
bytes_of (doubled ∷ ps) = backslash ∷ bytes_of ps
bytes_of (hex byte ∷ ps) = byte ∷ bytes_of ps

hex_value-digit : (v : ℕ) → v < 16 → hex_value (hex_digit v) ≡ some v
hex_value-digit v h = ground arith

digit_starts :
    (v : ℕ)
    → v < 16
    → (is_space (hex_digit v) ≡ false) × (((hex_digit v == 43) || (hex_digit v == 45)) ≡ false)
digit_starts v h = (ground arith, ground arith)

-- Digits from the first character on, which is neither a space nor a sign.
stoul-number :
    (a n : ℕ) (rest : Text)
    → is_space a ≡ false
    → ((a == 43) || (a == 45)) ≡ false
    → digits (a ∷ rest) ≡ some n
    → stoul_byte (a ∷ rest) ≡ some (n % 2 ^ 8)
unfolding stoul_byte
stoul-number a n rest no_space no_sign e =
    let skipped : skip_spaces (a ∷ rest) ≡ a ∷ rest = rw no_space refl in
    let unsigned : signed_digits (a ∷ rest) ≡ some (false, n) = rw (no_sign, e) refl in
    rw (skipped, unsigned, stoul_byte) refl

two_digits :
    (a c u v : ℕ)
    → hex_value a ≡ some u
    → hex_value c ≡ some v
    → digits (a ∷ c ∷ []) ≡ some (u * 16 + v)
two_digits a c u v ha hc = rw (ha, digits) (rw (hc, more_digits) refl)

one_digit : (a c u : ℕ) → hex_value a ≡ some u → hex_value c ≡ none → digits (a ∷ c ∷ []) ≡ some u
one_digit a c u ha hc = rw (ha, digits) (rw (hc, more_digits) refl)

-- A round uses up no more than there is, so fuel for every character is enough.
length-drop : {A : Type 0} (k : ℕ) (xs : List A) → length (drop k xs) ≤ length xs
length-drop zero xs = omega arith
length-drop (suc k) [] = omega arith
length-drop (suc k) (x ∷ xs) = omega (arith, length-drop k xs)

parse_from-fuel :
    (n m : ℕ) (t : Text) → length t ≤ n → length t ≤ m → parse_from n t ≡ parse_from m t
unfolding parse_from
parse_from-fuel zero zero t h k = refl
parse_from-fuel zero (suc m) [] h k = refl
parse_from-fuel (suc n) zero [] h k = refl
parse_from-fuel (suc n) (suc m) [] h k = refl
parse_from-fuel zero m (c ∷ t) h k = absurd (omega (arith, h))
parse_from-fuel (suc n) zero (c ∷ t) h k = absurd (omega (arith, k))
parse_from-fuel (suc n) (suc m) (c ∷ t) h k =
    let (byte, used) = read_byte c t in
    let shorter = length-drop used t in
    ap (λ bs. byte ∷ bs)
      (parse_from-fuel n m (drop used t) (omega (arith, shorter, h)) (omega (arith, shorter, k)))

-- The loop, a round at a time.
parse_step :
    (c byte used : ℕ) (t : Text)
    → read_byte c t ≡ (byte, used)
    → parse_binary_data (c ∷ t) ≡ byte ∷ parse_binary_data (drop used t)
unfolding parse_binary_data parse_from
parse_step c byte used t e =
    let shorter = length-drop used t in
    rw e (
      ap (λ bs. byte ∷ bs)
        (parse_from-fuel (length t) (length (drop used t)) (drop used t) (omega (arith, shorter))
          (omega arith)))

read_byte-hex :
    (a c byte : ℕ) (t : Text)
    → stoul_byte (a ∷ c ∷ []) ≡ some byte
    → read_byte backslash (hex_prefix ∷ a ∷ c ∷ t) ≡ (byte, 3)
unfolding read_byte read_escape read_hex
read_byte-hex a c byte t e = rw (e, read_hex) refl

read_byte-plain : (c : ℕ) (t : Text) → c ≢ backslash → read_byte c t ≡ (c, 0)
unfolding read_byte
read_byte-plain c t h = let no : (c == backslash) ≡ false = ground (arith, h) in rw no refl

read_byte-doubled : (t : Text) → read_byte backslash (backslash ∷ t) ≡ (backslash, 1)
unfolding read_byte read_escape
read_byte-doubled t = refl

stoul-hex_byte : (byte : ℕ) → byte < 2 ^ 8 → stoul_byte (hex_byte byte) ≡ some byte
stoul-hex_byte byte h =
    let high : byte / 16 < 16 = omega (arith, h) in
    let low : byte % 16 < 16 = omega arith in
    let (no_space, no_sign) = digit_starts (byte / 16) high in
    stoul-number _ _ _ no_space no_sign (
      two_digits (hex_digit (byte / 16)) (hex_digit (byte % 16)) _ _
        (hex_value-digit (byte / 16) high) (hex_value-digit (byte % 16) low))
    ∙ ap some (omega (arith, h))

-- The reading of binary data by the command line tools reads a text in which every byte is written
-- plainly (any character but the backslash), as a doubled backslash, or as backslash, x and two
-- hex digits as toString writes them, as those bytes.
pub parse-text_of :
    (ps : List Piece) → All IsPiece ps → parse_binary_data (text_of ps) ≡ bytes_of ps
unfolding parse_binary_data parse_from
parse-text_of [] a = refl
parse-text_of (plain c ∷ ps) a =
    parse_step c c 0 (text_of ps) (read_byte-plain c (text_of ps) a.0)
    ∙ ap (λ bs. c ∷ bs) (parse-text_of ps a.1)
parse-text_of (doubled ∷ ps) a =
    parse_step backslash backslash 1 (backslash ∷ text_of ps) (read_byte-doubled (text_of ps))
    ∙ ap (λ bs. backslash ∷ bs) (parse-text_of ps a.1)
parse-text_of (hex byte ∷ ps) a =
    parse_step backslash byte 3 (hex_prefix ∷ hex_byte byte ++ text_of ps)
      (read_byte-hex _ _ byte (text_of ps) (stoul-hex_byte byte a.0))
    ∙ ap (λ bs. byte ∷ bs) (parse-text_of ps a.1)

digit_facts :
    (a u : ℕ)
    → hex_value a ≡ some u
    → (is_space a ≡ false) × (((a == 43) || (a == 45)) ≡ false) × (u < 16)
digit_facts a u h = (ground (arith, h), ground (arith, h), ground (arith, h))

-- Behind a backslash and x, one hex digit and a character that is none are read as the one byte
-- that the digit alone gives: the character is lost.
pub parse-half_escape :
    (a c u : ℕ) (t : Text)
    → hex_value a ≡ some u
    → hex_value c ≡ none
    → parse_binary_data (backslash ∷ hex_prefix ∷ a ∷ c ∷ t) ≡ u ∷ parse_binary_data t
parse-half_escape a c u t ha hc =
    let (no_space, no_sign, small) = digit_facts a u ha in
    parse_step backslash u 3 (hex_prefix ∷ a ∷ c ∷ t) (
      read_byte-hex a c u t (
        stoul-number a u (c ∷ []) no_space no_sign (one_digit a c u ha hc)
        ∙ ap some (omega (arith, small))))
