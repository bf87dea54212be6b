-- ===== src/Examples/AppRuns.antt =====
-- A text with escapes.
use cc_mqtt311_libs.Base.{◌≡◌, refl, [], ◌∷◌, arith}
use cc_mqtt311_libs.App.Data.{parse_binary_data}
use cc_mqtt311_libs.App.Data.Escapes.{
  Piece, plain, doubled, hex, text_of, bytes_of, parse-text_of, parse-half_escape,
}
use cc_mqtt311_libs.Base.{List}

abbrev pieces : List Piece
pieces = plain 97 ∷ doubled ∷ hex 255 ∷ plain 120 ∷ []

text_example : parse_binary_data (text_of pieces) ≡ bytes_of pieces
text_example = parse-text_of pieces (omega arith, (tt, (omega arith, (omega arith, tt))))

half_example : parse_binary_data (92 ∷ 120 ∷ 97 ∷ 122 ∷ 49 ∷ []) ≡ 10 ∷ parse_binary_data (49 ∷ [])
half_example = parse-half_escape 97 122 10 (49 ∷ []) refl refl
