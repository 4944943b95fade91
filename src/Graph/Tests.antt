-- ===== src/Graph/Tests.antt =====
-- Three code points of one, three and four bytes.
use pst_dev.Prelude.{ℕ, ◌≡◌, ◌≢◌, arith, List, [], ◌∷◌, inl, inr}
use pst_dev.Graph.{ok, throw, out_of_fuel, utf8_to_utf16le}
use pst_dev.Graph.Utf8.{AreScalars, utf8, utf16, utf8_to_utf16le-utf8, utf8_to_utf16le_ends}

abbrev text : List ℕ
text = 0x41 ∷ 0x20ac ∷ 0x1f600 ∷ []

text_scalars : AreScalars text
text_scalars = (inl (omega arith), (inl (omega arith), (inr (omega arith, omega arith), tt)))

utf8_to_utf16le-utf8_example : utf8_to_utf16le (utf8 text) ≡ ok (utf16 text)
utf8_to_utf16le-utf8_example = utf8_to_utf16le-utf8 text text_scalars

utf8_to_utf16le_ends_example : utf8_to_utf16le (0xe2 ∷ 0x82 ∷ []) ≢ throw out_of_fuel
utf8_to_utf16le_ends_example = utf8_to_utf16le_ends (0xe2 ∷ 0x82 ∷ [])
