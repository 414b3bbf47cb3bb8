-- ===== src/Sio/Hex.antt =====
-- `hex_encode` and `hex_decode` of nets/sio.rs.
use lager_rs.Prelude.{
  ℕ, ◌%◌, Bool, false, Option, none, some, [], ◌∷◌, ◌++◌, Bytes, Text, length, hex_byte, utf8, trim,
  within, parse_radix, ◌==◌, if◌then◌else◌,
}

unfoldable pub hex_encode : Bytes → Text
hex_encode [] = []
hex_encode (b ∷ bytes) = hex_byte b ++ hex_encode bytes

-- A slice that ends inside a character panics.
pub data Sliced : Type 0 where
  panics : Sliced
  decoded : Option Bytes → Sliced

-- A byte of UTF-8 that continues a character.
abbrev pub continues : Bytes → Bool
continues [] = false
continues (b ∷ s) = within 128 191 b

abbrev u8_max : ℕ
u8_max = 255

abbrev pub push : ℕ → Sliced → Sliced
push b panics = panics
push b (decoded none) = decoded none
push b (decoded (some bytes)) = decoded (some (b ∷ bytes))

-- The slices are taken and read from the left, and the first that is no number ends it. So the
-- start of a slice is a character's start. Two bytes that are one character are no number.
unfoldable pub decode_slices : Bytes → Sliced
unfolding parse_radix
decode_slices [] = decoded (some [])
decode_slices (a ∷ []) = panics
decode_slices (a ∷ b ∷ s) =
    let rest = decode_slices s in
    if continues s
    then panics
    else elim (parse_radix 16 u8_max (a ∷ b ∷ [])) [ none ↦ decoded none | some n ↦ push n rest ]

unfoldable pub hex_decode : Text → Sliced
unfolding decode_slices
hex_decode text =
    let s = utf8 (trim text) in if length s % 2 == 0 then decode_slices s else decoded none
