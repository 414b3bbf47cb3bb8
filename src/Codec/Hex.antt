-- ===== src/Codec/Hex.antt =====
-- `hex_encode` and `hex_decode` of wire.rs, and their older twins in nets/sio.rs.
pub mod RoundTrip
use lager_rs.Prelude.{
  ℕ, ◌+◌, ◌*◌, ◌/◌, ◌%◌, ◌≡◌, Bool, true, false, not, ◌||◌, Option, none, some, [], ◌∷◌, ◌++◌,
  Bytes, Text, Result, ok, err, str, length, all, is_ascii, utf8, hex_byte, parse_radix, trim,
  within, ◌==◌, if◌then◌else◌, ok_or, ◌>>=?◌,
}
use lager_rs.Error.{Error, Res, decode}

-- `{b:02x}` of each byte
unfoldable pub hex_encode : Bytes → Text
hex_encode [] = []
hex_encode (b ∷ data') = hex_byte b ++ hex_encode data'

abbrev u8_max : ℕ
u8_max = 255

abbrev push : ℕ → Option Bytes → Option Bytes
push b none = none
push b (some bs) = some (b ∷ bs)

-- `u8::from_str_radix(&s[i..i + 2], 16)` for each even `i`, with the first failure as the result.
unfoldable pub decode_pairs : Text → Option Bytes
decode_pairs [] = some []
decode_pairs (c ∷ []) = none
decode_pairs (c ∷ d ∷ s) =
    let rest = decode_pairs s in parse_radix 16 u8_max (c ∷ d ∷ []) >>=? λ b. push b rest

abbrev pub bad : Text → Error
bad s = decode (str "invalid hex data from the box: '" ++ (s ++ str "'"))

-- A text's length in Rust is that of its UTF-8 bytes.
unfoldable pub hex_decode : Text → Res Bytes
unfolding decode_pairs
hex_decode text =
    let s = trim text in
    if not (length (utf8 s) % 2 == 0) || not (all is_ascii s)
    then err (bad s)
    else ok_or (bad s) (decode_pairs s)
