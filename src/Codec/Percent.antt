-- ===== src/Codec/Percent.antt =====
-- Percent encoding: `path_segment` and `encode_query_value` of wire.rs.
pub mod RoundTrip
use lager_rs.Prelude.{
  ℕ, Bool, ◌||◌, [], ◌∷◌, ◌++◌, Bytes, Text, utf8, upper_hex_byte, within, ◌==◌, if◌then◌else◌,
}

-- `u8::is_ascii_alphanumeric`
abbrev pub is_ascii_alphanumeric : ℕ → Bool
is_ascii_alphanumeric b = within b'0' b'9' b || within b'A' b'Z' b || within b'a' b'z' b

abbrev pub bare_in_segment : ℕ → Bool
bare_in_segment b = is_ascii_alphanumeric b || b == b'-' || b == b'.' || b == b'_' || b == b'~'

-- What the loop of `path_segment` adds for the bytes of the segment.
unfoldable pub segment_bytes : Bytes → Text
segment_bytes [] = []
segment_bytes (b ∷ bs) =
    (if bare_in_segment b then b ∷ [] else b'%' ∷ upper_hex_byte b) ++ segment_bytes bs

unfoldable pub path_segment : Text → Text
path_segment raw = segment_bytes (utf8 raw)

abbrev pub bare_in_query : ℕ → Bool
bare_in_query b =
    within b'A' b'Z' b
    || within b'a' b'z' b
    || within b'0' b'9' b
    || b == b'-'
    || b == b'_'
    || b == b'.'
    || b == b'~'

unfoldable pub query_bytes : Bytes → Text
query_bytes [] = []
query_bytes (b ∷ bs) =
    (if bare_in_query b then b ∷ [] else b'%' ∷ upper_hex_byte b) ++ query_bytes bs

unfoldable pub encode_query_value : Text → Text
encode_query_value s = query_bytes (utf8 s)
