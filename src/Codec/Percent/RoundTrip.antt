-- ===== src/Codec/Percent/RoundTrip.antt =====
-- Percent-encoded text decodes to the bytes of the original, and holds only unreserved characters
-- and escapes.
use lager_rs.Prelude.{
  ℕ, ◌+◌, ◌*◌, ◌/◌, ◌%◌, ◌<◌, ◌≡◌, refl, ap, ◌∙◌, Bool, true, false, ◌||◌, Option, none, some, [],
  ◌∷◌, ◌++◌, Bytes, Text, all, all-append, char_bytes, utf8, upper_hex_byte, upper_digit_char,
  digit_value, ltb, ◌==◌, if◌then◌else◌, Bool-cases, inl, inr, arith, ◌>>=?◌,
}
use lager_rs.Codec.Percent.{
  bare_in_segment, segment_bytes, path_segment, bare_in_query, query_bytes, encode_query_value,
}

-- A decoder of percent escapes: outside one, behind its `%`, and behind its first digit.
data Place : Type 0 where
  plain high : Place
  low : ℕ → Place

abbrev push : ℕ → Option Bytes → Option Bytes
push b none = none
push b (some bs) = some (b ∷ bs)

decode_at : Place → Text → Option Bytes
decode_at plain [] = some []
decode_at high [] = none
decode_at (low v) [] = none
decode_at plain (c ∷ s) =
    let escape = decode_at high s in
    let bare = push c (decode_at plain s) in if c == b'%' then escape else bare
decode_at high (c ∷ s) = digit_value 16 c >>=? λ v. decode_at (low v) s
decode_at (low v) (c ∷ s) =
    let rest = decode_at plain s in digit_value 16 c >>=? λ w. push (v * 16 + w) rest

pub percent_decode : Text → Option Bytes
percent_decode = decode_at plain

upper_digit : (d : ℕ) → d < 16 → digit_value 16 (upper_digit_char d) ≡ some d
unfolding digit_value
upper_digit d h = ground arith

escape_lem :
    (b : ℕ) (s : Text)
    → b < 256
    → decode_at plain (b'%' ∷ (upper_hex_byte b ++ s)) ≡ push b (decode_at plain s)
unfolding decode_at upper_hex_byte
escape_lem b s h =
    rw (upper_digit (b / 16) (omega arith))
      (rw (upper_digit (b % 16) (omega arith)) (ap (λ c. push c (decode_at plain s)) (omega arith)))

bare_lem :
    (b : ℕ) (s : Text) → (b == b'%') ≡ false → decode_at plain (b ∷ s) ≡ push b (decode_at plain s)
unfolding decode_at
bare_lem b s h = rw h

abbrev is_byte : ℕ → Bool
is_byte b = ltb b 256

decode-segment_bytes :
    (bs : Bytes) → all is_byte bs ≡ true → decode_at plain (segment_bytes bs) ≡ some bs
unfolding segment_bytes
decode-segment_bytes [] h = unfold decode_at in refl
decode-segment_bytes (b ∷ bs) h = elim (Bool-cases (bare_in_segment b)) [
  | inl bare ↦
      rw bare
        (bare_lem b (segment_bytes bs) (ground arith) ∙ rw (decode-segment_bytes bs (ground arith)))
  | inr other ↦
      rw other (
        escape_lem b (segment_bytes bs) (ground arith)
        ∙ rw (decode-segment_bytes bs (ground arith)))
]

-- Unicode's code points.
abbrev pub is_char : ℕ → Bool
is_char c = ltb c 0x110000

char_bytes_range : (c : ℕ) → is_char c ≡ true → all is_byte (char_bytes c) ≡ true
unfolding char_bytes
char_bytes_range c h = ground arith

utf8_range : (s : Text) → all is_char s ≡ true → all is_byte (utf8 s) ≡ true
unfolding utf8
utf8_range [] h = refl
utf8_range (c ∷ s) h =
    all-append is_byte (char_bytes c) (utf8 s) (char_bytes_range c (ground arith))
      (utf8_range s (ground arith))

-- Undoing the escapes of a path segment gives the bytes of the name, which is a text of Unicode
-- code points.
pub percent_decode-path_segment :
    (s : Text) → all is_char s ≡ true → percent_decode (path_segment s) ≡ some (utf8 s)
unfolding percent_decode path_segment
percent_decode-path_segment s h = decode-segment_bytes (utf8 s) (utf8_range s h)

bare_same : (b : ℕ) → bare_in_query b ≡ bare_in_segment b
bare_same b = ground arith

query_bytes-segment_bytes : (bs : Bytes) → query_bytes bs ≡ segment_bytes bs
unfolding query_bytes segment_bytes
query_bytes-segment_bytes [] = refl
query_bytes-segment_bytes (b ∷ bs) = rw (bare_same b) (rw (query_bytes-segment_bytes bs))

-- A query value is encoded just as a path segment.
pub encode_query_value-path_segment : (s : Text) → encode_query_value s ≡ path_segment s
unfolding encode_query_value path_segment
encode_query_value-path_segment s = query_bytes-segment_bytes (utf8 s)

-- The characters of an encoded segment.
abbrev pub is_safe : ℕ → Bool
is_safe c = bare_in_segment c || c == b'%'

escape_safe : (b : ℕ) → b < 256 → all is_safe (b'%' ∷ upper_hex_byte b) ≡ true
unfolding upper_hex_byte
escape_safe b h = ground arith

segment_bytes-safe : (bs : Bytes) → all is_byte bs ≡ true → all is_safe (segment_bytes bs) ≡ true
unfolding segment_bytes
segment_bytes-safe [] h = refl
segment_bytes-safe (b ∷ bs) h = elim (Bool-cases (bare_in_segment b)) [
  | inl bare ↦ rw bare (
      all-append is_safe (b ∷ []) (segment_bytes bs) (rw bare)
        (segment_bytes-safe bs (ground arith)))
  | inr other ↦ rw other (
      all-append is_safe (b'%' ∷ upper_hex_byte b) (segment_bytes bs) (escape_safe b (ground arith))
        (segment_bytes-safe bs (ground arith)))
]

-- An encoded segment of Unicode code points holds letters, digits, `-`, `.`, `_`, `~` and `%`
-- alone, so no name can leave its place in a path.
pub path_segment-safe : (s : Text) → all is_char s ≡ true → all is_safe (path_segment s) ≡ true
unfolding path_segment
path_segment-safe s h = segment_bytes-safe (utf8 s) (utf8_range s h)
