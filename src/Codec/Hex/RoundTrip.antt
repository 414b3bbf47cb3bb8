-- ===== src/Codec/Hex/RoundTrip.antt =====
-- What `hex_encode` writes, `hex_decode` reads back.
use lager_rs.Prelude.{
  ℕ, ◌*◌, ◌%◌, ◌<◌, ◌≡◌, refl, ◌∙◌, Bool, true, some, [], ◌∷◌, ◌++◌, Bytes, ok, length, all,
  all_mono, all-append, is_ascii, no_space, utf8_ascii, hex_byte, parse_radix, trim-plain,
  is_digit_char, ltb, ltb→lt, ◌==◌, each_under, each_under_at, is_number, is_number_eq, arith,
  digit_char, ok_or, ◌>>=?◌,
}
use lager_rs.Codec.Hex.{bad, hex_encode, decode_pairs, hex_decode}

abbrev pub is_byte : ℕ → Bool
is_byte b = ltb b 256

hex_byte_table : each_under (λ b. is_number (parse_radix 16 255 (hex_byte b)) b) 256 ≡ true
unfolding each_under parse_radix hex_byte
hex_byte_table = refl

parse_radix-hex_byte : (b : ℕ) → is_byte b ≡ true → parse_radix 16 255 (hex_byte b) ≡ some b
parse_radix-hex_byte b h = is_number_eq _ b (each_under_at _ 256 (ltb→lt b 256 h) hex_byte_table)

hex_digits_table : each_under (λ b. all is_digit_char (hex_byte b)) 256 ≡ true
unfolding each_under hex_byte
hex_digits_table = refl

pub hex_encode-digits :
    (bs : Bytes) → all is_byte bs ≡ true → all is_digit_char (hex_encode bs) ≡ true
unfolding hex_encode
hex_encode-digits [] h = refl
hex_encode-digits (b ∷ bs) h =
    all-append is_digit_char (hex_byte b) (hex_encode bs)
      (each_under_at (λ c. all is_digit_char (hex_byte c)) 256 (ground arith) hex_digits_table)
      (hex_encode-digits bs (ground arith))

-- Two digits for each byte.
pub length-hex_encode : (bs : Bytes) → length (hex_encode bs) ≡ 2 * length bs
unfolding hex_encode hex_byte
length-hex_encode [] = refl
length-hex_encode (b ∷ bs) = omega (arith, length-hex_encode bs)

decode_pairs-hex_byte :
    (b : ℕ) (s : Bytes) {bs : Bytes}
    → is_byte b ≡ true
    → decode_pairs s ≡ some bs
    → decode_pairs (hex_byte b ++ s) ≡ some (b ∷ bs)
unfolding decode_pairs hex_byte
decode_pairs-hex_byte b s h e = rw (parse_radix-hex_byte b h) (rw e)

decode_pairs-hex_encode :
    (bs : Bytes) → all is_byte bs ≡ true → decode_pairs (hex_encode bs) ≡ some bs
unfolding hex_encode
decode_pairs-hex_encode [] h = unfold decode_pairs in refl
decode_pairs-hex_encode (b ∷ bs) h =
    decode_pairs-hex_byte b (hex_encode bs) (ground arith)
      (decode_pairs-hex_encode bs (ground arith))

-- Bytes, numbers below 256, survive hex encoding and decoding.
pub hex_decode-hex_encode :
    (bs : Bytes) → all is_byte bs ≡ true → hex_decode (hex_encode bs) ≡ ok bs
unfolding hex_decode
hex_decode-hex_encode bs h =
    let digits = hex_encode-digits bs h in
    let ascii = all_mono is_digit_char is_ascii (hex_encode bs) (λ c d. ground arith) digits in
    let plain = all_mono is_digit_char no_space (hex_encode bs) (λ c d. ground arith) digits in
    let even : (length (hex_encode bs) % 2 == 0) ≡ true = ground (arith, length-hex_encode bs) in
    rw (trim-plain (hex_encode bs) plain) (
      rw (utf8_ascii (hex_encode bs) ascii)
        (rw even (rw ascii (rw (decode_pairs-hex_encode bs h)))))

pair_shape :
    (c d : ℕ)
    → all is_ascii (c ∷ d ∷ []) ≡ true
    → all no_space (c ∷ d ∷ []) ≡ true
    → hex_decode (c ∷ d ∷ [])
      ≡ ok_or (bad (c ∷ d ∷ [])) (parse_radix 16 255 (c ∷ d ∷ []) >>=? λ b. some (b ∷ []))
unfolding hex_decode decode_pairs
pair_shape c d h k = rw (trim-plain (c ∷ d ∷ []) k) (rw (utf8_ascii (c ∷ d ∷ []) h) (rw h refl))

plus_table : each_under (λ v. is_number (parse_radix 16 255 (b'+' ∷ digit_char v ∷ [])) v) 16 ≡ true
unfolding each_under parse_radix
plus_table = refl

-- A plus sign in front of one hex digit is taken for a byte, though it is no hex digit.
hex_decode-plus : (v : ℕ) → v < 16 → hex_decode (b'+' ∷ digit_char v ∷ []) ≡ ok (v ∷ [])
hex_decode-plus v h =
    pair_shape b'+' (digit_char v) (ground arith) (ground arith)
    ∙ rw (is_number_eq _ v (each_under_at _ 16 h plus_table))
