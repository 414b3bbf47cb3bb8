-- ===== src/Codec/Base64/RoundTrip.antt =====
-- What the base64 encoder writes, the decoders read back.
use lager_rs.Prelude.{
  ℕ, ◌+◌, ◌*◌, ◌/◌, ◌%◌, ◌^◌, ◌<◌, ◌≡◌, refl, ap, Bool, true, false, not, ◌&&◌, Option, some, [],
  ◌∷◌, ◌++◌, Bytes, Text, all, all_mono, all-append, length, ltb, ◌==◌, arith, append-nil,
}
use lager_rs.Codec.Base64.{
  letter, letter_at, group_bytes, base64_encode, decode_groups, is_ascii_whitespace,
  drop_whitespace, before_pad, from_pad, strip_padding, base64_decode,
}
use lager_rs.Codec.Base64.Groups.{
  IsAlphabet, IsAlphabet-letter, digits_of_three, digits_of_two, digits_of_one,
}

abbrev pub is_byte : ℕ → Bool
is_byte b = ltb b 256

-- The digits that encode the bytes in an alphabet, without padding.
abbrev pub digits_with : (ℕ → ℕ) → Bytes → Text
digits_with write [] = []
digits_with write (a ∷ []) =
    let n = a * 65536 in write (n / 2 ^ 18 % 64) ∷ write (n / 2 ^ 12 % 64) ∷ []
digits_with write (a ∷ b ∷ []) =
    let n = a * 65536 + b * 256 in
    write (n / 2 ^ 18 % 64) ∷ write (n / 2 ^ 12 % 64) ∷ write (n / 2 ^ 6 % 64) ∷ []
digits_with write (a ∷ b ∷ c ∷ bs) =
    let n = a * 65536 + b * 256 + c in
    write (n / 2 ^ 18 % 64)
    ∷ write (n / 2 ^ 12 % 64)
    ∷ write (n / 2 ^ 6 % 64)
    ∷ write (n / 2 ^ 0 % 64)
    ∷ digits_with write bs

abbrev padding : Bytes → Text
padding [] = []
padding (a ∷ []) = b'=' ∷ b'=' ∷ []
padding (a ∷ b ∷ []) = b'=' ∷ []
padding (a ∷ b ∷ c ∷ bs) = padding bs

base64_encode-digits : (bs : Bytes) → base64_encode bs ≡ digits_with letter bs ++ padding bs
unfolding base64_encode letter_at
base64_encode-digits [] = refl
base64_encode-digits (a ∷ []) = refl
base64_encode-digits (a ∷ b ∷ []) = refl
base64_encode-digits (a ∷ b ∷ c ∷ bs) = rw (base64_encode-digits bs)

pub low : (n : ℕ) → n % 64 < 64
low n = omega arith

pub group_three :
    (a b c : ℕ) (bs : Bytes)
    → a < 256
    → b < 256
    → c < 256
    → let n = a * 65536 + b * 256 + c in
      group_bytes 4 (
          n / 2 ^ 18 % 64 * 2 ^ 18
          + n / 2 ^ 12 % 64 * 2 ^ 12
          + n / 2 ^ 6 % 64 * 2 ^ 6
          + n / 2 ^ 0 % 64)
        ++ bs
      ≡ a ∷ b ∷ c ∷ bs
unfolding group_bytes
group_three a b c bs h k l =
    let d = digits_of_three a b c h k l in rw d.0 (rw d.1 (rw d.2 (rw d.3)))

pub group_two :
    (a b : ℕ)
    → a < 256
    → b < 256
    → let n = a * 65536 + b * 256 in
      group_bytes 3 (n / 2 ^ 18 % 64 * 2 ^ 18 + n / 2 ^ 12 % 64 * 2 ^ 12 + n / 2 ^ 6 % 64 * 2 ^ 6)
      ≡ a ∷ b ∷ []
unfolding group_bytes
group_two a b h k = let d = digits_of_two a b h k in rw d.0 (rw d.1 (rw d.2))

pub group_one :
    (a : ℕ)
    → a < 256
    → let n = a * 65536 in
      group_bytes 2 (n / 2 ^ 18 % 64 * 2 ^ 18 + n / 2 ^ 12 % 64 * 2 ^ 12) ≡ a ∷ []
unfolding group_bytes
group_one a h = let d = digits_of_one a h in rw d.0 (rw d.1)

decode_groups-digits :
    (bs : Bytes) → all is_byte bs ≡ true → decode_groups (digits_with letter bs) ≡ some bs
unfolding decode_groups
decode_groups-digits [] h = refl
decode_groups-digits (a ∷ []) h =
    let A = IsAlphabet-letter in
    let n = a * 65536 in
    rw (A.reads (n / 2 ^ 18 % 64) (low _))
      (rw (A.reads (n / 2 ^ 12 % 64) (low _)) (ap some (group_one a (ground arith))))
decode_groups-digits (a ∷ b ∷ []) h =
    let A = IsAlphabet-letter in
    let n = a * 65536 + b * 256 in
    rw (A.reads (n / 2 ^ 18 % 64) (low _)) (
      rw (A.reads (n / 2 ^ 12 % 64) (low _)) (
        rw (A.reads (n / 2 ^ 6 % 64) (low _))
          (ap some (group_two a b (ground arith) (ground arith)))))
decode_groups-digits (a ∷ b ∷ c ∷ bs) h =
    let A = IsAlphabet-letter in
    let n = a * 65536 + b * 256 + c in
    rw (A.reads (n / 2 ^ 18 % 64) (low _)) (
      rw (A.reads (n / 2 ^ 12 % 64) (low _)) (
        rw (A.reads (n / 2 ^ 6 % 64) (low _)) (
          rw (A.reads (n / 2 ^ 0 % 64) (low _)) (
            rw (decode_groups-digits bs (ground arith))
              (ap some (group_three a b c bs (ground arith) (ground arith) (ground arith)))))))

abbrev pub is_plain : ℕ → Bool
is_plain c = not (c == b'=') && not (is_ascii_whitespace c)

abbrev pub no_pad : ℕ → Bool
no_pad c = not (c == b'=')

abbrev no_white : ℕ → Bool
no_white c = not (is_ascii_whitespace c)

module _ {read : ℕ → Option ℕ} {write : ℕ → ℕ} (A : IsAlphabet read write) where
  pub digits_with-plain : (bs : Bytes) → all is_plain (digits_with write bs) ≡ true
  digits_with-plain [] = refl
  digits_with-plain (a ∷ []) =
      ground (arith, A.plain _ (low (a * 65536 / 2 ^ 18)), A.plain _ (low (a * 65536 / 2 ^ 12)))
  digits_with-plain (a ∷ b ∷ []) =
      let n = a * 65536 + b * 256 in
      ground (
        arith,
        A.plain _ (low (n / 2 ^ 18)),
        A.plain _ (low (n / 2 ^ 12)),
        A.plain _ (low (n / 2 ^ 6)),
      )
  digits_with-plain (a ∷ b ∷ c ∷ bs) =
      let n = a * 65536 + b * 256 + c in
      ground (
        arith,
        A.plain _ (low (n / 2 ^ 18)),
        A.plain _ (low (n / 2 ^ 12)),
        A.plain _ (low (n / 2 ^ 6)),
        A.plain _ (low (n / 2 ^ 0)),
        digits_with-plain bs,
      )

pub length-digits_with :
    (write : ℕ → ℕ) (bs : Bytes) → (length (digits_with write bs) % 4 == 1) ≡ false
length-digits_with write [] = refl
length-digits_with write (a ∷ []) = refl
length-digits_with write (a ∷ b ∷ []) = refl
length-digits_with write (a ∷ b ∷ c ∷ bs) = ground (arith, length-digits_with write bs)

drop_whitespace-plain : (s : Bytes) → all no_white s ≡ true → drop_whitespace s ≡ s
drop_whitespace-plain [] h = refl
drop_whitespace-plain (c ∷ s) h = ground (arith, drop_whitespace-plain s)

from_pad-append : (d p : Bytes) → all no_pad d ≡ true → from_pad (d ++ p) ≡ from_pad p
from_pad-append [] p h = refl
from_pad-append (c ∷ d) p h = ground (arith, from_pad-append d p)

before_pad-append : (d p : Bytes) → all no_pad d ≡ true → before_pad (d ++ p) ≡ d ++ before_pad p
before_pad-append [] p h = refl
before_pad-append (c ∷ d) p h = ground (arith, before_pad-append d p)

strip_padding-append :
    (d bs : Bytes) → all no_pad d ≡ true → strip_padding (d ++ padding bs) ≡ some d
unfolding strip_padding
strip_padding-append d [] h = rw (from_pad-append d [] h) (rw append-nil)
strip_padding-append d (a ∷ []) h =
    rw (from_pad-append d (b'=' ∷ b'=' ∷ []) h)
      (rw (before_pad-append d (b'=' ∷ b'=' ∷ []) h) (rw append-nil))
strip_padding-append d (a ∷ b ∷ []) h =
    rw (from_pad-append d (b'=' ∷ []) h) (rw (before_pad-append d (b'=' ∷ []) h) (rw append-nil))
strip_padding-append d (a ∷ b ∷ c ∷ bs) h = strip_padding-append d bs h

padding-no_white : (bs : Bytes) → all no_white (padding bs) ≡ true
padding-no_white [] = refl
padding-no_white (a ∷ []) = refl
padding-no_white (a ∷ b ∷ []) = refl
padding-no_white (a ∷ b ∷ c ∷ bs) = padding-no_white bs

-- Bytes, numbers below 256, survive base64 encoding and decoding.
pub base64_decode-base64_encode :
    (bs : Bytes) → all is_byte bs ≡ true → base64_decode (base64_encode bs) ≡ some bs
unfolding base64_decode
base64_decode-base64_encode bs h =
    let d = digits_with letter bs in
    let plain = digits_with-plain IsAlphabet-letter bs in
    let no_pads = all_mono is_plain no_pad d (λ c e. ground arith) plain in
    let no_whites = all_mono is_plain no_white d (λ c e. ground arith) plain in
    rw (base64_encode-digits bs) (
      rw
        (drop_whitespace-plain (d ++ padding bs)
          (all-append no_white d (padding bs) no_whites (padding-no_white bs)))
        (rw (strip_padding-append d bs no_pads)
          (rw (length-digits_with letter bs) (decode_groups-digits bs h))))
