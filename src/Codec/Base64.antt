-- ===== src/Codec/Base64.antt =====
-- `base64_encode` and `base64_decode` of nets/debug.rs, and `base64url_decode` of auth.rs. The
-- fields of a 24-bit group do not overlap, so a bitwise or of them is their sum.
pub mod Groups
pub mod RoundTrip
pub mod Url
use lager_rs.Prelude.{
  ℕ, ◌+◌, ◌-◌, ◌*◌, ◌/◌, ◌%◌, ◌^◌, ◌≤◌, Bool, true, false, not, ◌&&◌, ◌||◌, Option, none, some, [],
  ◌∷◌, ◌++◌, Bytes, Text, str, length, all, get_or, trim_end_by, within, leb, is_empty, ◌==◌,
  if◌then◌else◌, ◌>>=?◌ as ◌>>=◌,
}

abbrev pub alphabet : Text
alphabet = str "ABCDEFGHIJKLMNOPQRSTUVWXYZabcdefghijklmnopqrstuvwxyz0123456789+/"

-- `ALPHABET[i]`
unfoldable pub letter : ℕ → ℕ
letter i = get_or alphabet i 0

-- The digit of `n` at bit `k`: `n >> k & 0x3F`
unfoldable pub letter_at : ℕ → ℕ → ℕ
letter_at k n = letter (n / 2 ^ k % 64)

unfoldable pub base64_encode : Bytes → Text
base64_encode [] = []
base64_encode (b0 ∷ []) = let n = b0 * 65536 in letter_at 18 n ∷ letter_at 12 n ∷ b'=' ∷ b'=' ∷ []
base64_encode (b0 ∷ b1 ∷ []) =
    let n = b0 * 65536 + b1 * 256 in letter_at 18 n ∷ letter_at 12 n ∷ letter_at 6 n ∷ b'=' ∷ []
base64_encode (b0 ∷ b1 ∷ b2 ∷ input) =
    let n = b0 * 65536 + b1 * 256 + b2 in
    letter_at 18 n ∷ letter_at 12 n ∷ letter_at 6 n ∷ letter_at 0 n ∷ base64_encode input

-- The value of a letter, with `+` and `/` at 62 and 63.
unfoldable pub sextet : ℕ → Option ℕ
sextet c =
    if within b'A' b'Z' c
    then some (c - b'A')
    else if within b'a' b'z' c
    then some (c - b'a' + 26)
    else if within b'0' b'9' c
    then some (c - b'0' + 52)
    else if c == b'+'
    then some 62
    else if c == b'/'
    then some 63
    else none

-- With `-` and `_` at 62 and 63.
unfoldable pub val : ℕ → Option ℕ
val c =
    if within b'A' b'Z' c
    then some (c - b'A')
    else if within b'a' b'z' c
    then some (c - b'a' + 26)
    else if within b'0' b'9' c
    then some (c - b'0' + 52)
    else if c == b'-'
    then some 62
    else if c == b'_'
    then some 63
    else none

abbrev pub as_u8 : ℕ → ℕ
as_u8 n = n % 256

-- One group of `base64_decode`: four digits or fewer, the later ones 0 where they are missing.
unfoldable pub group_bytes : ℕ → ℕ → Bytes
group_bytes count n =
    let b0 = as_u8 (n / 2 ^ 16) in
    let b1 = as_u8 (n / 2 ^ 8) in
    let b2 = as_u8 n in
    if leb count 2 then b0 ∷ [] else if leb count 3 then b0 ∷ b1 ∷ [] else b0 ∷ b1 ∷ b2 ∷ []

unfoldable pub decode_groups : Bytes → Option Bytes
unfolding group_bytes
decode_groups [] = some []
decode_groups (a ∷ []) = do v ← sextet a; some (group_bytes 1 (v * 2 ^ 18))
decode_groups (a ∷ b ∷ []) = do
  v ← sextet a
  w ← sextet b
  some (group_bytes 2 (v * 2 ^ 18 + w * 2 ^ 12))
decode_groups (a ∷ b ∷ c ∷ []) = do
  v ← sextet a
  w ← sextet b
  x ← sextet c
  some (group_bytes 3 (v * 2 ^ 18 + w * 2 ^ 12 + x * 2 ^ 6))
decode_groups (a ∷ b ∷ c ∷ d ∷ digits) =
    let rest = decode_groups digits in
    do
      v ← sextet a
      w ← sextet b
      x ← sextet c
      y ← sextet d
      later ← rest
      some (group_bytes 4 (v * 2 ^ 18 + w * 2 ^ 12 + x * 2 ^ 6 + y) ++ later)

-- `u8::is_ascii_whitespace`
abbrev pub is_ascii_whitespace : ℕ → Bool
is_ascii_whitespace c = c == b' ' || c == b'\t' || c == b'\n' || c == 12 || c == b'\r'

abbrev pub drop_whitespace : Bytes → Bytes
drop_whitespace [] = []
drop_whitespace (c ∷ s) =
    let rest = drop_whitespace s in if is_ascii_whitespace c then rest else c ∷ rest

-- What stands before the first `=`, and from there on.
abbrev pub before_pad : Bytes → Bytes
before_pad [] = []
before_pad (c ∷ s) = let rest = before_pad s in if c == b'=' then [] else c ∷ rest

abbrev pub from_pad : Bytes → Bytes
from_pad [] = []
from_pad (c ∷ s) = let rest = from_pad s in if c == b'=' then c ∷ s else rest

unfoldable pub strip_padding : Bytes → Option Bytes
strip_padding digits =
    if is_empty (from_pad digits)
    then some digits
    else if all (λ b. b == b'=') (from_pad digits) && leb (length (from_pad digits)) 2
    then some (before_pad digits)
    else none

-- The argument is the input's bytes.
unfoldable pub base64_decode : Bytes → Option Bytes
unfolding strip_padding decode_groups
base64_decode input = do
  digits ← strip_padding (drop_whitespace input)
  if length digits % 4 == 1 then none else decode_groups digits

-- One group of `base64url_decode`: `acc` holds the digits read, and is moved up to 24 bits.
unfoldable pub url_group : ℕ → ℕ → Bytes
url_group count acc = group_bytes count (acc * 2 ^ (24 - count * 6))

unfoldable pub url_groups : Bytes → Option Bytes
url_groups [] = some []
url_groups (a ∷ []) = do v ← val a; some (url_group 1 v)
url_groups (a ∷ b ∷ []) = do v ← val a; w ← val b; some (url_group 2 (v * 64 + w))
url_groups (a ∷ b ∷ c ∷ []) = do
  v ← val a
  w ← val b
  x ← val c
  some (url_group 3 ((v * 64 + w) * 64 + x))
url_groups (a ∷ b ∷ c ∷ d ∷ s) =
    let rest = url_groups s in
    do
      v ← val a
      w ← val b
      x ← val c
      y ← val d
      later ← rest
      some (url_group 4 (((v * 64 + w) * 64 + x) * 64 + y) ++ later)

-- The argument is the text's bytes.
unfoldable pub base64url_decode : Bytes → Option Bytes
unfolding url_groups
base64url_decode text =
    let s = trim_end_by (λ c. c == b'=') text in if length s % 4 == 1 then none else url_groups s
