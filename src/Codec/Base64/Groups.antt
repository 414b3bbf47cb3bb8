-- ===== src/Codec/Base64/Groups.antt =====
-- One group of base64: three bytes as four digits, and back.
use lager_rs.Prelude.{
  ℕ, ◌+◌, ◌*◌, ◌/◌, ◌%◌, ◌^◌, ◌<◌, ◌≡◌, refl, Bool, true, not, ◌&&◌, Option, some, ◌==◌, each_under,
  each_under_at, is_number, is_number_eq, arith, str, get_or,
}
use lager_rs.Codec.Base64.{letter, sextet, val, as_u8, is_ascii_whitespace}

-- The alphabet of URLs.
pub url_letter : ℕ → ℕ
url_letter i = get_or (str "ABCDEFGHIJKLMNOPQRSTUVWXYZabcdefghijklmnopqrstuvwxyz0123456789-_") i 0

abbrev digit_ok : (ℕ → Option ℕ) → (ℕ → ℕ) → ℕ → Bool
digit_ok read write i =
    is_number (read (write i)) i && not (write i == b'=') && not (is_ascii_whitespace (write i))

letter_table : each_under (digit_ok sextet letter) 64 ≡ true
unfolding each_under sextet letter
letter_table = refl

url_table : each_under (digit_ok val url_letter) 64 ≡ true
unfolding each_under val url_letter
url_table = refl

-- An alphabet, as the decoder reads it.
pub record IsAlphabet (read : ℕ → Option ℕ) (write : ℕ → ℕ) : Type 0 where
  pub reads : (i : ℕ) → i < 64 → read (write i) ≡ some i
  pub plain :
      (i : ℕ) → i < 64 → (not (write i == b'=') && not (is_ascii_whitespace (write i))) ≡ true

IsAlphabet-of_table :
    (read : ℕ → Option ℕ) (write : ℕ → ℕ)
    → each_under (digit_ok read write) 64 ≡ true
    → IsAlphabet read write
IsAlphabet-of_table read write h = record {
  reads = λ i lt. is_number_eq _ i (ground (arith, each_under_at (digit_ok read write) 64 lt h));
  plain = λ i lt. ground (arith, each_under_at (digit_ok read write) 64 lt h);
}

pub IsAlphabet-letter : IsAlphabet sextet letter
IsAlphabet-letter = IsAlphabet-of_table sextet letter letter_table

pub IsAlphabet-url_letter : IsAlphabet val url_letter
IsAlphabet-url_letter = IsAlphabet-of_table val url_letter url_table

-- The digits of a group, put together again, are the group.
pub digits_of_three :
    (a b c : ℕ)
    → a < 256
    → b < 256
    → c < 256
    → let n = a * 65536 + b * 256 + c in
      (n / 2 ^ 18 % 64 * 2 ^ 18 + n / 2 ^ 12 % 64 * 2 ^ 12 + n / 2 ^ 6 % 64 * 2 ^ 6 + n / 2 ^ 0 % 64
        ≡ n)
      × (as_u8 (n / 2 ^ 16) ≡ a)
      × (as_u8 (n / 2 ^ 8) ≡ b)
      × (as_u8 n ≡ c)
digits_of_three a b c h k l = omega arith

pub digits_of_two :
    (a b : ℕ)
    → a < 256
    → b < 256
    → let n = a * 65536 + b * 256 in
      (n / 2 ^ 18 % 64 * 2 ^ 18 + n / 2 ^ 12 % 64 * 2 ^ 12 + n / 2 ^ 6 % 64 * 2 ^ 6 ≡ n)
      × (as_u8 (n / 2 ^ 16) ≡ a)
      × (as_u8 (n / 2 ^ 8) ≡ b)
digits_of_two a b h k = omega arith

pub digits_of_one :
    (a : ℕ)
    → a < 256
    → let n = a * 65536 in
      (n / 2 ^ 18 % 64 * 2 ^ 18 + n / 2 ^ 12 % 64 * 2 ^ 12 ≡ n) × (as_u8 (n / 2 ^ 16) ≡ a)
digits_of_one a h = omega arith
