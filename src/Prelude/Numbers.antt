-- ===== src/Prelude/Numbers.antt =====
-- Numbers as text: `from_str_radix` and `FromStr` of Rust's unsigned integers, and the `{}`,
-- `{:02x}` and `{:02X}` formats.
use Prim.Native.Nat.{ℕ, zero, suc, ◌+◌, ◌-◌, ◌*◌, ◌/◌, ◌%◌, ◌≤◌, ◌<◌}
use mathlib.Core.Path.{◌≡◌, refl, ◌∙◌, ap}
use mathlib.Core.Logic.{inl, inr}
use mathlib.Core.Bool.{Bool, true, false, ◌||◌}
use mathlib.Core.Option.{Option, none, some}
use mathlib.Core.List.{[], ◌∷◌, ◌++◌}
use native.Mathlib.Omega.{arith}
use lager_rs.Prelude.Tests.{ltb, leb, ◌==◌, if◌then◌else◌, Bool-cases}
use lager_rs.Prelude.Lists.{is_empty, all, all-append}
use lager_rs.Prelude.Results.{◌>>=?◌}
use lager_rs.Prelude.Strings.{Text, within}

-- `char::to_digit`
abbrev in_radix : ℕ → ℕ → Option ℕ
in_radix r d = if ltb d r then some d else none

unfoldable pub digit_value : ℕ → ℕ → Option ℕ
digit_value r c =
    if within b'0' b'9' c
    then in_radix r (c - 48)
    else if within b'a' b'z' c
    then in_radix r (c - 87)
    else if within b'A' b'Z' c
    then in_radix r (c - 55)
    else none

unfoldable pub parse_digits : ℕ → ℕ → ℕ → Text → Option ℕ
parse_digits r top acc [] = some acc
parse_digits r top acc (c ∷ s) = digit_value r c >>=? λ d.
    let rest = parse_digits r top (acc * r + d) s in if leb (acc * r + d) top then rest else none

-- An unsigned integer of at most `top`: digits behind an optional `+`, and no overflow.
unfoldable pub parse_radix : ℕ → ℕ → Text → Option ℕ
unfolding parse_digits digit_value
parse_radix r top [] = none
parse_radix r top (c ∷ s) =
    if c == b'+'
    then (if is_empty s then none else parse_digits r top 0 s)
    else parse_digits r top 0 (c ∷ s)

abbrev pub digit_char : ℕ → ℕ
digit_char d = if ltb d 10 then d + 48 else d + 87

abbrev pub upper_digit_char : ℕ → ℕ
upper_digit_char d = if ltb d 10 then d + 48 else d + 55

unfoldable pub print_fuel : ℕ → ℕ → ℕ → Text
print_fuel zero r n = []
print_fuel (suc f) r n =
    let more = print_fuel f r (n / r) ++ digit_char (n % r) ∷ [] in
    if ltb n r then digit_char n ∷ [] else more

-- `{}` for radix 10, `{:x}` for radix 16
unfoldable pub print_radix : ℕ → ℕ → Text
unfolding print_fuel
print_radix r n = print_fuel (suc n) r n

abbrev pub decimal : ℕ → Text
decimal = print_radix 10

-- `{:02x}` and `{:02X}` of a byte
unfoldable pub hex_byte : ℕ → Text
hex_byte b = digit_char (b / 16) ∷ digit_char (b % 16) ∷ []

unfoldable pub upper_hex_byte : ℕ → Text
upper_hex_byte b = upper_digit_char (b / 16) ∷ upper_digit_char (b % 16) ∷ []

pub digit_value-digit_char : (r d : ℕ) → d < r → r ≤ 16 → digit_value r (digit_char d) ≡ some d
unfolding digit_value
digit_value-digit_char r d h k = ground arith

parse_digits-concat :
    (r top acc : ℕ) (s : Text) (c a d : ℕ)
    → parse_digits r top acc s ≡ some a
    → digit_value r c ≡ some d
    → a * r + d ≤ top
    → parse_digits r top acc (s ++ c ∷ []) ≡ some (a * r + d)
unfolding parse_digits
parse_digits-concat r top acc [] c a d h k l = ground arith
parse_digits-concat r top acc (x ∷ s) c a d h k l =
    elim (digit_value r x)
        as (λ o.
          (o >>=? λ e.
          let rest = parse_digits r top (acc * r + e) s in
          if leb (acc * r + e) top then rest else none)
            ≡ some a
          → (o >>=? λ e.
              let rest = parse_digits r top (acc * r + e) (s ++ c ∷ []) in
              if leb (acc * r + e) top then rest else none)
            ≡ some (a * r + d)) [
              | none ↦ λ p. cc
              | some e ↦ λ p. ground (arith, parse_digits-concat r top (acc * r + e) s c a d)
            ]
      h

quotient_remainder : (r n : ℕ) → 1 < r → (n / r * r + n % r ≡ n) × (n % r < r)
quotient_remainder r n h = grind arith

div_below : (r n f : ℕ) → 1 < r → r ≤ n → n < suc f → n / r < f
div_below r n f h k l = grind arith

quotient_below : (r n top : ℕ) → n ≤ top → 1 < r → n / r ≤ top
quotient_below r n top h k = grind arith

print_fuel_lem :
    (f r n top : ℕ)
    → n < f
    → n ≤ top
    → 1 < r
    → r ≤ 16
    → parse_digits r top 0 (print_fuel f r n) ≡ some n
unfolding print_fuel
print_fuel_lem zero r n top h k l m = absurd (omega arith)
print_fuel_lem (suc f) r n top h k l m = elim (Bool-cases (ltb n r)) [
  | inl small ↦ rw small (unfold parse_digits in ground (arith, digit_value-digit_char r n))
  | inr big ↦ rw big (
      parse_digits-concat r top 0 (print_fuel f r (n / r)) (digit_char (n % r)) (n / r) (n % r)
        (print_fuel_lem f r (n / r) top (div_below r n f l (ground arith) h)
          (quotient_below r n top k l) l m)
        (digit_value-digit_char r (n % r) (quotient_remainder r n l).1 m)
        (omega (arith, quotient_remainder r n l))
      ∙ ap some (quotient_remainder r n l).0)
]

-- Printed digits are never `+`, and there is at least one.
print_fuel_head :
    (f r n : ℕ)
    → n < f
    → 1 < r
    → r ≤ 16
    → (c : ℕ) × (s : Text) × (print_fuel f r n ≡ c ∷ s) × ((c == b'+') ≡ false)
unfolding print_fuel
print_fuel_head zero r n h l m = absurd (omega arith)
print_fuel_head (suc f) r n h l m = elim (Bool-cases (ltb n r)) [
  | inl small ↦ (digit_char n, [], rw small, ground arith)
  | inr big ↦
      let (c, s, e, ne) = print_fuel_head f r (n / r) (div_below r n f l (ground arith) h) l m in
      (c, s ++ digit_char (n % r) ∷ [], rw big (rw e), ne)
]

no_plus :
    (r top c : ℕ) (s t : Text)
    → t ≡ c ∷ s
    → (c == b'+') ≡ false
    → parse_radix r top t ≡ parse_digits r top 0 t
unfolding parse_radix
no_plus r top c s t e ne = rw e (rw ne)

-- What `{}` prints, `from_str_radix` reads back.
pub parse_radix-print_radix :
    (r n top : ℕ) → n ≤ top → 1 < r → r ≤ 16 → parse_radix r top (print_radix r n) ≡ some n
unfolding print_radix
parse_radix-print_radix r n top k l m =
    let (c, s, e, ne) = print_fuel_head (suc n) r n (omega arith) l m in
    no_plus r top c s (print_radix r n) e ne ∙ print_fuel_lem (suc n) r n top (omega arith) k l m

pub parse_digits-print_radix :
    (r n top : ℕ) → n ≤ top → 1 < r → r ≤ 16 → parse_digits r top 0 (print_radix r n) ≡ some n
unfolding print_radix
parse_digits-print_radix r n top k l m = print_fuel_lem (suc n) r n top (omega arith) k l m

-- What is printed has a first character.
pub print_radix-head : (r n : ℕ) → 1 < r → r ≤ 16 → (c : ℕ) × (s : Text) × (print_radix r n ≡ c ∷ s)
unfolding print_radix
print_radix-head r n l m =
    let (c, s, e, ne) = print_fuel_head (suc n) r n (omega arith) l m in (c, s, e)

-- A number that is read is in range.
parse_digits_bound :
    (r top acc n : ℕ) (s : Text) → acc ≤ top → parse_digits r top acc s ≡ some n → n ≤ top
unfolding parse_digits
parse_digits_bound r top acc n [] h e = ground arith
parse_digits_bound r top acc n (c ∷ s) h e =
    elim (digit_value r c)
        as (λ o.
          (o >>=? λ d.
          let rest = parse_digits r top (acc * r + d) s in
          if leb (acc * r + d) top then rest else none)
            ≡ some n
          → n ≤ top) [
            | none ↦ λ p. cc
            | some d ↦ λ p. ground (arith, parse_digits_bound r top (acc * r + d) n s)
          ]
      e

pub parse_radix_bound : (r top n : ℕ) (s : Text) → parse_radix r top s ≡ some n → n ≤ top
unfolding parse_radix
parse_radix_bound r top n [] e = cc
parse_radix_bound r top n (c ∷ s) e = elim (Bool-cases (c == b'+')) [
  | inl plus ↦ ground (arith, parse_digits_bound r top 0 n s)
  | inr other ↦ parse_digits_bound r top 0 n (c ∷ s) (omega arith) (rw other at e)
]

abbrev pub is_digit_char : ℕ → Bool
is_digit_char c = within b'0' b'9' c || within b'a' b'f' c

digit_char_range : (d : ℕ) → d < 16 → is_digit_char (digit_char d) ≡ true
digit_char_range d h = ground arith

print_fuel-digits : (f r n : ℕ) → 1 < r → r ≤ 16 → all is_digit_char (print_fuel f r n) ≡ true
unfolding print_fuel
print_fuel-digits zero r n h k = refl
print_fuel-digits (suc f) r n h k = elim (Bool-cases (ltb n r)) [
  | inl small ↦ rw small (rw (digit_char_range n (ground arith)))
  | inr big ↦ rw big (
      all-append is_digit_char (print_fuel f r (n / r)) (digit_char (n % r) ∷ [])
        (print_fuel-digits f r (n / r) h k)
        (rw (digit_char_range (n % r) (omega (arith, quotient_remainder r n h)))))
]

-- A printed number is made of digits, and of letters in hexadecimal.
pub print_radix-digits : (r n : ℕ) → 1 < r → r ≤ 16 → all is_digit_char (print_radix r n) ≡ true
unfolding print_radix
print_radix-digits r n h k = print_fuel-digits (suc n) r n h k
