-- ===== src/Wire/Values/Integers.antt =====
-- A signed 64-bit integer, as a number or as text, is read as itself.
use lager_rs.Prelude.{
  ℕ, suc, ◌≤◌, ◌≡◌, refl, ap, subst, ◌∙◌, true, false, some, ◌∷◌, Text, ℤ, pos, negsuc, print_int,
  decimal, trim, trim-plain, no_space, all, all_mono, is_digit_char, print_radix-digits,
  print_radix-head, parse_radix, parse_radix-print_radix, parse_digits, parse_digits-print_radix,
  ◌==◌, ◌>>=?◌, arith,
}
use lager_rs.Json.{string}
use lager_rs.Wire.Values.{i64_max, negated, parse_i64, Floats, as_i64}

decimal-digits : (n : ℕ) → all is_digit_char (decimal n) ≡ true
decimal-digits n = print_radix-digits 10 n (omega arith) (omega arith)

parse_i64-unsigned :
    (c : ℕ) (s t : Text)
    → t ≡ c ∷ s
    → all is_digit_char t ≡ true
    → parse_i64 t ≡ (parse_radix 10 i64_max t >>=? λ n. some (pos n))
unfolding parse_i64
parse_i64-unsigned c s t e h =
    let digits : all is_digit_char (c ∷ s) ≡ true = subst (λ t. all is_digit_char t ≡ true) e h in
    let unsigned : (c == b'-') ≡ false = ground arith in rw e (rw unsigned refl)

-- Text that is not empty, behind a minus sign
parse_i64-signed :
    (c : ℕ) (s t : Text)
    → t ≡ c ∷ s
    → parse_i64 (b'-' ∷ t) ≡ (parse_digits 10 (suc i64_max) 0 t >>=? λ n. some (negated n))
unfolding parse_i64
parse_i64-signed c s t e = rw e refl

parse_i64-print_int :
    (n : ℕ)
    → n ≤ i64_max
    → (parse_i64 (print_int (pos n)) ≡ some (pos n))
      × (parse_i64 (print_int (negsuc n)) ≡ some (negsuc n))
unfolding print_int
parse_i64-print_int n h =
    let (c, s, e) = print_radix-head 10 n (omega arith) (omega arith) in
    let (c', s', e') = print_radix-head 10 (suc n) (omega arith) (omega arith) in
    (
      parse_i64-unsigned c s (decimal n) e (decimal-digits n)
          ∙ ap (λ o. o >>=? λ n. some (pos n))
              (parse_radix-print_radix 10 n i64_max h (omega arith) (omega arith)),
      parse_i64-signed c' s' (decimal (suc n)) e'
          ∙ ap (λ o. o >>=? λ n. some (negated n))
              (parse_digits-print_radix 10 (suc n) (suc i64_max) (omega arith) (omega arith)
                (omega arith)),
    )

no_spaces : (n : ℕ) → all no_space (decimal n) ≡ true
no_spaces n = all_mono is_digit_char no_space (decimal n) (λ c d. ground arith) (decimal-digits n)

trim-print_int : (z : ℤ) → trim (print_int z) ≡ print_int z
unfolding print_int
trim-print_int (pos n) = trim-plain (decimal n) (no_spaces n)
trim-print_int (negsuc n) = trim-plain (b'-' ∷ decimal (suc n)) (no_spaces (suc n))

-- An integer of 64 bits that a box sends as text is read as itself.
pub as_i64-print_int :
    (floats : Floats) (n : ℕ)
    → n ≤ i64_max
    → (as_i64 floats (string (print_int (pos n))) ≡ some (pos n))
      × (as_i64 floats (string (print_int (negsuc n))) ≡ some (negsuc n))
unfolding as_i64
as_i64-print_int floats n h =
    let (above, below) = parse_i64-print_int n h in
    (rw (trim-print_int (pos n)) (rw above refl), rw (trim-print_int (negsuc n)) (rw below refl))
