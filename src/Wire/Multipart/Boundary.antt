-- ===== src/Wire/Multipart/Boundary.antt =====
-- The search for a boundary ends before its counter overflows, and what it finds is in no part: at
-- one place in the parts no two candidates with ten digits can start, so that the parts have as many
-- bytes as they hold such candidates.
use lager_rs.Prelude.{
  ℕ, zero, suc, ◌+◌, ◌-◌, ◌*◌, ◌/◌, ◌%◌, ◌^◌, ◌≤◌, ◌<◌, ◌≡◌, refl, ap, subst, sym, ◌∙◌, digit_char,
  inl, inr, true, false, Option, some, List, [], ◌∷◌, Text, contains, starts_with, strip_prefix,
  decimal, print_fuel, print_radix, parse_radix, parse_radix-print_radix, length, length-append,
  ltb, Bool-cases, ◌==◌, ==_iff, arith,
}
use lager_rs.Wire.Multipart.{
  FormPart, boundary_prefix, candidate, is_in_part, find_boundary, next_number,
}
use lager_rs.Wire.Multipart.Counting.{
  count, Within, count-either, count-none, count-one, count-fails,
}
use lager_rs.Wire.Multipart.Delimiter.{strip_prefix-append}

abbrev some_text : Text → Option Text
some_text s = some s

some_inj : {s t : Text} → some_text s ≡ some_text t → s ≡ t
some_inj h = cc

abbrev some_number : ℕ → Option ℕ
some_number n = some n

number_inj : {i j : ℕ} → some_number i ≡ some_number j → i ≡ j
number_inj h = cc

decimal_inj : (i j : ℕ) → decimal i ≡ decimal j → i ≡ j
decimal_inj i j h = number_inj (
    sym (parse_radix-print_radix 10 i (i + j) (omega arith) (omega arith) (omega arith))
    ∙ ap (parse_radix 10 (i + j)) h
    ∙ parse_radix-print_radix 10 j (i + j) (omega arith) (omega arith) (omega arith))

candidate_inj : (i j : ℕ) → candidate i ≡ candidate j → i ≡ j
candidate_inj i j h = decimal_inj i j (
    some_inj (
      sym (strip_prefix-append boundary_prefix (decimal i))
      ∙ ap (strip_prefix boundary_prefix) h
      ∙ strip_prefix-append boundary_prefix (decimal j)))

head_starts : (x : ℕ) (p : Text) (c : ℕ) (s : Text) → starts_with (x ∷ p) (c ∷ s) ≡ true → x ≡ c
head_starts x p c s h = ground arith

tail_starts :
    (x : ℕ) (p : Text) (c : ℕ) (s : Text)
    → starts_with (x ∷ p) (c ∷ s) ≡ true
    → starts_with p s ≡ true
tail_starts x p c s h = ground arith

-- Two texts of one length at the front of a text are the same.
starts_with-same :
    (p q s : Text) → length p ≡ length q → starts_with p s ≡ true → starts_with q s ≡ true → p ≡ q
starts_with-same [] [] s l h k = refl
starts_with-same [] (y ∷ q) s l h k = absurd (omega arith)
starts_with-same (x ∷ p) [] s l h k = absurd (omega arith)
starts_with-same (x ∷ p) (y ∷ q) [] l h k = cc
starts_with-same (x ∷ p) (y ∷ q) (c ∷ s) l h k =
    ap (λ r. x ∷ r)
      (starts_with-same p q s (omega arith) (tail_starts x p c s h) (tail_starts y q c s k))
    ∙ ap (λ z. z ∷ q) (head_starts x p c s h ∙ sym (head_starts y q c s k))

pow_suc : (k : ℕ) → 10 ^ suc k ≡ 10 * 10 ^ k
pow_suc k = omega arith

pow_pos : (k : ℕ) → 1 ≤ 10 ^ k
pow_pos zero = omega arith
pow_pos (suc k) = omega (arith, pow_suc k, pow_pos k)

-- A number from 10 ^ k on and below 10 ^ (k + 1) has k + 1 digits.
print_fuel-length :
    (f k n : ℕ) → n < f → 10 ^ k ≤ n → n < 10 ^ suc k → length (print_fuel f 10 n) ≡ suc k
unfolding print_fuel
print_fuel-length zero k n h l u = absurd (omega arith)
print_fuel-length (suc f) zero n h l u = let small : ltb n 10 ≡ true = ground arith in rw small refl
print_fuel-length (suc f) (suc k) n h l u =
    let ten : 10 * 10 ^ k ≤ n = omega (arith, pow_suc k) in
    let less : n < 10 * 10 ^ suc k = omega (arith, pow_suc (suc k)) in
    let some_digits : 1 ≤ 10 ^ k = pow_pos k in
    let big : ltb n 10 ≡ false = ground arith in
    rw big (
      omega (
        arith,
        length-append (print_fuel f 10 (n / 10)) (digit_char (n % 10) ∷ []),
        print_fuel-length f k (n / 10) (omega arith) (omega arith) (omega arith),
      ))

decimal-length : (k n : ℕ) → 10 ^ k ≤ n → n < 10 ^ suc k → length (decimal n) ≡ suc k
unfolding print_radix
decimal-length k n l u = print_fuel-length (suc n) k n (omega arith) l u

abbrev pub total : List FormPart → ℕ
total [] = 0
total (p ∷ ps) = length p.contents + total ps

-- Candidates of one length
module _ (k len lo : ℕ) (from : 10 ^ k ≤ lo) (to : lo + len ≤ 10 ^ suc k) where
  candidate-length :
      (n : ℕ) → Within lo len n → length (candidate n) ≡ length boundary_prefix + suc k
  candidate-length n (above, below) =
      length-append boundary_prefix (decimal n)
      ∙ ap (λ d. length boundary_prefix + d) (decimal-length k n (omega arith) (omega arith))

  starting : (s : Text) → count (λ n. starts_with (candidate n) s) len lo ≤ 1
  starting s =
      count-one (λ n. starts_with (candidate n) s) len lo
        (λ i j a b h h'. candidate_inj i j (
          starts_with-same (candidate i) (candidate j) s
            (candidate-length i a ∙ sym (candidate-length j b)) h h'))

  contained : (s : Text) → count (λ n. contains (candidate n) s) len lo ≤ length s
  unfolding contains
  contained [] =
      subst (λ c. c ≤ 0) (sym (count-none (λ n. false) len lo (λ n w. refl))) (omega arith)
  contained (c ∷ s) = omega (
    arith,
    count-either (λ n. starts_with (candidate n) (c ∷ s)) (λ n. contains (candidate n) s) len lo,
    starting (c ∷ s),
    contained s,
  )

  in_parts :
      (parts : List FormPart) → count (λ n. is_in_part (candidate n) parts) len lo ≤ total parts
  unfolding is_in_part
  in_parts [] =
      subst (λ c. c ≤ 0) (sym (count-none (λ n. false) len lo (λ n w. refl))) (omega arith)
  in_parts (p ∷ ps) = omega (
    arith,
    count-either (λ n. contains (candidate n) p.contents) (λ n. is_in_part (candidate n) ps) len lo,
    contained p.contents,
    in_parts ps,
  )

  free_candidate :
      (parts : List FormPart)
      → total parts < len
      → (n : ℕ) × Within lo len n × (is_in_part (candidate n) parts ≡ false)
  free_candidate parts h =
      count-fails (λ n. is_in_part (candidate n) parts) len lo (omega (arith, in_parts parts))

-- With less than 2 ^ 32 - 10 ^ 9 bytes, one of the candidates with ten digits is in no part.
free_number :
    (parts : List FormPart)
    → total parts + 10 ^ 9 < 2 ^ 32
    → (n : ℕ) × (n < 2 ^ 32) × (is_in_part (candidate n) parts ≡ false)
free_number parts h =
    let (n, (above, below), free) =
      free_candidate 9 (2 ^ 32 - 10 ^ 9) (10 ^ 9) (omega arith) (omega arith) parts (omega arith) in
    (n, omega arith, free)

abbrev Finds : ℕ → ℕ → List FormPart → Type 0
Finds turns n parts =
    (found : ℕ) × (found < 2 ^ 32)
    × (find_boundary turns n parts ≡ some (candidate found))
    × (is_in_part (candidate found) parts ≡ false)

-- The counter comes to a free number before it overflows.
find_boundary_from :
    (turns n m : ℕ) (parts : List FormPart)
    → n ≤ m
    → m < 2 ^ 32
    → m < n + turns
    → is_in_part (candidate m) parts ≡ false
    → Finds turns n parts
unfolding find_boundary
find_boundary_from zero n m parts h l t free = absurd (omega arith)
find_boundary_from (suc turns) n m parts h l t free =
    elim (Bool-cases (is_in_part (candidate n) parts)) [
      | inr here ↦ (n, omega arith, rw here refl, here)
      | inl inside ↦ elim (Bool-cases (n == m)) [
        | inl end ↦
            let same : n ≡ m = (==_iff n m).0 end in
            let clash : true ≡ false =
              sym inside ∙ subst (λ x. is_in_part (candidate x) parts ≡ false) (sym same) free in
            absurd cc
        | inr before ↦
            let differ : n < m = ground arith in
            let step : next_number n ≡ suc n = omega arith in
            let (found, fits, finds, is_free) =
              find_boundary_from turns (suc n) m parts (omega arith) l (omega arith) free in
            (found, fits, rw inside (ap (λ x. find_boundary turns x parts) step ∙ finds), is_free)
      ]
    ]

pub find_boundary-free :
    (turns : ℕ) (parts : List FormPart)
    → total parts + 10 ^ 9 < 2 ^ 32
    → 2 ^ 32 ≤ turns
    → (found : ℕ) × (found < 2 ^ 32)
      × (find_boundary turns 0 parts ≡ some (candidate found))
      × (is_in_part (candidate found) parts ≡ false)
find_boundary-free turns parts few enough =
    let (m, fits, free) = free_number parts few in
    find_boundary_from turns 0 m parts (omega arith) fits (omega arith) free
