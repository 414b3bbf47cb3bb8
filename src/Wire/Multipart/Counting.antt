-- ===== src/Wire/Multipart/Counting.antt =====
-- How many numbers of a range pass a test.
use lager_rs.Prelude.{
  ℕ, zero, suc, ◌+◌, ◌≤◌, ◌<◌, ◌≡◌, refl, Bool, true, false, ◌||◌, inl, inr, Bool-cases, arith,
  if◌then◌else◌,
}

-- Of so many numbers from one on
unfoldable pub count : (ℕ → Bool) → ℕ → ℕ → ℕ
count p zero lo = 0
count p (suc len) lo = let more = count p len (suc lo) in if p lo then suc more else more

abbrev pub Within : ℕ → ℕ → ℕ → Type 0
Within lo len n = (lo ≤ n) × (n < lo + len)

pub count-either :
    (p q : ℕ → Bool) (len lo : ℕ) → count (λ n. p n || q n) len lo ≤ count p len lo + count q len lo
unfolding count
count-either p q zero lo = omega arith
count-either p q (suc len) lo = ground (arith, count-either p q len (suc lo))

pub count-none :
    (p : ℕ → Bool) (len lo : ℕ) → ((n : ℕ) → Within lo len n → p n ≡ false) → count p len lo ≡ 0
unfolding count
count-none p zero lo h = refl
count-none p (suc len) lo h =
    rw (h lo (omega arith, omega arith))
      (count-none p len (suc lo) (λ n (above, below). h n (omega arith, omega arith)))

-- A test that no two numbers pass
pub count-one :
    (p : ℕ → Bool) (len lo : ℕ)
    → ((i j : ℕ) → Within lo len i → Within lo len j → p i ≡ true → p j ≡ true → i ≡ j)
    → count p len lo ≤ 1
unfolding count
count-one p zero lo h = omega arith
count-one p (suc len) lo h = elim (Bool-cases (p lo)) [
  | inl first ↦
      let rest : count p len (suc lo) ≡ 0 = count-none p len (suc lo) (λ n (above, below).
        elim (Bool-cases (p n)) [
          | inl second ↦
              let same : lo ≡ n =
                h lo n (omega arith, omega arith) (omega arith, omega arith) first second in
              absurd (omega arith)
          | inr fails ↦ fails
        ]) in
      rw first (omega arith)
  | inr fails ↦ rw fails (
      count-one p len (suc lo)
        (λ i j (a, b) (c, d). h i j (omega arith, omega arith) (omega arith, omega arith)))
]

-- Where fewer pass than there are, one does not.
pub count-fails :
    (p : ℕ → Bool) (len lo : ℕ) → count p len lo < len → (n : ℕ) × Within lo len n × (p n ≡ false)
unfolding count
count-fails p zero lo h = absurd (omega arith)
count-fails p (suc len) lo h = elim (Bool-cases (p lo)) [
  | inl passes ↦
      let (n, (above, below), fails) = count-fails p len (suc lo) (ground arith) in
      (n, (omega arith, omega arith), fails)
  | inr fails ↦ (lo, (omega arith, omega arith), fails)
]
