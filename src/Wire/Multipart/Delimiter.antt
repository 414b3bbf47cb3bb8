-- ===== src/Wire/Multipart/Delimiter.antt =====
-- Where a delimiter first occurs. It starts with a character that it has nowhere else, so no
-- occurrence reaches from the text before it into it.
use lager_rs.Prelude.{
  ℕ, ◌≡◌, refl, ap, subst, ◌∙◌, cut_here, inl, inr, true, false, none, some, [], ◌∷◌, ◌++◌, Text,
  contains, contains_char, starts_with, strip_prefix, split_once, ◌==◌, ==_iff, Bool-cases,
  Option-cases, arith,
}

pub strip_prefix-append : (p t : Text) → strip_prefix p (p ++ t) ≡ some t
strip_prefix-append [] t = refl
strip_prefix-append (c ∷ p) t = rw ((==_iff c c).1 refl) (strip_prefix-append p t)

-- A match in front of `c` that does not hold `c` ends before it.
starts_before :
    (q d : Text) (c : ℕ) (t : Text)
    → contains_char c q ≡ false
    → starts_with q (d ++ c ∷ t) ≡ true
    → starts_with q d ≡ true
starts_before [] d c t away h = refl
starts_before (a ∷ q) [] c t away h = ground arith
starts_before (a ∷ q) (x ∷ d) c t away h = ground (arith, starts_before q d c t)

starts-contains : (w s : Text) → starts_with w s ≡ true → contains w s ≡ true
unfolding contains
starts-contains w [] h = h
starts-contains w (x ∷ s) h = rw h

contains_suffix : (pre w s : Text) → starts_with (pre ++ w) s ≡ true → contains w s ≡ true
unfolding contains
contains_suffix [] w s h = starts-contains w s h
contains_suffix (a ∷ pre) w [] h = cc
contains_suffix (a ∷ pre) w (x ∷ s) h = ground (arith, contains_suffix pre w s)

held_clash : (w : Text) (x : ℕ) (d : Text) → contains w d ≡ true → contains w (x ∷ d) ≡ false → ⊥
unfolding contains
held_clash w x d inside free = ground (arith)

no_match :
    (c : ℕ) (q pre w : Text) (x : ℕ) (d t : Text)
    → q ≡ pre ++ w
    → contains_char c q ≡ false
    → contains w (x ∷ d) ≡ false
    → strip_prefix (c ∷ q) (x ∷ d ++ c ∷ t) ≡ none
no_match c q pre w x d t e away free = elim (Bool-cases (c == x)) [
  | inr other ↦ rw other refl
  | inl same ↦ rw same (elim (Option-cases (strip_prefix q (d ++ c ∷ t))) [
    | inl gone ↦ gone
    | inr (r, found) ↦
        let before : starts_with q d ≡ true = starts_before q d c t away (rw found refl) in
        let inside : contains w d ≡ true =
          contains_suffix pre w d (subst (λ p. starts_with p d ≡ true) e before) in
        absurd (held_clash w x d inside free)
  ])
]

held_less : (w : Text) (x : ℕ) (d : Text) → contains w (x ∷ d) ≡ false → contains w d ≡ false
unfolding contains
held_less w x d free = ground arith

-- Text that does not hold the end of the delimiter is cut off at the delimiter behind it.
pub split_once-delimiter :
    (c : ℕ) (q pre w : Text) (s rest : Text)
    → q ≡ pre ++ w
    → contains_char c q ≡ false
    → contains w s ≡ false
    → split_once (c ∷ q) (s ++ (c ∷ (q ++ rest))) ≡ some (s, rest)
unfolding split_once
split_once-delimiter c q pre w [] rest e away free = rw (strip_prefix-append (c ∷ q) rest) refl
split_once-delimiter c q pre w (x ∷ s) rest e away free =
    ap (λ o. cut_here o x (split_once (c ∷ q) (s ++ (c ∷ (q ++ rest)))))
      (no_match c q pre w x s (q ++ rest) e away free)
    ∙ ap (λ o. cut_here none x o)
        (split_once-delimiter c q pre w s rest e away (held_less w x s free))
