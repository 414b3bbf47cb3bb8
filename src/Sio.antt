-- ===== src/Sio.antt =====
-- nets/sio.rs: `take_through`, which cuts a buffer behind the first occurrence of a pattern.
pub mod Hex
mod Tests
use lager_rs.Prelude.{
  ℕ, zero, suc, ◌+◌, ◌≤◌, ◌<◌, ◌≡◌, refl, sym, ap, subst, ◌∙◌, Option, none, some, [], ◌∷◌, ◌++◌,
  append_assoc, Bytes, Text, length, length-append, strip_prefix, split_once, ◌==◌, ==_iff,
  Bool-cases, Option-cases, inl, inr, if◌then◌else◌, arith,
}

-- What is taken, and what stays in the buffer. The pattern is not empty.
abbrev pub taken : Bytes → Option (Bytes × Bytes) → Option (Bytes × Bytes)
taken needle none = none
taken needle (some (before, after)) = some (before ++ needle, after)

unfoldable pub take_through : Bytes → Bytes → Option (Bytes × Bytes)
unfolding split_once
take_through buf needle = taken needle (split_once needle buf)

strip_prefix-some : (p s t : Bytes) → strip_prefix p s ≡ some t → s ≡ p ++ t
strip_prefix-some [] s t h = ground arith
strip_prefix-some (a ∷ p) [] t h = cc
strip_prefix-some (a ∷ p) (c ∷ s) t h = ground (arith, strip_prefix-some p s t)

strip_prefix-more :
    (p s t more : Bytes) → strip_prefix p s ≡ some t → strip_prefix p (s ++ more) ≡ some (t ++ more)
strip_prefix-more [] s t more h = ground arith
strip_prefix-more (a ∷ p) [] t more h = cc
strip_prefix-more (a ∷ p) (c ∷ s) t more h = ground (arith, strip_prefix-more p s t more)

strip_prefix-differs :
    (p s more : Bytes)
    → length p ≤ length s
    → strip_prefix p s ≡ none
    → strip_prefix p (s ++ more) ≡ none
strip_prefix-differs [] s more k h = cc
strip_prefix-differs (a ∷ p) [] more k h = absurd (omega arith)
strip_prefix-differs (a ∷ p) (c ∷ s) more k h = ground (arith, strip_prefix-differs p s more)

-- `before` ends at the first occurrence of the pattern, and `after` begins behind it.
data IsCut (p : Bytes) : Bytes → Bytes → Bytes → Type 0 where
  here : {s after : Bytes} → strip_prefix p s ≡ some after → IsCut p s [] after
  there :
      {c : ℕ} {s before after : Bytes}
      → strip_prefix p (c ∷ s) ≡ none
      → IsCut p s before after
      → IsCut p (c ∷ s) (c ∷ before) after

abbrev piece : Bytes → Bytes → Option (Bytes × Bytes)
piece a b = some (a, b)

IsCut-here :
    (p s t a b : Bytes) → strip_prefix p s ≡ some t → piece [] t ≡ some (a, b) → IsCut p s a b
IsCut-here p s t a b e h =
    let first : [] ≡ a = cc in
    let rest : t ≡ b = cc in subst (λ x. IsCut p s x b) first (here (e ∙ ap some rest))

split_once-IsCut : (p s a b : Bytes) → split_once p s ≡ some (a, b) → IsCut p s a b
unfolding split_once
split_once-IsCut p [] a b h = elim (Option-cases (strip_prefix p [])) [
  | inl missing ↦ let clash : none ≡ piece a b = rw (missing, split_once) at h in absurd cc
  | inr (t, e) ↦ IsCut-here p [] t a b e (rw (e, split_once) at h)
]
split_once-IsCut p (c ∷ s) a b h = elim (Option-cases (strip_prefix p (c ∷ s))) [
  | inl missing ↦ elim (Option-cases (split_once p s)) [
    | inl nowhere ↦
        let clash : none ≡ piece a b = rw nowhere at (rw (missing, split_once) at h) in absurd cc
    | inr ((before, after), e) ↦
        let same : piece (c ∷ before) after ≡ some (a, b) =
          rw e at (rw (missing, split_once) at h) in
        let first : c ∷ before ≡ a = cc in
        let rest : after ≡ b = cc in
        subst (λ x. IsCut p (c ∷ s) x b) first
          (subst (λ y. IsCut p (c ∷ s) (c ∷ before) y) rest
            (there missing (split_once-IsCut p s before after e)))
  ]
  | inr (t, e) ↦ IsCut-here p (c ∷ s) t a b e (rw (e, split_once) at h)
]

IsCut-split_once : {p s a b : Bytes} → IsCut p s a b → split_once p s ≡ some (a, b)
unfolding split_once
IsCut-split_once {s = []} (here e) = rw (e, split_once)
IsCut-split_once {s = c ∷ s} (here e) = rw (e, split_once)
IsCut-split_once (there missing cut) = rw missing (rw (IsCut-split_once cut))

IsCut-join : {p s a b : Bytes} → IsCut p s a b → s ≡ a ++ (p ++ b)
IsCut-join {p} {s} (here {after = t} e) = strip_prefix-some p s t e
IsCut-join (there {c} missing cut) = ap (λ l. c ∷ l) (IsCut-join cut)

IsCut-room : {p s a b : Bytes} → IsCut p s a b → length p ≤ length s
IsCut-room {p} {s} {a} {b} cut =
    omega (arith, ap length (IsCut-join cut), length-append a (p ++ b), length-append p b)

IsCut-more : {p s a b : Bytes} (more : Bytes) → IsCut p s a b → IsCut p (s ++ more) a (b ++ more)
IsCut-more {p} {s} more (here {after = t} e) = here (strip_prefix-more p s t more e)
IsCut-more {p} more (there {c} {s} missing cut) =
    let room = IsCut-room cut in
    there (strip_prefix-differs p (c ∷ s) more (omega arith) missing) (IsCut-more more cut)

-- What a cut means for the buffer, and for the buffer with more bytes.
abbrev Stable : Bytes → Bytes → Bytes → Bytes → Bytes → Type 0
Stable buf needle more out rest =
    (buf ≡ out ++ rest)
    × ((before : Bytes) × (out ≡ before ++ needle))
    × (take_through (buf ++ more) needle ≡ some (out, rest ++ more))

IsCut-Stable :
    (buf needle before after more : Bytes)
    → IsCut needle buf before after
    → Stable buf needle more (before ++ needle) after
unfolding take_through
IsCut-Stable buf needle before after more cut = (
  IsCut-join cut ∙ sym (append_assoc before needle after),
  (before, refl),
  rw (IsCut-split_once (IsCut-more more cut)),
)

-- What is taken out of the buffer and what stays are together the buffer, and what is taken ends
-- with the pattern. Bytes that arrive later are left in the buffer and change nothing else.
pub take_through-stable :
    (buf needle out rest more : Bytes)
    → take_through buf needle ≡ some (out, rest)
    → (buf ≡ out ++ rest)
      × ((before : Bytes) × (out ≡ before ++ needle))
      × (take_through (buf ++ more) needle ≡ some (out, rest ++ more))
unfolding take_through
take_through-stable buf needle out rest more h = elim (Option-cases (split_once needle buf)) [
  | inl missing ↦ let clash : none ≡ piece out rest = rw (missing, take_through) at h in absurd cc
  | inr ((before, after), e) ↦
      let same : piece (before ++ needle) after ≡ some (out, rest) = rw (e, take_through) at h in
      let first : before ++ needle ≡ out = cc in
      let second : after ≡ rest = cc in
      subst (λ x. Stable buf needle more x rest) first
        (subst (λ y. Stable buf needle more (before ++ needle) y) second
          (IsCut-Stable buf needle before after more (split_once-IsCut needle buf before after e)))
]
