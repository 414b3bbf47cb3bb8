-- ===== src/ScopeTrace/Channels.antt =====
-- The channels of a decoded frame.
use lager_rs.Prelude.{
  ℕ, suc, ◌+◌, ◌*◌, ◌-◌, ◌≤◌, ◌<◌, ◌≡◌, refl, sym, ap, subst, ◌∙◌, none, some, List, [], ◌∷◌, Bytes,
  ok, get_elem?, drop, length, length-drop, length-map, length-take, leb, leb→gt, ◌==◌, ==_iff,
  Bool-cases, Option-cases, inl, inr, ◌>>=?◌, arith,
}
use native.Mathlib.Nat.{mul-le-mul_right}
use lager_rs.ScopeTrace.Capture.{TraceChannel, ScopeCapture, decode_frame}
use lager_rs.ScopeTrace.Reading.{to_ascii_uppercase, position, channel_index, get_range, counts}
use lager_rs.ScopeTrace.Axes.{FloatOps, volts}
use lager_rs.ScopeTrace.Yields.{Yields, yields}
use lager_rs.ScopeTrace.Safety.{Judged, IsWhole, decode_frame-Yields}

-- The channel at a position has the label.
IsAt : ℕ → List TraceChannel → ℕ → Type 0
IsAt label cs i = Yields (λ c. c.label ≡ label) (get_elem? cs i) × (i < length cs)

position-IsAt :
    (label : ℕ) (cs : List TraceChannel) → (i : ℕ) → position label cs ≡ some i → IsAt label cs i
unfolding position IsAt
position-IsAt label [] i h = absurd cc
position-IsAt label (c ∷ cs) i h = elim (Bool-cases (c.label == label)) [
  | inl same ↦
      let first : some 0 ≡ some i = rw (same, position) at h in
      let e : 0 ≡ i = cc in
      subst (λ i. IsAt label (c ∷ cs) i) e (yields c refl ((==_iff _ _).0 same), omega arith)
  | inr other ↦
      let later : (position label cs >>=? λ i. some (suc i)) ≡ some i = rw (other, position) at h in
      elim (Option-cases (position label cs)) [
        | inl missing ↦ absurd (let clash : none ≡ some i = rw missing at later in cc)
        | inr (j, found) ↦
            let e : some (suc j) ≡ some i = rw found at later in
            let e' : suc j ≡ i = cc in
            let (there, low) = position-IsAt label cs j found in
            subst (λ i. IsAt label (c ∷ cs) i) e' (there, omega arith)
      ]
]

get_range-Yields :
    {A : Type 0} (xs : List A) (from to : ℕ)
    → from ≤ to
    → to ≤ length xs
    → Yields (λ s. length s ≡ to - from) (get_range xs from to)
get_range-Yields xs from to h k = elim (Bool-cases (leb from to)) [
  | inr under ↦ absurd (let gt = leb→gt from to under in omega arith)
  | inl over ↦ elim (Bool-cases (leb to (length xs))) [
    | inr under ↦ absurd (let gt = leb→gt to (length xs) under in omega arith)
    | inl fits ↦ rw over (
        rw fits (
          yields _ refl
            (omega (arith, length-take (to - from) (drop from xs), length-drop from xs))))
  ]
]

counts-Yields :
    (c : ScopeCapture) (label i : ℕ)
    → IsWhole c
    → channel_index c label ≡ some i
    → Yields (λ s. length s ≡ c.samples_per_channel) (counts c label)
unfolding channel_index counts IsWhole IsAt
counts-Yields c label i (whole, letters) h =
    let low = (position-IsAt (to_ascii_uppercase label) c.channels i h).1 in
    let n = c.samples_per_channel in
    let fits : (i + 1) * n ≤ length c.channels * n = mul-le-mul_right n (omega arith) in
    subst (Yields (λ s. length s ≡ n))
      (sym (ap (λ o. o >>=? λ i. get_range c.samples (i * n) ((i + 1) * n)) h))
      (elim (get_range-Yields c.samples (i * n) ((i + 1) * n) (omega arith) (omega arith)) [
        | yields s e size ↦ yields s e (omega arith)
      ])

decode_frame-IsWhole : (buf : Bytes) (c : ScopeCapture) → decode_frame buf ≡ some (ok c) → IsWhole c
unfolding Judged
decode_frame-IsWhole buf c h = elim (decode_frame-Yields buf) [
  | yields r e judged ↦ let same : r ≡ ok c = cc in subst (Judged IsWhole) same judged
]

module _ (float : FloatOps) where
  volts-Yields :
      (c : ScopeCapture) (label i : ℕ)
      → IsWhole c
      → channel_index c label ≡ some i
      → Yields (Yields (λ s. length s ≡ c.samples_per_channel)) (volts float c label)
  unfolding volts IsAt channel_index
  volts-Yields c label i whole h =
      elim ((position-IsAt (to_ascii_uppercase label) c.channels i h).0) [
        | yields channel there e ↦ elim (counts-Yields c label i whole h) [
          | yields s found size ↦
              rw (h, volts)
                (rw there (yields _ refl (rw found (yields _ refl (length-map s _ ∙ size)))))
        ]
      ]

  -- In a capture that was decoded, a channel that is found has exactly the number of samples
  -- that the capture names, as counts and in volts.
  pub decode_frame-volts :
      (buf : Bytes) (c : ScopeCapture)
      → decode_frame buf ≡ some (ok c)
      → (label i : ℕ) → channel_index c label ≡ some i
      → Yields (λ s. length s ≡ c.samples_per_channel) (counts c label)
        × Yields (Yields (λ s. length s ≡ c.samples_per_channel)) (volts float c label)
  decode_frame-volts buf c h label i found =
      let whole = decode_frame-IsWhole buf c h in
      (counts-Yields c label i whole found, volts-Yields c label i whole found)
