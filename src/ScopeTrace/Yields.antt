-- ===== src/ScopeTrace/Yields.antt =====
-- Reading within a frame is free of panics.
use lager_rs.Prelude.{
  ℕ, zero, suc, ◌+◌, ◌≤◌, ◌<◌, ◌≡◌, refl, ap, ◌∙◌, Option, some, [], ◌∷◌, Bytes, get_elem?, length,
  ◌>>=?◌, arith,
}
use lager_rs.ScopeTrace.Frame.{bytes_at, from_le_bytes, number_at}

-- It is there, and as wanted.
pub data Yields {ℓ} {A : Type ℓ} (P : A → Type 0) (o : Option A) : Type ℓ where
  yields : (a : A) → o ≡ some a → P a → Yields P o

module _ {ℓ κ} {A : Type ℓ} {B : Type κ} {P : A → Type 0} {Q : B → Type 0} where
  pub and_then :
      (o : Option A) (f : A → Option B)
      → Yields P o
      → ((a : A) → P a → Yields Q (f a))
      → Yields Q (o >>=? f)
  and_then o f (yields a e h) k = elim (k a h) [
    | yields b e' h' ↦ yields b (ap (λ o. o >>=? f) e ∙ e') h'
  ]

unfoldable pub Anything : {A : Type 0} → A → Type 0
Anything a = Unit

pub get_elem?-Yields : (buf : Bytes) (i : ℕ) → i < length buf → Yields Anything (get_elem? buf i)
unfolding Anything
get_elem?-Yields [] i h = absurd (omega arith)
get_elem?-Yields (b ∷ buf) zero h = yields b refl tt
get_elem?-Yields (b ∷ buf) (suc i) h = get_elem?-Yields buf i (omega arith)

bytes_at-Yields :
    (n : ℕ) (buf : Bytes) (at : ℕ) → at + n ≤ length buf → Yields Anything (bytes_at n buf at)
unfolding bytes_at Anything
bytes_at-Yields zero buf at h = yields [] refl tt
bytes_at-Yields (suc n) buf at h =
    and_then (get_elem? buf at) _ (get_elem?-Yields buf at (omega arith)) λ b any.
      and_then (bytes_at n buf (suc at)) _ (bytes_at-Yields n buf (suc at) (omega arith))
        λ bs any. yields (b ∷ bs) refl tt

pub number_at-Yields :
    (width : ℕ) (buf : Bytes) (at : ℕ)
    → at + width ≤ length buf
    → Yields Anything (number_at width buf at)
unfolding number_at Anything
number_at-Yields width buf at h =
    and_then (bytes_at width buf at) _ (bytes_at-Yields width buf at h)
      λ bs any. yields (from_le_bytes bs) refl tt
