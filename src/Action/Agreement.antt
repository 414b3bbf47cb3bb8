-- ===== src/Action/Agreement.antt =====
-- Two calls that give the same result, or fail both, and leave the same state.
use lager_rs.Prelude.{◌≡◌, refl, ok, err}
use lager_rs.Error.{Res}

-- The same result, or an error both times
abbrev pub Agrees : {A : Type 0} → Res A → Res A → Type 0
Agrees (ok a) (ok b) = a ≡ b
Agrees (err e) (err e') = Unit
Agrees (ok a) (err e) = ⊥
Agrees (err e) (ok a) = ⊥

abbrev pub AgreesAt : {A S : Type 0} → Res A × S → Res A × S → Type 0
AgreesAt (r, s) (r', s') = Agrees r r' × (s ≡ s')

pub Agrees-refl : {A : Type 0} (r : Res A) → Agrees r r
Agrees-refl (ok a) = refl
Agrees-refl (err e) = tt
