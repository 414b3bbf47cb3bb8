-- ===== src/Action/Inversion.antt =====
-- What the result of a sequence of calls says of its parts.
use lager_rs.Prelude.{◌≡◌, refl, ◌⊎◌, inl, inr, ok, err}
use lager_rs.Error.{Error, Res}
use lager_rs.Action.{Action, and_then, on_error, or_else_err}

module _ {S A B : Type 0} (f : A → Action S B) where
  pub and_then-ok :
      (p : Res A × S) {b : B}
      → (and_then p f).0 ≡ ok b
      → (a : A) × (p.0 ≡ ok a) × ((f a p.1).0 ≡ ok b)
  and_then-ok (ok a, s) h = (a, refl, h)
  and_then-ok (err e, s) h = cc

  -- The first error stands.
  pub and_then-err :
      (p : Res A × S) {e : Error}
      → (and_then p f).0 ≡ err e
      → (p.0 ≡ err e) ⊎ ((a : A) × (p.0 ≡ ok a) × ((f a p.1).0 ≡ err e))
  and_then-err (ok a, s) h = inr (a, refl, h)
  and_then-err (err e, s) h = inl (cc)

pub on_error-ok :
    {A : Type 0} (f : Error → Error) (r : Res A) {a : A} → on_error f r ≡ ok a → r ≡ ok a
on_error-ok f (ok a) h = h
on_error-ok f (err e) h = cc

pub or_else_err-err :
    {A : Type 0} (r : Res A) {e e' : Error}
    → or_else_err r e ≡ err e'
    → (e ≡ e') × ((last : Error) × (r ≡ err last))
or_else_err-err (ok a) h = cc
or_else_err-err (err last) h = (cc, (last, refl))

pub or_else_err-ok :
    {A : Type 0} (r : Res A) (e : Error) {a : A} → or_else_err r e ≡ ok a → r ≡ ok a
or_else_err-ok (ok a) e h = h
or_else_err-ok (err last) e h = cc
