-- ===== src/Action.antt =====
-- Fallible calls on a state: what `?` and `and_then` do where a call also changes the client.
pub mod Inversion
pub mod Agreement
use lager_rs.Prelude.{Option, none, some, Result, ok, err}
use lager_rs.Error.{Error, Res}

abbrev pub Action : Type 0 → Type 0 → Type 0
Action S A = S → Res A × S

module _ {S : Type 0} where
  abbrev pub and_then : {A B : Type 0} → Res A × S → (A → Action S B) → Res B × S
  and_then (ok a, s) f = f a s
  and_then (err e, s) f = (err e, s)

  infixl 5 ◌>>=◌
  abbrev pub ◌>>=◌ : {A B : Type 0} → Action S A → (A → Action S B) → Action S B
  ◌>>=◌ m f s = and_then (m s) f

  abbrev pub give : {A : Type 0} → Res A → Action S A
  give r s = (r, s)

  abbrev pub map_result : {A B : Type 0} → (Res A → Res B) → Action S A → Action S B
  map_result f m s = let (r, s') = m s in (f r, s')

abbrev pub on_error : {A : Type 0} → (Error → Error) → Res A → Res A
on_error f (ok a) = ok a
on_error f (err e) = err (f e)

abbrev pub or_else_err : {A : Type 0} → Res A → Error → Res A
or_else_err (ok a) e = ok a
or_else_err (err e) e' = err e'
