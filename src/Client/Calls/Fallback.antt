-- ===== src/Client/Calls/Fallback.antt =====
-- The list of nets is asked for on a second route where the first fails.
use lager_rs.Prelude.{◌≡◌, refl, ap, ◌⊎◌, inl, inr, ℕ, str, ok, err}
use lager_rs.Json.{Value}
use lager_rs.Error.{Error, Res}
use lager_rs.Action.{Action}
use lager_rs.Action.Inversion.{and_then-err, or_else_err-err, or_else_err-ok}
use lager_rs.Wire.Request.{HttpRequest}
use lager_rs.Client.Calls.{get_json, or_instead, nets_body, nets_raw}

module _ {S : Type 0} (execute : HttpRequest → Action S (ℕ × Value)) where
  module _ {A : Type 0} (second : Action S A) where
    or_instead-err :
        (p : Res A × S) {e : Error}
        → (or_instead execute second p).0 ≡ err e
        → (p.0 ≡ err e) × ((e' : Error) × ((second p.1).0 ≡ err e'))
    or_instead-err (ok a, s) h = cc
    or_instead-err (err e, s) h =
        let (same, last) = or_else_err-err (second s).0 h in (ap err same, last)

    or_instead-ok :
        (p : Res A × S) {a : A}
        → (or_instead execute second p).0 ≡ ok a
        → ((p.0 ≡ ok a) × (or_instead execute second p ≡ p))
          ⊎ ((e : Error) × (p.0 ≡ err e) × ((second p.1).0 ≡ ok a))
    or_instead-ok (ok a, s) h = inl (h, refl)
    or_instead-ok (err e, s) h = inr (e, refl, or_else_err-ok (second s).0 e h)

  -- The list fails only where both routes do, and its error is that of the first.
  pub nets_raw-err :
      (s : S) {e : Error}
      → (nets_raw execute s).0 ≡ err e
      → ((get_json execute (str "/nets/list") s).0 ≡ err e)
        × ((e' : Error) × ((get_json execute
                (str "/uart/nets/list")
                (get_json execute (str "/nets/list") s).1).0
              ≡ err e'))
  unfolding nets_raw nets_body
  nets_raw-err s h = elim (and_then-err _ (nets_body execute s) h) [
    | inl first ↦ or_instead-err _ (get_json execute (str "/nets/list") s) first
    | inr (body, _, clash) ↦ cc
  ]
