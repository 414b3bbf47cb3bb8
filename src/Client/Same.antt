-- ===== src/Client/Same.antt =====
-- Two ways to send that agree make the same of a request, with the gateway's denials handled.
use lager_rs.Prelude.{
  ℕ, ◌≡◌, refl, ap, subst, inl, inr, Bool, not, ◌&&◌, Option, none, some, Text, ok, err, is_some,
  Bool-cases, ◌==◌,
}
use lager_rs.Error.{Error, Res}
use lager_rs.Action.Agreement.{Agrees, AgreesAt}
use lager_rs.Auth.Gateway.{has_static_token}
use lager_rs.Client.{
  Client, Services, Answer, resolve, learn, current_token, send_with, judge_second, second_try,
  on_denial, judge_first, send_first, with_gateway_auth,
}

module _ {D N T : Type 0} (s : Services D) (send send' : Option Text → N → Res (Answer T) × N)
    (agree : (token : Option Text) (n : N) → AgreesAt (send token n) (send' token n)) where
  -- A judge of answers that is the same for the same answer, and passes errors on
  lift_agreement :
      (judge judge' : Res (Answer T) × Client D N → Res (ℕ × T) × Client D N)
      → ((a : Answer T) (c : Client D N) → AgreesAt (judge (ok a, c)) (judge' (ok a, c)))
      → ((e e' : Error) (c : Client D N) → AgreesAt (judge (err e, c)) (judge' (err e', c)))
      → (r r' : Res (Answer T)) (c c' : Client D N) → Agrees r r'
      → c ≡ c'
      → AgreesAt (judge (r, c)) (judge' (r', c'))
  lift_agreement judge judge' on_ok on_err (ok a) (ok a') c c' h k =
      subst (λ d. AgreesAt (judge (ok a, c)) (judge' (ok a', d))) k
        (subst (λ b. AgreesAt (judge (ok a, c)) (judge' (ok b, c))) h (on_ok a c))
  lift_agreement judge judge' on_ok on_err (err e) (err e') c c' h k =
      subst (λ d. AgreesAt (judge (err e, c)) (judge' (err e', d))) k (on_err e e' c)
  lift_agreement judge judge' on_ok on_err (ok a) (err e) c c' h k = absurd h
  lift_agreement judge judge' on_ok on_err (err e) (ok a) c c' h k = absurd h

  judge_second-same :
      (a : Answer T) (c : Client D N)
      → AgreesAt (judge_second s send (ok a, c)) (judge_second s send' (ok a, c))
  judge_second-same (status, none, body) c = (refl, refl)
  judge_second-same (status, some url, body) c = (tt, refl)

  after_send :
      (judge judge' : Res (Answer T) × Client D N → Res (ℕ × T) × Client D N)
      → ((a : Answer T) (c : Client D N) → AgreesAt (judge (ok a, c)) (judge' (ok a, c)))
      → ((e e' : Error) (c : Client D N) → AgreesAt (judge (err e, c)) (judge' (err e', c)))
      → (token : Option Text) (c : Client D N)
      → AgreesAt (judge (send_with s send token c)) (judge' (send_with s send' token c))
  after_send judge judge' on_ok on_err token c =
      let (same, at) = agree token c.network in
      lift_agreement judge judge' on_ok on_err (send token c.network).0 (send' token c.network).0 _
        _ same (ap (λ (n : N). record c { network = n }) at)

  second_try-Agrees :
      (status : ℕ) (url : Text) (sent : Bool) (p : Option Text × Client D N)
      → AgreesAt (second_try s send status url sent p) (second_try s send' status url sent p)
  second_try-Agrees status url sent (none, c) = (tt, refl)
  second_try-Agrees status url sent (some fresh, c) =
      after_send (judge_second s send) (judge_second s send') judge_second-same
        (λ e e' c. (tt, refl)) (some fresh) c

  on_denial-Agrees :
      (status : ℕ) (url : Text) (token : Option Text) (c : Client D N)
      → AgreesAt (on_denial s send status url token c) (on_denial s send' status url token c)
  on_denial-Agrees status url token c =
      elim (Bool-cases (status == 401 && not (has_static_token c.auth))) [
        | inl again ↦
            rw again (second_try-Agrees status url (is_some token) (resolve s url token c))
        | inr final ↦ rw final (tt, refl)
      ]

  judge_first-same :
      (token : Option Text) (a : Answer T) (c : Client D N)
      → AgreesAt (judge_first s send token (ok a, c)) (judge_first s send' token (ok a, c))
  judge_first-same token (status, none, body) c = (refl, refl)
  judge_first-same token (status, some url, body) c =
      on_denial-Agrees status url token (learn s url c)

  send_first-Agrees :
      (p : Option Text × Client D N) → AgreesAt (send_first s send p) (send_first s send' p)
  send_first-Agrees (token, c) =
      after_send (judge_first s send token) (judge_first s send' token) (judge_first-same token)
        (λ e e' c. (tt, refl)) token c

  pub with_gateway_auth-Agrees :
      (c : Client D N) → AgreesAt (with_gateway_auth s send c) (with_gateway_auth s send' c)
  unfolding with_gateway_auth
  with_gateway_auth-Agrees c = send_first-Agrees (current_token s c)
