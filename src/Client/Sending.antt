-- ===== src/Client/Sending.antt =====
-- What `with_gateway_auth` sends, and which answers it hands over.
use lager_rs.Prelude.{
  ℕ, ◌≡◌, refl, sym, ◌∙◌, inl, inr, Bool, true, not, ◌&&◌, Option, none, some, Text, ok, err,
  is_some, ◌==◌, Bool-cases,
}
use lager_rs.Error.{Res}
use lager_rs.Auth.Gateway.{is_text, cached_token, has_static_token, learn_auth_server}
use lager_rs.Client.{
  Client, Services, Answer, resolve, learn, current_token, send_with, denial, judge_second,
  second_try, on_denial, judge_first, with_gateway_auth,
}

module _ {D N T : Type 0} (s : Services D) (send : Option Text → N → Res (Answer T) × N) where
  -- An answer that some request got, without the mark of a denial.
  abbrev pub Answered : ℕ → T → Type 0
  Answered status body =
      (token : Option Text) × (n : N) × ((send token n).0 ≡ ok (status, none, body))

  judge_second-answer :
      (p : Res (Answer T) × Client D N) {status : ℕ} {body : T}
      → (judge_second s send p).0 ≡ ok (status, body)
      → p.0 ≡ ok (status, none, body)
  judge_second-answer (err e, c) h = cc
  judge_second-answer (ok (status, none, body), c) h = cc
  judge_second-answer (ok (status, some url, body), c) h = cc

  second_try-answer :
      (first : ℕ) (url : Text) (sent : Bool) (p : Option Text × Client D N) {status : ℕ} {body : T}
      → (second_try s send first url sent p).0 ≡ ok (status, body)
      → Answered status body
  second_try-answer first url sent (none, c) h = cc
  second_try-answer first url sent (some fresh, c) h =
      (some fresh, c.network, judge_second-answer (send_with s send (some fresh) c) h)

  refused-answer :
      (first : ℕ) (url : Text) (sent : Bool) (c : Client D N) {status : ℕ} {body : T}
      → (denial s send first url sent c).0 ≡ ok (status, body)
      → Answered status body
  refused-answer first url sent c h = cc

  on_denial-answer :
      (first : ℕ) (url : Text) (token : Option Text) (c : Client D N) {status : ℕ} {body : T}
      → (on_denial s send first url token c).0 ≡ ok (status, body)
      → Answered status body
  on_denial-answer first url token c h =
      elim (Bool-cases (first == 401 && not (has_static_token c.auth))) [
        | inl retried ↦
            second_try-answer first url (is_some token) (resolve s url token c) (rw retried at h)
        | inr final ↦ refused-answer first url (is_some token) c (rw final at h)
      ]

  judge_first-answer :
      (token : Option Text) (p : Res (Answer T) × Client D N) (n : N) {status : ℕ} {body : T}
      → p.0 ≡ (send token n).0
      → (judge_first s send token p).0 ≡ ok (status, body)
      → Answered status body
  judge_first-answer token (err e, c) n same h = cc
  judge_first-answer token (ok (first, none, body), c) n same h = (token, n, sym same ∙ cc)
  judge_first-answer token (ok (first, some url, body), c) n same h =
      on_denial-answer first url token (learn s url c) h

  -- An answer that is handed over was given to a request, and was no denial of the gateway.
  pub with_gateway_auth-answer :
      (c : Client D N) {status : ℕ} {body : T}
      → (with_gateway_auth s send c).0 ≡ ok (status, body)
      → Answered status body
  unfolding with_gateway_auth
  with_gateway_auth-answer c h =
      let (token, c') = current_token s c in
      judge_first-answer token (send_with s send token c') c'.network refl h

  current_token-pinned :
      (c : Client D N) (t : Text) → c.auth.static_token ≡ some t → current_token s c ≡ (some t, c)
  unfolding current_token cached_token
  current_token-pinned c t h = rw h

  learn-pinned :
      (url : Text) (c : Client D N) (t : Text)
      → c.auth.static_token ≡ some t
      → ((learn s url c).disk ≡ c.disk)
        × (has_static_token (learn s url c).auth ≡ true)
        × ((learn s url c).network ≡ c.network)
  unfolding learn learn_auth_server has_static_token
  learn-pinned url c t h = elim (Bool-cases (is_text c.auth.auth_url url)) [
    | inl same ↦ (rw same, rw same (rw h), refl)
    | inr changed ↦ (rw changed (rw h), rw changed (rw h), refl)
  ]

  judge_first-pinned :
      (t : Text) (p : Res (Answer T) × Client D N)
      → p.1.auth.static_token ≡ some t
      → ((judge_first s send (some t) p).1.disk ≡ p.1.disk)
        × ((judge_first s send (some t) p).1.network ≡ p.1.network)
  judge_first-pinned t (err e, c) h = (refl, refl)
  judge_first-pinned t (ok (first, none, body), c) h = (refl, refl)
  judge_first-pinned t (ok (first, some url, body), c) h =
      let (disk_same, pinned, network_same) = learn-pinned url c t h in
      elim (Bool-cases (first == 401)) [
        | inl denied ↦ (rw denied (rw pinned disk_same), rw denied (rw pinned network_same))
        | inr forbidden ↦ (rw forbidden disk_same, rw forbidden network_same)
      ]

  -- A pinned token is sent once and as it is, and the store is left alone.
  pub with_gateway_auth-pinned :
      (c : Client D N) (t : Text)
      → c.auth.static_token ≡ some t
      → ((with_gateway_auth s send c).1.disk ≡ c.disk)
        × ((with_gateway_auth s send c).1.network ≡ (send (some t) c.network).1)
  unfolding with_gateway_auth
  with_gateway_auth-pinned c t h =
      rw (current_token-pinned c t h) (judge_first-pinned t (send_with s send (some t) c) h)
