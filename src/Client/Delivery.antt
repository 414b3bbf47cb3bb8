-- ===== src/Client/Delivery.antt =====
-- What `execute` hands over is what the box said.
use lager_rs.Prelude.{
  ℕ, ◌≡◌, refl, ◌∙◌, sym, ◌⊎◌, inl, inr, true, false, Option, none, some, ◌++◌, str, Text, Bytes,
  Result, ok, err, leb, Bool-cases, arith,
}
use lager_rs.Json.{Value}
use lager_rs.Error.{Res, timeout}
use lager_rs.Wire.Request.{HttpRequest, Timeout}
use lager_rs.Http.{Call, Failure, Reply, Codec, gateway_denial, limit}
use lager_rs.Client.{Client, Services}
use lager_rs.Client.Http.{
  BodyError, Ureq, is_null, non_json, parsed_body, is_timeout, checked, read_value, judge_reply,
  judge_exchange, exchange, then_judge, with_body, send_once, open_request,
}
use lager_rs.Client.Sending.{with_gateway_auth-answer}
use lager_rs.Client.LagerBox.{LagerBox, execute_at}

-- An error has a body that is not `null`.
abbrev pub IsTold : ℕ → Value → Type 0
IsTold status body = leb 400 status ≡ true → is_null body ≡ false

-- No body was there, and the status is that of an error.
abbrev IsBare : ℕ → Value → Type 0
IsBare status body = (leb 400 status ≡ true) × (is_null body ≡ true)

abbrev timed : Text → Res Value
timed m = err (timeout (str "reading the response timed out: " ++ m))

non_json-ok :
    (status : ℕ) (e : Text) (body : Value) → non_json status e ≡ ok body → IsBare status body
non_json-ok status e body h = ground arith

late_clash : (m : Text) (body : Value) → ¬ (timed m ≡ ok body)
late_clash m body h = cc

checked-ok :
    (first : ℕ) (gateway : Option Text) (r : Res Value) (status : ℕ) (body : Value)
    → checked first gateway r ≡ ok (status, none, body)
    → (first ≡ status) × (gateway ≡ none) × (r ≡ ok body) × IsTold status body
checked-ok first gateway (err e) status body h = cc
checked-ok first none (ok v) status body h =
    (ground arith, ground arith, ground arith, λ k. ground arith)
checked-ok first (some url) (ok v) status body h = cc

bare_clash : (status : ℕ) (body : Value) → IsBare status body → ¬ IsTold status body
bare_clash status body (error, none_there) told =
    let clash : true ≡ false = sym none_there ∙ told error in cc

module _ (codec : Codec) where
  -- The body is the JSON of the bytes that were read.
  abbrev pub IsBodyOf : Result BodyError Bytes → Value → Type 0
  IsBodyOf b body = (bytes : Bytes) × (b ≡ ok bytes) × (codec.from_slice bytes ≡ ok body)

  parsed_body-ok :
      (status : ℕ) (bytes : Bytes) (r : Result Text Value) (body : Value)
      → codec.from_slice bytes ≡ r
      → parsed_body status r ≡ ok body
      → IsBodyOf (ok bytes) body ⊎ IsBare status body
  parsed_body-ok status bytes (ok v) body e h = inl (bytes, refl, e ∙ cc)
  parsed_body-ok status bytes (err m) body e h = inr (non_json-ok status m body h)

  read_value-ok :
      (status : ℕ) (b : Result BodyError Bytes) (body : Value)
      → read_value codec status b ≡ ok body
      → IsBodyOf b body ⊎ IsBare status body
  read_value-ok status (ok bytes) body h =
      parsed_body-ok status bytes (codec.from_slice bytes) body refl h
  read_value-ok status (err e) body h = elim (Bool-cases (is_timeout e)) [
    | inl late ↦ absurd (late_clash e.error.message body (rw late at h))
    | inr other ↦ inr (non_json-ok status e.error.message body (rw other at h))
  ]

  module _ {N : Type 0} (http : Ureq N) where
    -- The box answered so, and its gateway let the request pass.
    abbrev pub Delivered : ℕ → Value → Type 0
    Delivered status body =
        (c : Call) × (t : Option ℕ) × (n : N) × (r : Reply BodyError) × ((http.exchange c t n).0
          ≡ ok r)
        × (r.status ≡ status)
        × (gateway_denial r ≡ none)
        × IsBodyOf r.body body
        × IsTold status body

    judge_exchange-ok :
        (c : Call) (t : Option ℕ) (n : N) (o : Result Failure (Reply BodyError)) (status : ℕ)
        (body : Value)
        → (http.exchange c t n).0 ≡ o
        → judge_exchange codec o ≡ ok (status, none, body)
        → Delivered status body
    unfolding judge_reply
    judge_exchange-ok c t n (err e) status body sent h = cc
    judge_exchange-ok c t n (ok r) status body sent h =
        let (same, passed, read, told) =
          checked-ok r.status (gateway_denial r) (read_value codec r.status r.body) status body h in
        elim (read_value-ok r.status r.body body read) [
          | inl b ↦ (c, t, n, r, sent, same, passed, b, told)
          | inr bare ↦ absurd (bare_clash status body (rw same at bare) told)
        ]

    module _ (default_timeout : ℕ) where
      then_judge-ok :
          (q : Res Call) (t : Timeout) (n : N) (status : ℕ) (body : Value)
          → (then_judge codec http default_timeout
              (judge_exchange codec)
              (exchange codec http default_timeout q t n)).0
            ≡ ok (status, none, body)
          → Delivered status body
      then_judge-ok (ok c) t n status body h =
          judge_exchange-ok c (limit default_timeout t) n _ status body refl h
      then_judge-ok (err e) t n status body h = cc

      send_once-ok :
          (base : Text) (req : HttpRequest) (token : Option Text) (n : N) (status : ℕ)
          (body : Value)
          → (send_once codec http default_timeout base req token n).0 ≡ ok (status, none, body)
          → Delivered status body
      unfolding send_once
      send_once-ok base req token n status body h =
          then_judge-ok
            (with_body codec http default_timeout req.method
              (open_request req.method (base ++ req.path) token) req.body)
            req.timeout n status body h

module _ {D N : Type 0} (s : Services D) (codec : Codec) (http : Ureq N) (lager : LagerBox) where
  -- What a request gets is the JSON that the box answered with, under the status of that answer,
  -- which was no denial of the gateway. With a status from 400 on it is not `null`.
  pub execute_at-Delivered :
      (base : Text) (req : HttpRequest) (c : Client D N) {status : ℕ} {body : Value}
      → (execute_at s codec http lager base req c).0 ≡ ok (status, body)
      → Delivered codec http status body
  unfolding execute_at
  execute_at-Delivered base req c {status} {body} h =
      let (token, n, sent) =
        with_gateway_auth-answer s
          (λ token. send_once codec http lager.default_timeout base req token) c h in
      send_once-ok codec http lager.default_timeout base req token n status body sent
