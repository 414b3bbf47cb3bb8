-- ===== src/Admin/Delivered.antt =====
-- Where the value of an operation comes from.
use lager_rs.Prelude.{
  ℕ, ◌≡◌, refl, inl, inr, true, Option, none, ◌++◌, Text, Bytes, Result, ok, err, Bool-cases,
}
use lager_rs.Error.{Res}
use lager_rs.Action.Inversion.{and_then-ok, on_error-ok}
use lager_rs.Wire.Request.{Timeout}
use lager_rs.Http.{Call, Failure, Reply, Codec, RawRequest, gateway_denial, limit}
use lager_rs.Client.{Client, Services}
use lager_rs.Client.Http.{
  BodyError, Ureq, read_raw, raw_answer, exchange, then_judge, with_raw_body, send_raw_once,
  open_request,
}
use lager_rs.Client.Sending.{with_gateway_auth-answer}
use lager_rs.Client.LagerBox.{LagerBox, execute_raw}
use lager_rs.Admin.{Parse, AdminOp, complete, run_admin}
use lager_rs.Admin.Answers.{is_success}
use lager_rs.Admin.Refused.{IsReading, complete-failed}

pub complete-success :
    (codec : Codec) {T : Type 0} {p : Parse T} (reading : IsReading codec T p) (status : ℕ)
    (bytes : Bytes) {v : T}
    → complete codec p status bytes ≡ ok v
    → is_success status ≡ true
complete-success codec reading status bytes h = elim (Bool-cases (is_success status)) [
  | inl fine ↦ fine
  | inr bad ↦ let failed = complete-failed codec reading status bytes bad in cc
]

module _ (codec : Codec) {N : Type 0} (http : Ureq N) where
  -- The box answered so, and its gateway let the request pass.
  abbrev pub DeliveredRaw : ℕ → Bytes → Type 0
  DeliveredRaw status bytes =
      (c : Call) × (t : Option ℕ) × (n : N) × (r : Reply BodyError) × ((http.exchange c t n).0
        ≡ ok r)
      × (r.status ≡ status)
      × (gateway_denial r ≡ none)
      × (r.body ≡ ok bytes)

  read_raw-ok :
      (r : Reply BodyError) (b : Result BodyError Bytes) {status : ℕ} {bytes : Bytes}
      → read_raw r b ≡ ok (status, none, bytes)
      → (r.status ≡ status) × (gateway_denial r ≡ none) × (b ≡ ok bytes)
  read_raw-ok r (ok b) h = (cc, cc, cc)
  read_raw-ok r (err e) h = cc

  raw_answer-ok :
      (c : Call) (t : Option ℕ) (n : N) (o : Result Failure (Reply BodyError)) {status : ℕ}
      {bytes : Bytes}
      → (http.exchange c t n).0 ≡ o
      → raw_answer o ≡ ok (status, none, bytes)
      → DeliveredRaw status bytes
  raw_answer-ok c t n (ok r) sent h =
      let (same, passed, read) = read_raw-ok r r.body h in (c, t, n, r, sent, same, passed, read)
  raw_answer-ok c t n (err e) sent h = cc

  then_judge-raw :
      (ms : ℕ) (q : Res Call) (t : Timeout) (n : N) {status : ℕ} {bytes : Bytes}
      → (then_judge codec http ms raw_answer (exchange codec http ms q t n)).0
        ≡ ok (status, none, bytes)
      → DeliveredRaw status bytes
  then_judge-raw ms (ok c) t n h = raw_answer-ok c (limit ms t) n _ refl h
  then_judge-raw ms (err e) t n h = cc

  send_raw_once-ok :
      (ms : ℕ) (base : Text) (req : RawRequest) (token : Option Text) (n : N) {status : ℕ}
      {bytes : Bytes}
      → (send_raw_once codec http ms base req token n).0 ≡ ok (status, none, bytes)
      → DeliveredRaw status bytes
  unfolding send_raw_once
  send_raw_once-ok ms base req token n h =
      then_judge-raw ms
        (with_raw_body codec http ms (open_request req.method (base ++ req.path) token) req.body)
        req.timeout n h

module _ {D N : Type 0} (s : Services D) (codec : Codec) (http : Ureq N) (lager : LagerBox) where
  abbrev pub Came : {T : Type 0} → Parse T → T → Type 0
  Came p v =
      (status : ℕ) × (bytes : Bytes) × DeliveredRaw codec http status bytes
      × (is_success status ≡ true)
      × (complete codec p status bytes ≡ ok v)

  -- The value of an operation is what its reading makes of the bytes of an answer of the box, which
  -- came with a status of success and was no denial of the gateway.
  pub run_admin-Came :
      {T : Type 0} (op : AdminOp T) (c : Client D N) {v : T}
      → IsReading codec T op.parse
      → (run_admin codec (execute_raw s codec http lager) op c).0 ≡ ok v
      → Came op.parse v
  unfolding run_admin execute_raw
  run_admin-Came op c reading h =
      let ((status, bytes), answered, read) =
        and_then-ok _ (execute_raw s codec http lager op.req c) (on_error-ok _ _ h) in
      let (token, n, sent) =
        with_gateway_auth-answer s
          (λ token. send_raw_once codec http lager.default_timeout lager.base op.req token) c
          answered in
      (
        status,
        bytes,
        send_raw_once-ok codec http lager.default_timeout lager.base op.req token n sent,
        complete-success codec reading status bytes read,
        read,
      )
