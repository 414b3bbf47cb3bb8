-- ===== src/Admin/Agree.antt =====
-- The operations of both clients.
use lager_rs.Prelude.{ℕ, ◌≡◌, refl, subst, Option, none, some, ◌++◌, Text, Bytes, Result, ok, err}
use lager_rs.Error.{Error, Res, connection}
use lager_rs.Action.{and_then, give, map_result, on_error}
use lager_rs.Action.Agreement.{Agrees, AgreesAt, Agrees-refl}
use lager_rs.Wire.Request.{Timeout}
use lager_rs.Http.{Call, Failure, Reply, Codec, RawBody, RawRequest, gateway_denial, limit}
use lager_rs.Auth.Refresh.{Ask, AskedAlike}
use lager_rs.Client as Client
use lager_rs.Client.{Client, Outside, blocking_services}
use lager_rs.Client.Http as Blocking
use lager_rs.Client.Http.{BodyError, Ureq, open_request}
use lager_rs.Client.LagerBox as BlockingBox
use lager_rs.Client.LagerBox.{LagerBox}
use lager_rs.Client.Same.{with_gateway_auth-Agrees}
use lager_rs.AsyncClient as Async
use lager_rs.AsyncClient.{Reqwest}
use lager_rs.AsyncClient.Calls as AsyncCalls
use lager_rs.AsyncClient.Agree.{
  Alike, AlikeBody, Fails, AnsweredAlike, SameLibraries, asking, services-Agrees,
}
use lager_rs.Admin.{AdminOp, complete, route_missing, run_admin}

read_raw-Agrees :
    (r : Reply BodyError) (r' : Reply Failure) (b : Result BodyError Bytes)
    (b' : Result Failure Bytes)
    → r.status ≡ r'.status
    → r.discovery ≡ r'.discovery
    → AlikeBody b b'
    → Agrees (Blocking.read_raw r b) (Async.read_raw r' b')
unfolding gateway_denial
read_raw-Agrees r r' (ok b) (ok b') status discovery same = rw (status, discovery, same) refl
read_raw-Agrees r r' (err e) (err e') status discovery same = tt
read_raw-Agrees r r' (ok b) (err e) status discovery same = absurd same
read_raw-Agrees r r' (err e) (ok b) status discovery same = absurd same

raw_answer-Agrees :
    (o : Result Failure (Reply BodyError)) (o' : Result Failure (Reply Failure))
    → Alike o o'
    → Agrees (Blocking.raw_answer o) (Async.raw_answer o')
raw_answer-Agrees (ok r) (ok r') (status, discovery, body) =
    read_raw-Agrees r r' r.body r'.body status discovery body
raw_answer-Agrees (err e) (err e') same = tt
raw_answer-Agrees (ok r) (err e) same = absurd same
raw_answer-Agrees (err e) (ok r) same = absurd same

raw_failure-Agrees :
    (e : Error) (o : Result Failure (Reply Failure)) → Fails o → Agrees (err e) (Async.raw_answer o)
raw_failure-Agrees e (err e') fails = tt
raw_failure-Agrees e (ok r) fails = absurd fails

complete-Agrees :
    {S T : Type 0} (codec : Codec) (op : AdminOp T) (p q : Res (ℕ × Bytes) × S)
    → AgreesAt p q
    → AgreesAt
        (map_result
          (on_error (λ e. route_missing e op.unsupported))
          (λ s. and_then p (λ a. give (complete codec op.parse a.0 a.1)))
          p.1)
        (map_result
          (on_error (λ e. route_missing e op.unsupported))
          (λ s. and_then q (λ a. give (complete codec op.parse a.0 a.1)))
          q.1)
complete-Agrees codec op (ok a, s) (ok a', s') (same, at) = (
  subst
      (λ b.
        Agrees (on_error (λ e. route_missing e op.unsupported) (complete codec op.parse a.0 a.1))
          (on_error (λ e. route_missing e op.unsupported) (complete codec op.parse b.0 b.1)))
      same (Agrees-refl _),
  at,
)
complete-Agrees codec op (err e, s) (err e', s') (same, at) = (tt, at)
complete-Agrees codec op (ok a, s) (err e, s') (same, at) = absurd same
complete-Agrees codec op (err e, s) (ok a, s') (same, at) = absurd same

module _ (codec : Codec) {N : Type 0} (u : Ureq N) (h : Reqwest N) (ms : ℕ)
    (same : SameLibraries u h) where
  abbrev BothSendRaw : Res Call → Call → Timeout → N → Type 0
  BothSendRaw q c t n =
      AgreesAt
        (Blocking.then_judge codec u ms Blocking.raw_answer (Blocking.exchange codec u ms q t n))
        (
          Async.raw_answer (Async.send codec h ms (ok c) t n).0,
          (Async.send codec h ms (ok c) t n).1,
        )

  exchange-raw :
      (c : Call) (t : Timeout) (n : N) (refusal : Option Text)
      → u.refused c ≡ refusal
      → AnsweredAlike refusal n (u.exchange c (limit ms t) n) (h.exchange c (limit ms t) n)
      → BothSendRaw (Blocking.built codec u ms c) c t n
  exchange-raw c t n none e (alike, at) = rw (e, Blocking.built) (raw_answer-Agrees _ _ alike, at)
  exchange-raw c t n (some m) e (fails, at) =
      rw (e, Blocking.built) (raw_failure-Agrees (connection m) _ fails, at)

  built-raw : (c : Call) (t : Timeout) (n : N) → BothSendRaw (Blocking.built codec u ms c) c t n
  built-raw c t n = exchange-raw c t n (u.refused c) refl (same c (limit ms t) n)

  raw_body-Agrees :
      (c : Call) (o : Option RawBody) (t : Timeout) (n : N)
      → BothSendRaw (Blocking.with_raw_body codec u ms c o) (Async.with_raw_body c o) t n
  unfolding Blocking.empty_request
  raw_body-Agrees c none t n = built-raw c t n
  raw_body-Agrees c (some body) t n =
      built-raw (record c { content_type = some body.content_type; body = some body.bytes }) t n

  send_raw_once-Agrees :
      (base : Text) (req : RawRequest) (token : Option Text) (n : N)
      → AgreesAt
          (Blocking.send_raw_once codec u ms base req token n)
          (Async.send_raw_once codec h ms base req token n)
  unfolding Blocking.send_raw_once Async.send_raw_once Blocking.open_request Async.open_request
  send_raw_once-Agrees base req token n =
      raw_body-Agrees (open_request req.method (base ++ req.path) token) req.body req.timeout n

module _ {D N : Type 0} (o : Outside D) (ask : Ask) (codec : Codec) (u : Ureq N) (h : Reqwest N)
    (lager : LagerBox) where
  -- Where ureq and reqwest, each as its client sets it up, answer alike, also the requests of a
  -- refresh, none of these with a redirection or a status below 200, an operation has the same
  -- result with both clients, or fails with both, and leaves the same state.
  pub run_admin-Agrees :
      {T : Type 0} (op : AdminOp T) (c : Client D N)
      → SameLibraries u h
      → AskedAlike o.ask ask
      → AgreesAt
          (run_admin codec (BlockingBox.execute_raw (blocking_services o) codec u lager) op c)
          (AsyncCalls.run_admin codec (Async.execute_raw (asking o ask) codec h lager) op c)
  unfolding run_admin AsyncCalls.run_admin BlockingBox.execute_raw Async.execute_raw
      Async.with_gateway_auth
  run_admin-Agrees op c same alike = complete-Agrees codec op _ _ (
      services-Agrees o ask _
        (λ s.
          Client.with_gateway_auth s
            (λ token. Async.send_raw_once codec h lager.default_timeout lager.base op.req token) c)
        alike
        (with_gateway_auth-Agrees (blocking_services o)
          (λ token. Blocking.send_raw_once codec u lager.default_timeout lager.base op.req token)
          (λ token. Async.send_raw_once codec h lager.default_timeout lager.base op.req token)
          (λ token n.
            send_raw_once-Agrees codec u h lager.default_timeout same lager.base op.req token n)
          c))
