-- ===== src/AsyncClient/Agree.antt =====
-- The two clients give the same where their HTTP libraries do. Each library is taken as its client
-- sets it up: without a proxy and with a limit on redirections in the blocking one, as it comes in
-- the other.
use lager_rs.Prelude.{
  ℕ, ◌≡◌, refl, subst, ◌∙◌, sym, inl, inr, Option, none, some, ◌++◌, str, Text, Bytes, Result, ok,
  err, ltb, Bool-cases,
}
use lager_rs.Error.{Error, Res, connection, decode}
use lager_rs.Action.Agreement.{Agrees, AgreesAt, Agrees-refl}
use lager_rs.Client.Same.{with_gateway_auth-Agrees}
use lager_rs.Wire.Request.{Method, get_method, post, put, delete, HttpRequest, Timeout}
use lager_rs.Http.{Call, Failure, Reply, Codec, gateway_denial, limit}
use lager_rs.Json.{Value, Fields}
use lager_rs.Auth.Store.{RefreshOutcome}
use lager_rs.Auth.Refresh.{Ask, AskedAlike, refresh_blocking-refresh_async}
use lager_rs.Client as Client
use lager_rs.Client.{Client, Services, Outside, blocking_services, Answer}
use lager_rs.Client.Http as Blocking
use lager_rs.Client.Http.{
  BodyError, Ureq, is_timeout, is_null, non_json, checked, transport_error, open_request,
}
use lager_rs.Client.LagerBox as BlockingBox
use lager_rs.Client.LagerBox.{LagerBox}
use lager_rs.AsyncClient as Async
use lager_rs.AsyncClient.{Reqwest, async_services}

-- The same bytes, or a failure both times, for the same reason
abbrev pub AlikeBody : Result BodyError Bytes → Result Failure Bytes → Type 0
AlikeBody (ok b) (ok b') = b ≡ b'
AlikeBody (err e) (err e') = is_timeout e ≡ e'.is_timeout
AlikeBody (ok b) (err e) = ⊥
AlikeBody (err e) (ok b) = ⊥

abbrev pub Alike : Result Failure (Reply BodyError) → Result Failure (Reply Failure) → Type 0
Alike (ok r) (ok r') =
    (r.status ≡ r'.status) × (r.discovery ≡ r'.discovery) × AlikeBody r.body r'.body
Alike (err e) (err e') = Unit
Alike (ok r) (err e) = ⊥
Alike (err e) (ok r) = ⊥

abbrev pub Fails : Result Failure (Reply Failure) → Type 0
Fails (ok r) = ⊥
Fails (err e) = Unit

-- What ureq's builder refuses, reqwest does not send, and all else is answered alike.
abbrev pub AnsweredAlike :
    {N : Type 0}
    → Option Text
    → N
    → Result Failure (Reply BodyError) × N
    → Result Failure (Reply Failure) × N
    → Type 0
AnsweredAlike (some e) n p (r', n') = Fails r' × (n ≡ n')
AnsweredAlike none n (r, n1) (r', n2) = Alike r r' × (n1 ≡ n2)

abbrev pub SameLibraries : {N : Type 0} → Ureq N → Reqwest N → Type 0
SameLibraries {N} u r =
    (c : Call) (t : Option ℕ) (n : N)
    → AnsweredAlike (u.refused c) n (u.exchange c t n) (r.exchange c t n)

-- A body stands only where both clients send one.
abbrev pub HasPlace : Method → Option Value → Type 0
HasPlace post o = Unit
HasPlace put o = Unit
HasPlace m o = o ≡ none

non_json-Agrees : (status : ℕ) (e e' : Text) → Agrees (non_json status e) (non_json status e')
non_json-Agrees status e e' = elim (Bool-cases (ltb status 400)) [
  | inl good ↦ rw good tt
  | inr bad ↦ rw bad refl
]

checked-Agrees :
    (status : ℕ) (g : Option Text) (r r' : Res Value)
    → Agrees r r'
    → Agrees (checked status g r) (checked status g r')
checked-Agrees status g (ok v) (ok v') h =
    subst (λ w. Agrees (checked status g (ok v)) (checked status g (ok w))) h
      (Agrees-refl (checked status g (ok v)))
checked-Agrees status g (err e) (err e') h = tt
checked-Agrees status g (ok v) (err e) h = absurd h
checked-Agrees status g (err e) (ok v) h = absurd h

gateway_denial-alike :
    (r : Reply BodyError) (r' : Reply Failure)
    → r.status ≡ r'.status
    → r.discovery ≡ r'.discovery
    → gateway_denial r ≡ gateway_denial r'
unfolding gateway_denial
gateway_denial-alike r r' h k = rw (h, k) refl

module _ (codec : Codec) {N : Type 0} (u : Ureq N) (h : Reqwest N) (ms : ℕ) where
  parsed-Agrees :
      (status : ℕ) (p : Result Text Value)
      → Agrees
          (Blocking.parsed_body status p)
          (Blocking.parsed_body status (Async.reworded codec h ms p))
  parsed-Agrees status (ok v) = refl
  parsed-Agrees status (err e) = non_json-Agrees status e (h.decode_error e)

  read_value-Agrees :
      (status : ℕ) (b : Result BodyError Bytes) (b' : Result Failure Bytes)
      → AlikeBody b b'
      → Agrees (Blocking.read_value codec status b) (Async.read_value codec h ms status b')
  read_value-Agrees status (ok b) (ok b') same =
      subst
        (λ w.
          Agrees (Blocking.read_value codec status (ok b))
            (Async.read_value codec h ms status (ok w)))
        same (parsed-Agrees status (codec.from_slice b))
  read_value-Agrees status (err e) (err e') same = elim (Bool-cases (is_timeout e)) [
    | inl late ↦ rw late (rw (sym same ∙ late) tt)
    | inr other ↦
        rw other (rw (sym same ∙ other) (non_json-Agrees status e.error.message e'.message))
  ]
  read_value-Agrees status (ok b) (err e) same = absurd same
  read_value-Agrees status (err e) (ok b) same = absurd same

  judge_exchange-Agrees :
      (o : Result Failure (Reply BodyError)) (o' : Result Failure (Reply Failure))
      → Alike o o'
      → Agrees (Blocking.judge_exchange codec o) (Async.judge_exchange codec h ms o')
  unfolding Blocking.judge_reply Async.judge_reply
  judge_exchange-Agrees (err e) (err e') same = tt
  judge_exchange-Agrees (ok r) (ok r') (status, discovery, body) =
      let mine : Res (Answer Value) =
        checked r.status (gateway_denial r) (Blocking.read_value codec r.status r.body) in
      subst
        (λ st.
          Agrees mine (checked st (gateway_denial r') (Async.read_value codec h ms st r'.body)))
        status
        (subst
          (λ g. Agrees mine (checked r.status g (Async.read_value codec h ms r.status r'.body)))
          (gateway_denial-alike r r' status discovery)
          (checked-Agrees r.status (gateway_denial r) (Blocking.read_value codec r.status r.body)
            (Async.read_value codec h ms r.status r'.body)
            (read_value-Agrees r.status r.body r'.body body)))
  judge_exchange-Agrees (ok r) (err e) same = absurd same
  judge_exchange-Agrees (err e) (ok r) same = absurd same

  Fails-Agrees :
      (e : Error) (o : Result Failure (Reply Failure))
      → Fails o
      → Agrees (err e) (Async.judge_exchange codec h ms o)
  Fails-Agrees e (err e') f = tt
  Fails-Agrees e (ok r) f = absurd f

  -- A call that ureq's builder takes or refuses
  exchange-Agrees :
      (c : Call) (t : Timeout) (n : N) (refusal : Option Text)
      → u.refused c ≡ refusal
      → AnsweredAlike refusal n (u.exchange c (limit ms t) n) (h.exchange c (limit ms t) n)
      → AgreesAt
          (Blocking.then_judge codec u ms
            (Blocking.judge_exchange codec)
            (Blocking.exchange codec u ms (Blocking.built codec u ms c) t n))
          (
            Async.judge_exchange codec h ms (Async.send codec h ms (ok c) t n).0,
            (Async.send codec h ms (ok c) t n).1,
          )
  exchange-Agrees c t n none e (same, at) =
      rw (e, Blocking.built) (judge_exchange-Agrees _ _ same, at)
  exchange-Agrees c t n (some m) e (fails, at) =
      rw (e, Blocking.built) (Fails-Agrees (connection m) _ fails, at)

  module _ (same : SameLibraries u h) where
    abbrev BothSend : Res Call → Result Failure Call → Timeout → N → Type 0
    BothSend q q' t n =
        AgreesAt
          (Blocking.then_judge codec u ms (Blocking.judge_exchange codec)
            (Blocking.exchange codec u ms q t n))
          (
            Async.judge_exchange codec h ms (Async.send codec h ms q' t n).0,
            (Async.send codec h ms q' t n).1,
          )

    call-Agrees :
        (c : Call) (t : Timeout) (n : N) → BothSend (Blocking.built codec u ms c) (ok c) t n
    call-Agrees c t n = exchange-Agrees c t n (u.refused c) refl (same c (limit ms t) n)

    json-Agrees :
        (c : Call) (v : Value) (t : Timeout) (n : N)
        → BothSend
            (Blocking.json_request codec u ms c v)
            (Async.with_body codec h ms c (some v))
            t
            n
    unfolding Blocking.json_request
    json-Agrees c v t n =
        elim (codec.to_vec v)
          as (λ o.
            BothSend
              (elim o [
                | err e ↦ err (decode e)
                | ok bytes ↦
                    Blocking.built codec u ms
                      (record c { content_type = some (str "application/json"); body = some bytes })
              ])
              (elim o [
                | err e ↦ err (h.builder_error e)
                | ok bytes ↦
                    ok
                      (record c { content_type = some (str "application/json"); body = some bytes })
              ])
              t n) [
                | err e ↦ (tt, refl)
                | ok bytes ↦
                    call-Agrees
                      (record c { content_type = some (str "application/json"); body = some bytes })
                      t n
              ]

    body-Agrees :
        (m : Method) (c : Call) (o : Option Value) (t : Timeout) (n : N)
        → HasPlace m o
        → BothSend (Blocking.with_body codec u ms m c o) (Async.with_body codec h ms c o) t n
    unfolding Blocking.empty_request
    body-Agrees post c (some v) t n place = json-Agrees c v t n
    body-Agrees put c (some v) t n place = json-Agrees c v t n
    body-Agrees get_method c (some v) t n place = cc
    body-Agrees delete c (some v) t n place = cc
    body-Agrees post c none t n place = call-Agrees c t n
    body-Agrees put c none t n place = call-Agrees c t n
    body-Agrees get_method c none t n place = call-Agrees c t n
    body-Agrees delete c none t n place = call-Agrees c t n

    send_once-Agrees :
        (base : Text) (req : HttpRequest) (token : Option Text) (n : N)
        → HasPlace req.method req.body
        → AgreesAt
            (Blocking.send_once codec u ms base req token n)
            (Async.send_once codec h ms base req token n)
    unfolding Blocking.send_once Async.send_once Blocking.open_request Async.open_request
    send_once-Agrees base req token n place =
        body-Agrees req.method (open_request req.method (base ++ req.path) token) req.body
          req.timeout n place

-- Both clients have the same files, the same clock and the same JSON parser.
abbrev pub asking : {D : Type 0} → Outside D → Ask → Outside D
asking o ask = record o { ask = ask }

-- A call that agrees at the refresh of the blocking client agrees at that of the async one.
pub services-Agrees :
    {D S A : Type 0} (o : Outside D) (ask : Ask) (p : Res A × S) (q : Services D → Res A × S)
    → AskedAlike o.ask ask
    → AgreesAt p (q (blocking_services o))
    → AgreesAt p (q (async_services (asking o ask)))
unfolding blocking_services async_services
services-Agrees o ask p q alike h =
    subst
      (λ (f : Text → Fields → Option RefreshOutcome).
        AgreesAt p (q (record { files = o.files; context = o.context; refresh = f })))
      (λ i url cookies. refresh_blocking-refresh_async o.ask ask alike url cookies i) h

module _ {D N : Type 0} (o : Outside D) (ask : Ask) (codec : Codec) (u : Ureq N) (h : Reqwest N)
    (lager : LagerBox) where
  -- Where ureq and reqwest, each as its client sets it up, answer alike, also the requests of a
  -- refresh, none of these with a redirection or a status below 200, and a body stands only where
  -- both clients send one, both make the same of a request: the same status and body, or an error
  -- both times, and the same state after it.
  pub execute_at-execute_at :
      (base : Text) (req : HttpRequest) (c : Client D N)
      → SameLibraries u h
      → AskedAlike o.ask ask
      → HasPlace req.method req.body
      → AgreesAt
          (BlockingBox.execute_at (blocking_services o) codec u lager base req c)
          (Async.execute_at (asking o ask) codec h lager base req c)
  unfolding BlockingBox.execute_at Async.execute_at Async.with_gateway_auth
  execute_at-execute_at base req c same alike place =
      services-Agrees o ask _
        (λ s.
          Client.with_gateway_auth s
            (λ token. Async.send_once codec h lager.default_timeout base req token) c)
        alike
        (with_gateway_auth-Agrees (blocking_services o)
          (λ token. Blocking.send_once codec u lager.default_timeout base req token)
          (λ token. Async.send_once codec h lager.default_timeout base req token)
          (λ token n. send_once-Agrees codec u h lager.default_timeout same base req token n place)
          c)
