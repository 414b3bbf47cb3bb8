-- ===== src/Client/Http.antt =====
-- One HTTP round trip of the blocking client: `open`, `json_request`, `empty_request`, `send`,
-- `send_once`, `send_raw_once` and `stream_debug_once` of client.rs, over ureq.
use lager_rs.Prelude.{
  ℕ, Bool, true, false, not, ◌&&◌, ◌||◌, Option, none, some, ◌++◌, Text, Bytes, Result, ok, err,
  str, map, contains, decimal, is_some, ascii_lower, leb, ltb, if◌then◌else◌,
}
use lager_rs.Json.{Value, null}
use lager_rs.Error.{Error, Res, box, timeout, connection, decode}
use lager_rs.Wire.Request.{Method, post, put, Timeout, HttpRequest}
use lager_rs.Io.{ErrorKind, timed_out, would_block, IoError}
use lager_rs.Http.{
  Call, Failure, Reply, Codec, RawBody, RawRequest, verb, bearer, gateway_denial, limit,
}
use lager_rs.Client.{Answer}

-- An error of reading a body, and whether it wraps `ureq::Error::Timeout`
pub record BodyError : Type 0 where
  pub error : IoError
  pub wraps_timeout : Bool

abbrev pub is_timeout_kind : ErrorKind → Bool
is_timeout_kind timed_out = true
is_timeout_kind would_block = true
is_timeout_kind k = false

-- `is_timeout`
unfoldable pub is_timeout : BodyError → Bool
is_timeout e = is_timeout_kind e.error.kind || e.wraps_timeout

-- ureq, as `http_agent` sets it up: what its builder says of a call that makes no request, and one exchange within a time limit
pub record Ureq (N : Type 0) : Type 0 where
  pub refused : Call → Option Text
  pub exchange : Call → Option ℕ → N → Result Failure (Reply BodyError) × N

unfoldable pub open_request : Method → Text → Option Text → Call
open_request method url token = record {
  method = verb method;
  uri = url;
  authorization = bearer token;
  content_type = none;
  body = none;
}

unfoldable pub transport_error : Failure → Error
unfolding contains
transport_error e =
    let lower = map ascii_lower e.message in
    if e.is_timeout || contains (str "timed out") lower || contains (str "timeout") lower
    then timeout e.message
    else connection e.message

abbrev pub is_null : Value → Bool
is_null null = true
is_null v = false

-- The body of an answer: JSON, or `Null` where an error has none. A read that timed out is no body.
abbrev pub non_json : ℕ → Text → Res Value
non_json status e =
    if ltb status 400 then err (decode (str "non-JSON response: " ++ e)) else ok null

abbrev pub parsed_body : ℕ → Result Text Value → Res Value
parsed_body status (ok body) = ok body
parsed_body status (err e) = non_json status e

abbrev pub failed_read : ℕ → BodyError → Res Value
failed_read status e =
    if is_timeout e
    then err (timeout (str "reading the response timed out: " ++ e.error.message))
    else non_json status e.error.message

abbrev pub bare_error : ℕ → Error
bare_error status = box status (str "HTTP " ++ (decimal status ++ str " (non-JSON body)"))

abbrev pub checked : ℕ → Option Text → Res Value → Res (Answer Value)
checked status gateway (err e) = err e
checked status gateway (ok body) =
    if not (is_some gateway) && leb 400 status && is_null body
    then err (bare_error status)
    else ok (status, gateway, body)

abbrev pub read_raw : Reply BodyError → Result BodyError Bytes → Res (Answer Bytes)
read_raw r (ok bytes) = ok (r.status, gateway_denial r, bytes)
read_raw r (err e) = err (connection (str "reading the response failed: " ++ e.error.message))

abbrev pub raw_answer : Result Failure (Reply BodyError) → Res (Answer Bytes)
raw_answer (err e) = err (transport_error e)
raw_answer (ok r) = read_raw r r.body

module _ (codec : Codec) where
  abbrev pub read_value : ℕ → Result BodyError Bytes → Res Value
  read_value status (ok bytes) = parsed_body status (codec.from_slice bytes)
  read_value status (err e) = failed_read status e

  unfoldable pub judge_reply : Reply BodyError → Res (Answer Value)
  unfolding gateway_denial is_timeout
  judge_reply r = checked r.status (gateway_denial r) (read_value r.status r.body)

  abbrev pub judge_exchange : Result Failure (Reply BodyError) → Res (Answer Value)
  judge_exchange (err e) = err (transport_error e)
  judge_exchange (ok r) = judge_reply r

  module _ {N : Type 0} (http : Ureq N) (default_timeout : ℕ) where
    abbrev pub built : Call → Res Call
    built c = elim (http.refused c) [ none ↦ ok c | some e ↦ err (connection e) ]

    unfoldable pub json_request : Call → Value → Res Call
    json_request c body = elim (codec.to_vec body) [
      | err e ↦ err (decode e)
      | ok bytes ↦
          built (record c { content_type = some (str "application/json"); body = some bytes })
    ]

    unfoldable pub empty_request : Call → Res Call
    empty_request c = built c

    abbrev pub with_body : Method → Call → Option Value → Res Call
    with_body post c (some body) = json_request c body
    with_body put c (some body) = json_request c body
    with_body m c o = empty_request c

    abbrev pub exchange : Res Call → Timeout → N → Res (Result Failure (Reply BodyError)) × N
    exchange (err e) t n = (err e, n)
    exchange (ok c) t n = let (r, n') = http.exchange c (limit default_timeout t) n in (ok r, n')

    abbrev pub then_judge :
        {A : Type 0}
        → (Result Failure (Reply BodyError) → Res A)
        → Res (Result Failure (Reply BodyError)) × N
        → Res A × N
    then_judge judge (err e, n) = (err e, n)
    then_judge judge (ok r, n) = (judge r, n)

    unfoldable pub send_once : Text → HttpRequest → Option Text → N → Res (Answer Value) × N
    unfolding open_request json_request empty_request judge_reply transport_error
    send_once base req token n = then_judge judge_exchange (
        exchange (with_body req.method (open_request req.method (base ++ req.path) token) req.body)
          req.timeout n)

    abbrev pub with_raw_body : Call → Option RawBody → Res Call
    with_raw_body c none = empty_request c
    with_raw_body c (some body) =
        built (record c { content_type = some body.content_type; body = some body.bytes })

    unfoldable pub send_raw_once : Text → RawRequest → Option Text → N → Res (Answer Bytes) × N
    unfolding open_request empty_request gateway_denial transport_error
    send_raw_once base req token n = then_judge raw_answer (
        exchange (with_raw_body (open_request req.method (base ++ req.path) token) req.body)
          req.timeout n)
