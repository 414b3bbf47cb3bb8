-- ===== src/AsyncClient.antt =====
-- async_client.rs: `AsyncLagerBox`, over reqwest. A future that is awaited is run to its end, so a
-- method is a call on the state as in the blocking client; where the two have the same text, the
-- definition here is the blocking one at this client's `execute`, or at its `Services`, whose refresh
-- is `refresh_async`.
pub mod Calls
pub mod Agree
mod Tests
use lager_rs.Prelude.{
  ℕ, Bool, true, false, not, ◌&&◌, Option, none, some, ◌++◌, Text, Bytes, Result, ok, err, str,
  is_some, leb, ltb, if◌then◌else◌,
}
use lager_rs.Json.{Value, null}
use lager_rs.Error.{Error, Res, timeout, connection, decode}
use lager_rs.Auth.Store.{Files}
use lager_rs.Auth.Gateway.{GatewayAuth}
use lager_rs.Wire.Request.{Method, Timeout, HttpRequest}
use lager_rs.Http.{
  Call, Failure, Reply, Codec, RawBody, RawRequest, verb, bearer, gateway_denial, limit,
}
use lager_rs.Action.{Action}
use lager_rs.Client as Client
use lager_rs.Auth.Refresh.{refresh_async}
use lager_rs.Client.{Client, Services, Outside, Answer}
use lager_rs.Client.Http.{checked, non_json, parsed_body}
use lager_rs.Client.LagerBox as Blocking
use lager_rs.Client.LagerBox.{LagerBox, LagerBoxBuilder}

-- reqwest, as `Client::new` sets it up: one exchange within a time limit, and its text for a JSON body that cannot be written
pub record Reqwest (N : Type 0) : Type 0 where
  pub exchange : Call → Option ℕ → N → Result Failure (Reply Failure) × N
  pub builder_error : Text → Failure
  pub decode_error : Text → Text

module _ {D : Type 0} (f : Files D) (disk : D) (env_token : Option Text) where
  unfoldable pub build : LagerBoxBuilder → Res (LagerBox × GatewayAuth)
  unfolding Blocking.build
  build b = Blocking.build f disk env_token b

  unfoldable pub connect : Option Text → Text → Res (LagerBox × GatewayAuth)
  unfolding Blocking.connect
  connect debug_url_env host = Blocking.connect f disk env_token debug_url_env host

  unfoldable pub from_env : Option Text → Option Text → Res (LagerBox × GatewayAuth)
  unfolding Blocking.from_env
  from_env debug_url_env host_env = Blocking.from_env f disk env_token debug_url_env host_env

unfoldable pub transport_error : Failure → Error
transport_error e = if e.is_timeout then timeout e.message else connection e.message

unfoldable pub open_request : Method → Text → Option Text → Call
open_request method url token = record {
  method = verb method;
  uri = url;
  authorization = bearer token;
  content_type = none;
  body = none;
}

abbrev pub failed_read : ℕ → Failure → Res Value
failed_read status e = if e.is_timeout then err (timeout e.message) else non_json status e.message

abbrev pub read_raw : Reply Failure → Result Failure Bytes → Res (Answer Bytes)
read_raw r (ok bytes) = ok (r.status, gateway_denial r, bytes)
read_raw r (err e) = err (transport_error e)

abbrev pub raw_answer : Result Failure (Reply Failure) → Res (Answer Bytes)
raw_answer (err e) = err (transport_error e)
raw_answer (ok r) = read_raw r r.body

abbrev pub with_raw_body : Call → Option RawBody → Call
with_raw_body c none = c
with_raw_body c (some body) = record c {
  content_type = some body.content_type;
  body = some body.bytes;
}

module _ (codec : Codec) {N : Type 0} (http : Reqwest N) (default_timeout : ℕ) where
  -- An error of the parser is told in reqwest's words.
  abbrev pub reworded : Result Text Value → Result Text Value
  reworded (ok v) = ok v
  reworded (err e) = err (http.decode_error e)

  -- `resp.json()`
  abbrev pub read_value : ℕ → Result Failure Bytes → Res Value
  read_value status (ok bytes) = parsed_body status (reworded (codec.from_slice bytes))
  read_value status (err e) = failed_read status e

  unfoldable pub judge_reply : Reply Failure → Res (Answer Value)
  unfolding gateway_denial
  judge_reply r = checked r.status (gateway_denial r) (read_value r.status r.body)

  abbrev pub judge_exchange : Result Failure (Reply Failure) → Res (Answer Value)
  judge_exchange (err e) = err (transport_error e)
  judge_exchange (ok r) = judge_reply r

  -- The request with its JSON body, where there is one
  abbrev pub with_body : Call → Option Value → Result Failure Call
  with_body c none = ok c
  with_body c (some body) = elim (codec.to_vec body) [
    | err e ↦ err (http.builder_error e)
    | ok bytes ↦ ok (record c { content_type = some (str "application/json"); body = some bytes })
  ]

  abbrev pub send : Result Failure Call → Timeout → N → Result Failure (Reply Failure) × N
  send (err e) t n = (err e, n)
  send (ok c) t n = http.exchange c (limit default_timeout t) n

  unfoldable pub send_once : Text → HttpRequest → Option Text → N → Res (Answer Value) × N
  unfolding open_request judge_reply transport_error
  send_once base req token n =
      let (r, n') =
        send (with_body (open_request req.method (base ++ req.path) token) req.body) req.timeout
          n in
      (judge_exchange r, n')

  unfoldable pub send_raw_once : Text → RawRequest → Option Text → N → Res (Answer Bytes) × N
  unfolding open_request gateway_denial transport_error
  send_raw_once base req token n =
      let (r, n') =
        send (ok (with_raw_body (open_request req.method (base ++ req.path) token) req.body))
          req.timeout n in
      (raw_answer r, n')

unfoldable pub async_services : {D : Type 0} → Outside D → Services D
unfolding refresh_async
async_services o = record { files = o.files; context = o.context; refresh = refresh_async o.ask }

module _ {D N : Type 0} (o : Outside D) where
  -- `resolve_token_async`, on the state of the client
  unfoldable pub resolve : Text → Option Text → Client D N → Option Text × Client D N
  unfolding Client.resolve async_services
  resolve url avoid c = Client.resolve (async_services o) url avoid c

  unfoldable pub current_token : Client D N → Option Text × Client D N
  unfolding Client.current_token async_services
  current_token c = Client.current_token (async_services o) c

  unfoldable pub with_gateway_auth :
      {T : Type 0} → (Option Text → N → Res (Answer T) × N) → Action (Client D N) (ℕ × T)
  unfolding Client.with_gateway_auth async_services
  with_gateway_auth send c = Client.with_gateway_auth (async_services o) send c

  unfoldable pub bearer_token :
      (Client D N → Res (Unit {0}) × Client D N) → Client D N → Res (Option Text) × Client D N
  unfolding Client.bearer_token async_services
  bearer_token health c = Client.bearer_token (async_services o) health c

  unfoldable pub stream_debug :
      {T : Type 0}
      → (Option Text → Client D N → Res T × Client D N)
      → Client D N
      → Res T × Client D N
  unfolding Client.stream_debug async_services
  stream_debug stream_once c = Client.stream_debug (async_services o) stream_once c

  module _ (codec : Codec) (http : Reqwest N) (lager : LagerBox) where
    unfoldable pub execute_at : Text → HttpRequest → Action (Client D N) (ℕ × Value)
    unfolding with_gateway_auth send_once
    execute_at base req =
        with_gateway_auth (λ token. send_once codec http lager.default_timeout base req token)

    unfoldable pub execute : HttpRequest → Action (Client D N) (ℕ × Value)
    unfolding execute_at
    execute req = execute_at lager.base req

    unfoldable pub execute_debug : HttpRequest → Action (Client D N) (ℕ × Value)
    unfolding execute_at
    execute_debug req = execute_at lager.debug_base req

    unfoldable pub execute_raw : RawRequest → Action (Client D N) (ℕ × Bytes)
    unfolding with_gateway_auth send_raw_once
    execute_raw req =
        with_gateway_auth
          (λ token. send_raw_once codec http lager.default_timeout lager.base req token)
