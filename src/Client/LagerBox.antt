-- ===== src/Client/LagerBox.antt =====
-- `LagerBox` and its builder: the addresses, and `execute` with its siblings. The settings never
-- change, and what does is the `Client`. `codec` is serde_json and `http` is ureq.
use lager_rs.Prelude.{ℕ, Option, none, some, Text, Bytes, ok, str, ◌>>=◌, ok_or}
use lager_rs.Json.{Value}
use lager_rs.Error.{Res, config}
use lager_rs.Url.{base_url, base_url_with_port, service_base, debug_service_port}
use lager_rs.Auth.Store.{Files}
use lager_rs.Auth.Gateway as Gateway
use lager_rs.Auth.Gateway.{GatewayAuth}
use lager_rs.Wire.Request.{HttpRequest}
use lager_rs.Http.{Codec, RawRequest}
use lager_rs.Action.{Action}
use lager_rs.Client.{Client, Services, with_gateway_auth}
use lager_rs.Client as Client
use lager_rs.Client.Http.{Ureq, send_once, send_raw_once}
use lager_rs.Client.Stream.{Opened, stream_debug_once}

pub record LagerBox : Type 0 where
  pub base : Text
  pub debug_base : Text
  pub default_timeout : ℕ

pub record LagerBoxBuilder : Type 0 where
  pub host : Text
  pub debug_url : Option Text
  pub default_timeout : ℕ
  pub bearer_token : Option Text

-- `DEFAULT_TIMEOUT`, in milliseconds
abbrev pub default_time_limit : ℕ
default_time_limit = 10000

-- `debug_url_env` is the environment variable `LAGER_DEBUG_SERVICE_URL`.
abbrev pub builder : Option Text → Text → LagerBoxBuilder
builder debug_url_env host = record {
  host = host;
  debug_url = debug_url_env;
  default_timeout = default_time_limit;
  bearer_token = none;
}

abbrev pub with_timeout : ℕ → LagerBoxBuilder → LagerBoxBuilder
with_timeout ms b = record b { default_timeout = ms }

abbrev pub with_debug_service_url : Text → LagerBoxBuilder → LagerBoxBuilder
with_debug_service_url url b = record b { debug_url = some url }

abbrev pub with_bearer_token : Text → LagerBoxBuilder → LagerBoxBuilder
with_bearer_token token b = record b { bearer_token = some token }

abbrev pub debug_base_of : Text → Option Text → Res Text
debug_base_of base (some url) = base_url_with_port url debug_service_port
debug_base_of base none = ok (service_base base debug_service_port)

module _ {D : Type 0} (f : Files D) (disk : D) (env_token : Option Text) where
  abbrev pub box_at : LagerBoxBuilder → Text → Text → LagerBox × GatewayAuth
  box_at b base debug_base = (
    record { base = base; debug_base = debug_base; default_timeout = b.default_timeout },
    Gateway.new f disk base b.bearer_token env_token,
  )

  unfoldable pub build : LagerBoxBuilder → Res (LagerBox × GatewayAuth)
  unfolding base_url base_url_with_port service_base Gateway.new
  build b = do
    base ← base_url b.host
    debug_base ← debug_base_of base b.debug_url
    ok (box_at b base debug_base)

  unfoldable pub connect : Option Text → Text → Res (LagerBox × GatewayAuth)
  unfolding build
  connect debug_url_env host = build (builder debug_url_env host)

  unfoldable pub from_env : Option Text → Option Text → Res (LagerBox × GatewayAuth)
  unfolding connect
  from_env debug_url_env host_env = do
    host ← ok_or (config (str "LAGER_BOX_HOST is not set")) host_env
    connect debug_url_env host

module _ {D N : Type 0} (s : Services D) (codec : Codec) (http : Ureq N) (lager : LagerBox) where
  unfoldable pub execute_at : Text → HttpRequest → Action (Client D N) (ℕ × Value)
  unfolding with_gateway_auth send_once
  execute_at base req =
      with_gateway_auth s (λ token. send_once codec http lager.default_timeout base req token)

  unfoldable pub execute : HttpRequest → Action (Client D N) (ℕ × Value)
  unfolding execute_at
  execute req = execute_at lager.base req

  unfoldable pub execute_debug : HttpRequest → Action (Client D N) (ℕ × Value)
  unfolding execute_at
  execute_debug req = execute_at lager.debug_base req

  unfoldable pub execute_raw : RawRequest → Action (Client D N) (ℕ × Bytes)
  unfolding with_gateway_auth send_raw_once
  execute_raw req =
      with_gateway_auth s
        (λ token. send_raw_once codec http lager.default_timeout lager.base req token)

  unfoldable pub stream_debug : HttpRequest → Action (Client D N) Opened
  unfolding Client.stream_debug stream_debug_once
  stream_debug req =
      Client.stream_debug s
        (λ token. stream_debug_once s codec http lager.debug_base lager.default_timeout req token)
