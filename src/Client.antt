-- ===== src/Client.antt =====
-- client.rs: how every request is sent, with the gateway's denials handled. `D` is the state of
-- the file system and `N` that of the network.

pub mod Sending
pub mod Calls
pub mod LagerBox
pub mod Lock
mod Delivery
pub mod Same
mod Commands
pub mod Stream
pub mod Http
pub mod Tunneling
pub mod Tests
pub mod BoxTests
use lager_rs.Prelude.{
  ℕ, Bool, true, false, not, ◌&&◌, Option, none, some, Text, Result, ok, err, str, ◌++◌, is_some,
  ◌==◌, if◌then◌else◌,
}
use lager_rs.Json.{Fields}
use lager_rs.Error.{Error, Res, auth_required, timeout, connection}
use lager_rs.Auth.Jwt.{Context}
use lager_rs.Auth.Denial.{denial_error}
use lager_rs.Auth.Store.{Files, RefreshOutcome}
use lager_rs.Auth.Refresh.{Ask, refresh_blocking}
use lager_rs.Auth.Gateway.{
  GatewayAuth, cached_token, wants_store_token, has_static_token, learn_auth_server, resolve_token,
}

pub record Client (D N : Type 0) : Type 0 where
  pub auth : GatewayAuth
  pub disk : D
  pub network : N

-- What the client is given from outside: files, clock and JSON parser, and its refresh.
pub record Services (D : Type 0) : Type 0 where
  pub files : Files D
  pub context : Context
  pub refresh : Text → Fields → Option RefreshOutcome

-- The files, the clock and the JSON parser, and the requests that its HTTP library sends to an auth
-- server
pub record Outside (D : Type 0) : Type 0 where
  pub files : Files D
  pub context : Context
  pub ask : Ask

unfoldable pub blocking_services : {D : Type 0} → Outside D → Services D
unfolding refresh_blocking
blocking_services o = record {
  files = o.files;
  context = o.context;
  refresh = refresh_blocking o.ask;
}

-- One answer: its status, the auth server of a denial, and its body.
abbrev pub Answer : Type 0 → Type 0
Answer T = ℕ × Option Text × T

module _ {D N : Type 0} (s : Services D) where
  abbrev pub with_auth : Option Text × GatewayAuth × D → N → Option Text × Client D N
  with_auth (token, auth, disk) n = (token, record { auth = auth; disk = disk; network = n })

  unfoldable pub resolve : Text → Option Text → Client D N → Option Text × Client D N
  unfolding resolve_token
  resolve url avoid c =
      with_auth (resolve_token s.files s.context s.refresh url avoid (c.auth, c.disk)) c.network

  unfoldable pub learn : Text → Client D N → Client D N
  unfolding learn_auth_server
  learn url c =
      let (auth, disk) = learn_auth_server s.files url (c.auth, c.disk) in
      record c { auth = auth; disk = disk }

  abbrev pub look_up : Bool → Option Text → Client D N → Option Text × Client D N
  look_up true (some url) c = resolve url none c
  look_up _ _ c = (none, c)

  abbrev pub or_look_up : Option Text × GatewayAuth → Client D N → Option Text × Client D N
  or_look_up (some token, auth) c = (some token, record c { auth = auth })
  or_look_up (none, auth) c =
      look_up (wants_store_token auth) auth.auth_url (record c { auth = auth })

  unfoldable pub current_token : Client D N → Option Text × Client D N
  unfolding cached_token wants_store_token resolve
  current_token c = or_look_up (cached_token s.context c.auth) c

  module _ {T : Type 0} (send : Option Text → N → Res (Answer T) × N) where
    abbrev pub send_with : Option Text → Client D N → Res (Answer T) × Client D N
    send_with token c = let (r, n) = send token c.network in (r, record c { network = n })

    abbrev pub denial : ℕ → Text → Bool → Client D N → Res (ℕ × T) × Client D N
    denial status url sent c = (err (denial_error status c.auth.box_host url sent), c)

    abbrev pub judge_second : Res (Answer T) × Client D N → Res (ℕ × T) × Client D N
    judge_second (err e, c) = (err e, c)
    judge_second (ok (status, none, body), c) = (ok (status, body), c)
    judge_second (ok (status, some url, body), c) = denial status url true c

    abbrev pub second_try : ℕ → Text → Bool → Option Text × Client D N → Res (ℕ × T) × Client D N
    second_try status url sent (none, c) = denial status url sent c
    second_try status url sent (some fresh, c) = judge_second (send_with (some fresh) c)

    abbrev pub on_denial : ℕ → Text → Option Text → Client D N → Res (ℕ × T) × Client D N
    on_denial status url token c =
        if status == 401 && not (has_static_token c.auth)
        then second_try status url (is_some token) (resolve url token c)
        else denial status url (is_some token) c

    abbrev pub judge_first : Option Text → Res (Answer T) × Client D N → Res (ℕ × T) × Client D N
    judge_first token (err e, c) = (err e, c)
    judge_first token (ok (status, none, body), c) = (ok (status, body), c)
    judge_first token (ok (status, some url, body), c) = on_denial status url token (learn url c)

    abbrev pub send_first : Option Text × Client D N → Res (ℕ × T) × Client D N
    send_first (token, c) = judge_first token (send_with token c)

    unfoldable pub with_gateway_auth : Client D N → Res (ℕ × T) × Client D N
    unfolding current_token learn resolve has_static_token denial_error
    with_gateway_auth c = send_first (current_token c)

  -- The streams of the debug service.
  module _ {T : Type 0} (stream_once : Option Text → Client D N → Res T × Client D N) where
    abbrev retry_stream : Error → Option Text × Client D N → Res T × Client D N
    retry_stream e (none, c) = (err e, c)
    retry_stream e (some fresh, c) = stream_once (some fresh) c

    abbrev pub judge_stream : Option Text → Res T × Client D N → Res T × Client D N
    judge_stream token (err (auth_required box_host url message), c) =
        if has_static_token c.auth
        then (err (auth_required box_host url message), c)
        else retry_stream (auth_required box_host url message) (resolve url token c)
    judge_stream token (other, c) = (other, c)

    abbrev open_stream : Option Text × Client D N → Res T × Client D N
    open_stream (token, c) = judge_stream token (stream_once token c)

    unfoldable pub stream_debug : Client D N → Res T × Client D N
    unfolding current_token resolve has_static_token
    stream_debug c = open_stream (current_token c)

  -- `bearer_token`; `health` is the request of that name.
  module _ (health : Client D N → Res (Unit {0}) × Client D N) where
    abbrev sign_in : Option Text → GatewayAuth → Res (Option Text)
    sign_in none auth = ok none
    sign_in (some url) auth =
        err (
          auth_required auth.box_host url
            (str "box " ++ (auth.box_host ++ str " requires sign-in")))

    abbrev or_sign_in : Option Text × Client D N → Res (Option Text) × Client D N
    or_sign_in (some token, c) = (ok (some token), c)
    or_sign_in (none, c) = (sign_in c.auth.auth_url c.auth, c)

    abbrev after_health : Res (Unit {0}) × Client D N → Res (Option Text) × Client D N
    after_health (err e, c) = (err e, c)
    after_health (ok _, c) = or_sign_in (current_token c)

    abbrev ask_health : Option Text × Client D N → Res (Option Text) × Client D N
    ask_health (some token, c) = (ok (some token), c)
    ask_health (none, c) =
        if is_some c.auth.auth_url
        then (sign_in c.auth.auth_url c.auth, c)
        else after_health (health c)

    unfoldable pub bearer_token : Client D N → Res (Option Text) × Client D N
    unfolding current_token
    bearer_token c = ask_health (current_token c)
