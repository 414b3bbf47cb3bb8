-- ===== src/Client/Tests.antt =====
-- A client of a gated box, and instances of its theorems.
use lager_rs.Prelude.{
  arith, Bool, true, false, err, ℕ, ◌+◌, ◌≡◌, refl, Option, none, some, Text, ok, str, text_eq,
  if◌then◌else◌,
}
use lager_rs.Json.{Value, object, end}
use lager_rs.Auth.Store.{Files}
use lager_rs.Error.{Res, config}
use lager_rs.Tunnel.Refusal.{nothing_listening}
use lager_rs.Client.Tunneling.{
  Attempt, refused, IsSteady, tunnel_authorized, debug_tunnel, debug_tunnel-ends,
}
use lager_rs.Auth.Gateway.{GatewayAuth, cached_token, wants_store_token}
use lager_rs.Client.{
  look_up, or_look_up, resolve, Client, Services, Answer, with_gateway_auth, current_token,
}
use lager_rs.Client.Sending.{Answered, with_gateway_auth-answer, with_gateway_auth-pinned}
use lager_rs.Auth.Tests.{noon, good_token, auth_url}

-- The network counts its requests, and the box lets one token pass.
abbrev gated : Option Text → ℕ → Res (Answer Text) × ℕ
gated none n = (ok (401, some auth_url, str "sign in"), n + 1)
gated (some t) n =
    if text_eq t good_token
    then (ok (200, none, str "done"), n + 1)
    else (ok (401, some auth_url, str "no"), n + 1)

abbrev pub memory : Files Value
memory = record {
  read = λ d. some (str "");
  write = λ t d. d;
  from_str = λ t. some (object end);
  to_string = λ v. none;
}

abbrev pub services : Services Value
services = record { files = memory; context = noon; refresh = λ url cookies. none }

abbrev pub client_with : Option Text → Client Value ℕ
client_with t = record {
  auth = record { box_host = str "box"; static_token = t; auth_url = none; token = none };
  disk = object end;
  network = 0;
}

passed : (with_gateway_auth services gated (client_with (some good_token))).0 ≡ ok (200, str "done")
unfolding with_gateway_auth current_token cached_token
passed = refl

with_gateway_auth-answer_example : Answered services gated 200 (str "done")
with_gateway_auth-answer_example =
    with_gateway_auth-answer services gated (client_with (some good_token)) passed

with_gateway_auth-pinned_example :
    ((with_gateway_auth services gated (client_with (some (str "old")))).1.disk ≡ object end)
    × ((with_gateway_auth services gated (client_with (some (str "old")))).1.network ≡ 1)
with_gateway_auth-pinned_example =
    with_gateway_auth-pinned services gated (client_with (some (str "old"))) (str "old") refl

-- A box on which nothing ever listens; the network is the clock.
abbrev silent_port : Option Text → Client Value ℕ → Res (Attempt Text) × Client Value ℕ
silent_port token c = (ok (refused (nothing_listening (str "refused"))), c)

look_up-network :
    (b : Bool) (o : Option Text) (c : Client Value ℕ)
    → (look_up services b o c).1.network ≡ c.network
unfolding resolve
look_up-network true (some url) c = refl
look_up-network true none c = refl
look_up-network false o c = refl

or_look_up-network :
    (o : Option Text) (a : GatewayAuth) (c : Client Value ℕ)
    → (or_look_up services (o, a) c).1.network ≡ c.network
unfolding resolve wants_store_token
or_look_up-network (some t) a c = refl
or_look_up-network none a c =
    look_up-network (wants_store_token a) a.auth_url (record c { auth = a })

current_token-network : (c : Client Value ℕ) → (current_token services c).1.network ≡ c.network
unfolding current_token
current_token-network c =
    or_look_up-network (cached_token services.context c.auth).0
      (cached_token services.context c.auth).1 c

silent_port-IsSteady : IsSteady services silent_port (λ w. w) (λ n w. w + n)
unfolding tunnel_authorized
silent_port-IsSteady = record {
  attempts = λ c. omega (arith, current_token-network c);
  sleeps = λ n w. omega arith;
}

debug_tunnel-ends_example :
    (p : Res Text × Client Value ℕ) × (debug_tunnel services silent_port
        (λ w. w)
        (λ n w. w + n)
        (λ host port c. (err (config host), c))
        2331
        (client_with none)
      ≡ some p)
debug_tunnel-ends_example =
    debug_tunnel-ends services silent_port (λ w. w) (λ n w. w + n)
      (λ host port c. (err (config host), c)) 2331 silent_port-IsSteady (client_with none)
