-- ===== src/Client/BoxTests.antt =====
-- A box that answers every request alike, and instances of the theorems about calls of it.
use lager_rs.Prelude.{ℕ, ◌+◌, ◌≡◌, ◌≢◌, refl, true, false, none, some, [], Text, ok, err, str}
use lager_rs.Json.{Value, boolean, object, field, end}
use lager_rs.Error.{Error, Res, box}
use lager_rs.Action.{Action}
use lager_rs.Wire.Request.{HttpRequest, default, get, debug_request}
use lager_rs.Nets.Supply as Supply
use lager_rs.Http.{Reply, Codec}
use lager_rs.Client.{current_token}
use lager_rs.Client.Http.{BodyError, Ureq}
use lager_rs.Client.LagerBox.{LagerBox, execute, execute_at}
use lager_rs.Client.Calls.{get_json, nets_raw, run, lock}
use lager_rs.Client.Calls.Fallback.{nets_raw-err}
use lager_rs.Client.Commands.{Succeeded, run-Succeeded}
use lager_rs.Client.Delivery.{Delivered, execute_at-Delivered}
use lager_rs.Client.Lock.Once.{guarded, requests, logged, guarded-requests}
use lager_rs.Client.Stream.{panicked, stream_debug_once}
use lager_rs.Client.Stream.Panic.{stream_debug_once-runs}
use lager_rs.Client.Tests.{services, client_with}

abbrev pub success : Value
success = object (field (str "success") (boolean true) end)

-- The network counts its requests, and each is answered with one text.
abbrev pub reply : ℕ → Reply BodyError
reply status = record {
  status = status;
  discovery = none;
  transfer_encoding = none;
  is_http_10 = false;
  body = ok (str "{}");
}

abbrev pub answering : ℕ → Ureq ℕ
answering status = record { refused = λ c. none; exchange = λ c t n. (ok (reply status), n + 1) }

abbrev pub codec : Codec
codec = record { to_vec = λ v. ok (str "{}"); from_slice = λ b. ok success }

abbrev pub lager : LagerBox
lager = record {
  base = str "http://box:9000";
  debug_base = str "http://box:8765";
  default_timeout = 10000;
}

abbrev no_problem : Value → Text
no_problem v = str ""

enabled :
    (run
      (execute services codec (answering 200) lager)
      no_problem
      (Supply.enable (str "vdd"))
      (client_with (some (str "t")))).0
    ≡ ok tt
unfolding run execute Supply.enable current_token
enabled = refl

run-Succeeded_example :
    Succeeded services codec (answering 200) lager no_problem (Supply.enable (str "vdd")) tt
run-Succeeded_example =
    run-Succeeded services codec (answering 200) lager no_problem (Supply.enable (str "vdd"))
      (client_with (some (str "t"))) enabled

told :
    (execute_at services codec
      (answering 404)
      lager
      lager.base
      (get (str "/lock"))
      (client_with (some (str "t")))).0
    ≡ ok (404, success)
unfolding execute_at current_token get
told = refl

execute_at-Delivered_example : Delivered codec (answering 404) 404 success
execute_at-Delivered_example =
    execute_at-Delivered services codec (answering 404) lager lager.base (get (str "/lock"))
      (client_with (some (str "t"))) told

-- A box without routes, whose requests are counted
abbrev refusing : HttpRequest → Action ℕ (ℕ × Value)
refusing req n = (err (box 404 req.path), n + 1)

no_nets : (nets_raw refusing 0).0 ≡ err (box 404 (str "/nets/list"))
unfolding nets_raw
no_nets = refl

nets_raw-err_example :
    ((get_json refusing (str "/nets/list") 0).0 ≡ err (box 404 (str "/nets/list")))
    × ((e' : Error) × ((get_json refusing
            (str "/uart/nets/list")
            (get_json refusing (str "/nets/list") 0).1).0
          ≡ err e'))
nets_raw-err_example = nets_raw-err refusing 0 no_nets

abbrev granting : HttpRequest → Action ℕ (ℕ × Value)
granting req n = (ok (200, success), n + 1)

abbrev as_it_is : Value → Res Value
as_it_is v = ok v

guarded-requests_example :
    (guarded granting as_it_is true (str "ann") ([], 0)).1.0
    ≡ requests granting as_it_is
        (lock (logged granting) as_it_is (str "ann") ([], 0)).0
        (str "ann")
        []
guarded-requests_example = guarded-requests granting as_it_is true (str "ann") ([], 0)

stream_debug_once-runs_example :
    (stream_debug_once services codec
      (answering 404)
      lager.debug_base
      10000
      (debug_request (str "/debug/rtt") success default)
      none
      (client_with none)).0
    ≢ ok panicked
stream_debug_once-runs_example =
    stream_debug_once-runs services codec (answering 404) lager.debug_base 10000
      (debug_request (str "/debug/rtt") success default) none (client_with none)
