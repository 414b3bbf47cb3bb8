-- ===== src/AsyncClient/Tests.antt =====
-- Two libraries that answer every call alike, and the two clients on them.
use lager_rs.Prelude.{ℕ, ◌+◌, refl, false, none, some, [], ok, str}
use lager_rs.Json.{Value}
use lager_rs.Auth.Refresh.{Ask, AskedAlike}
use lager_rs.Client.{Outside, blocking_services}
use lager_rs.Wire.Request.{get}
use lager_rs.Http.{Failure, Reply}
use lager_rs.Action.Agreement.{AgreesAt}
use lager_rs.Client.LagerBox as Blocking
use lager_rs.Client.BoxTests.{codec, lager, answering}
use lager_rs.Client.Tests.{services, client_with}
use lager_rs.AsyncClient as Async
use lager_rs.AsyncClient.Calls as Calls
use lager_rs.Admin as Admin
use lager_rs.Admin.Ops.{delete_net}
use lager_rs.Admin.Agree.{run_admin-Agrees}
use lager_rs.AsyncClient.{Reqwest}
use lager_rs.AsyncClient.Agree.{SameLibraries, asking, execute_at-execute_at}

abbrev async_reply : Reply Failure
async_reply = record {
  status = 200;
  discovery = none;
  transfer_encoding = none;
  is_http_10 = false;
  body = ok (str "{}");
}

abbrev reqwest : Reqwest ℕ
reqwest = record {
  exchange = λ c t n. (ok async_reply, n + 1);
  builder_error = λ e. record { message = e; is_timeout = false };
  decode_error = λ e. e;
}

alike : SameLibraries (answering 200) reqwest
alike c t n = ((refl, refl, refl), refl)

-- The auth server, which has no refresh for anyone
abbrev ask : Ask
ask url cookies ms = some (record { status = 401; set_cookies = []; body = none })

abbrev outside : Outside Value
outside = record { files = services.files; context = services.context; ask = ask }

asked_alike : AskedAlike ask ask
asked_alike url cookies ms = (refl, refl)

execute_at-execute_at_example :
    AgreesAt
      (Blocking.execute_at
        (blocking_services outside)
        codec
        (answering 200)
        lager
        lager.base
        (get (str "/lock"))
        (client_with (some (str "t"))))
      (Async.execute_at
        (asking outside ask)
        codec
        reqwest
        lager
        lager.base
        (get (str "/lock"))
        (client_with (some (str "t"))))
unfolding get
execute_at-execute_at_example =
    execute_at-execute_at outside ask codec (answering 200) reqwest lager lager.base
      (get (str "/lock")) (client_with (some (str "t"))) alike asked_alike refl

run_admin-Agrees_example :
    AgreesAt
      (Admin.run_admin codec
        (Blocking.execute_raw (blocking_services outside) codec (answering 200) lager)
        (delete_net codec (str "vdd") (some (str "gpio")))
        (client_with (some (str "t"))))
      (Calls.run_admin codec
        (Async.execute_raw (asking outside ask) codec reqwest lager)
        (delete_net codec (str "vdd") (some (str "gpio")))
        (client_with (some (str "t"))))
run_admin-Agrees_example =
    run_admin-Agrees outside ask codec (answering 200) reqwest lager
      (delete_net codec (str "vdd") (some (str "gpio"))) (client_with (some (str "t"))) alike
      asked_alike
