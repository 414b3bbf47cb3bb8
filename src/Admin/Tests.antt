-- ===== src/Admin/Tests.antt =====
-- Operations on concrete boxes, and instances of the theorems about them.
use lager_rs.Prelude.{ℕ, ◌+◌, ◌≡◌, refl, none, some, Bytes, ok, err, str, contains, print_radix}
use lager_rs.Json.{Value, string, object, number, pos_int, null, field, end, insert, remove}
use lager_rs.Error.{Error, unsupported_by_box}
use lager_rs.Action.{Action}
use lager_rs.Http.{Codec, RawRequest}
use lager_rs.Wire.Compat.{is_route_missing}
use lager_rs.DebugNet.{extend}
use lager_rs.Client.{current_token}
use lager_rs.Client.LagerBox.{execute_raw}
use lager_rs.Client.Tests.{services, client_with}
use lager_rs.Client.BoxTests.{codec, lager, answering}
use lager_rs.Admin.{run_admin, complete, route_missing}
use lager_rs.Admin.Answers.{reason, accepted, parse_unit}
use lager_rs.Admin.Records as Records
use lager_rs.Admin.Records.{NetRecord, with_pin, with_field, record_body}
use lager_rs.Admin.Ops.{req, delete_net, rename_net, unserved_download}
use lager_rs.Admin.Refused.{IsReading, unit_reading}
use lager_rs.Admin.Told.{Told}
use lager_rs.Admin.Delivered.{Came, run_admin-Came}
use lager_rs.Admin.Saving.{Saves, rename_net-Saves}

-- A box that has none of the routes, and answers with a page
abbrev page : Codec
page = record { to_vec = λ v. ok (str "{}"); from_slice = λ b. err (str "expected value") }

abbrev without_routes : RawRequest → Action ℕ (ℕ × Bytes)
without_routes req n = (ok (404, str "<h1>Not Found</h1>"), n + 1)

missing_route :
    route_missing (reason 404 (err (str "expected value"))) unserved_download
    ≡ unsupported_by_box unserved_download
unfolding route_missing is_route_missing contains print_radix
missing_route = refl

deleted :
    (run_admin codec
      (execute_raw services codec (answering 200) lager)
      (delete_net codec (str "vdd") none)
      (client_with (some (str "t")))).0
    ≡ ok tt
unfolding run_admin complete execute_raw current_token delete_net req parse_unit accepted
deleted = refl

delete_net-IsReading : IsReading codec Unit (delete_net codec (str "vdd") none).parse
unfolding delete_net
delete_net-IsReading = unit_reading

run_admin-Came_example :
    Came services codec (answering 200) lager (delete_net codec (str "vdd") none).parse tt
run_admin-Came_example =
    run_admin-Came services codec (answering 200) lager (delete_net codec (str "vdd") none)
      (client_with (some (str "t"))) delete_net-IsReading deleted

abbrev no_float : ℕ → Value
no_float x = null

-- A record as the box lists it, with the path that the box derived
abbrev supply : NetRecord
supply = with_field (str "live_path") (string (str "/dev/usbtmc0")) (
    with_pin (number (pos_int 1))
      (Records.new (str "vdd") (str "power-supply") (str "Rigol_DP832")))

abbrev supply_value : Value
supply_value = object (
    field (str "instrument") (string (str "Rigol_DP832")) (
      field (str "name") (string (str "vdd")) (
        field (str "pin") (number (pos_int 1))
          (field (str "role") (string (str "power-supply")) end))))

supply_body : record_body no_float supply ≡ supply_value
unfolding record_body extend insert remove with_field with_pin Records.new
supply_body = refl

-- A JSON library that knows this record
abbrev knowing : Codec
knowing = record { to_vec = λ v. ok (str "{}"); from_slice = λ b. ok (record_body no_float supply) }

rename_net-Saves_example :
    Saves no_float knowing (str "v/dd") supply (rename_net knowing no_float (str "v/dd") supply)
rename_net-Saves_example = rename_net-Saves no_float knowing (str "v/dd") supply refl refl refl
