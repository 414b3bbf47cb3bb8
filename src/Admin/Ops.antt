-- ===== src/Admin/Ops.antt =====
-- The operations of admin.rs without an upload: the module `ops`, but for `install_driver` and
-- `add_binary`.
pub mod Typed
use lager_rs.Prelude.{
  ℕ, ◌*◌, Bool, Option, none, some, List, ◌++◌, Text, Bytes, Result, str, if◌then◌else◌,
}
use lager_rs.Json.{Value, object, string, null, end, insert}
use lager_rs.Codec.Percent.{path_segment, encode_query_value}
use lager_rs.Wire.Request.{Method, get_method, post, put, delete, Timeout, after, unbounded}
use lager_rs.Http.{Codec, RawBody, RawRequest, json_body}
use lager_rs.DebugNet.{number_of, set_some}
use lager_rs.Admin.{AdminOp, json_answer, bytes_answer}
use lager_rs.Admin.Answers.{
  parse_unit, parse_as, parse_manifest, parse_file, parse_drivers, parse_packages, BenchManifest,
  DriverList, Packages,
}
use lager_rs.Admin.Records.{
  NetRecord, record_body, NetMetadataUpdate, update_body, CableId, cable_body,
}

abbrev pub unserved_nets : Text
unserved_nets = str "this box does not serve net changes over HTTP (PUT/DELETE /nets)"

abbrev pub unserved_net_metadata : Text
unserved_net_metadata =
    str "this box does not serve /nets/<name>/metadata (requires box software >= 0.46.0)"

abbrev pub unserved_box_metadata : Text
unserved_box_metadata = str "this box does not serve /box-metadata"

abbrev pub unserved_instruments : Text
unserved_instruments = str "this box does not serve /instruments/list"

abbrev pub unserved_bench : Text
unserved_bench = str "this box does not serve /bench (requires box software >= 0.50.0)"

abbrev pub unserved_drivers : Text
unserved_drivers =
    str "this box does not serve /drivers (custom drivers require box software >= 0.59.0)"

abbrev pub unserved_binaries : Text
unserved_binaries = str "this box does not serve /binaries"

abbrev pub unserved_download : Text
unserved_download = str "this box does not serve /download-file"

abbrev pub unserved_custom_devices : Text
unserved_custom_devices = str "this box does not serve /custom-devices"

abbrev pub unserved_diagnose : Text
unserved_diagnose = str "this box does not serve /diagnose"

-- Times are in milliseconds.
abbrev pub pip_budget : ℕ
pip_budget = 360000

abbrev pub budget : Timeout
budget = after 30000

abbrev pub drivers_path : Text → Text
drivers_path driver_type = str "/drivers/" ++ path_segment driver_type

abbrev pub text_or_null : Option Text → Value
text_or_null none = null
text_or_null (some t) = string t

abbrev pub role_query : Option Text → Text
role_query none = str ""
role_query (some role) = str "?role=" ++ encode_query_value role

abbrev pub time_limit : Option ℕ → Timeout
time_limit none = unbounded
time_limit (some ms) = after ms

module _ (codec : Codec) where
  abbrev pub raw_body : Option Value → Option RawBody
  raw_body none = none
  raw_body (some v) = some (json_body codec v)

  unfoldable pub req : Method → Text → Option Value → RawRequest
  unfolding json_body
  req method path body = record {
    method = method;
    path = path;
    body = raw_body body;
    timeout = budget;
  }

  unfoldable pub timed : Method → Text → Option Value → ℕ → RawRequest
  unfolding req
  timed method path body secs = record (req method path body) { timeout = after (secs * 1000) }

  unfoldable pub rename_net : (ℕ → Value) → Text → NetRecord → AdminOp Unit
  unfolding req record_body parse_unit path_segment
  rename_net float_value old_name r = record {
    req = req put (str "/nets/" ++ path_segment old_name) (some (record_body float_value r));
    parse = json_answer parse_unit;
    unsupported = unserved_nets;
  }

  unfoldable pub save_net : (ℕ → Value) → NetRecord → AdminOp Unit
  unfolding rename_net
  save_net float_value r = rename_net float_value r.name r

  unfoldable pub delete_net : Text → Option Text → AdminOp Unit
  unfolding req parse_unit path_segment encode_query_value
  delete_net name role = record {
    req = req delete (str "/nets/" ++ (path_segment name ++ role_query role)) none;
    parse = json_answer parse_unit;
    unsupported = unserved_nets;
  }

  unfoldable pub delete_all_nets : AdminOp Unit
  unfolding req parse_unit
  delete_all_nets = record {
    req = req delete (str "/nets") none;
    parse = json_answer parse_unit;
    unsupported = unserved_nets;
  }

  unfoldable pub remove_binary : Text → AdminOp Unit
  unfolding req parse_unit insert
  remove_binary name = record {
    req = req post (str "/binaries/remove") (some (object (insert (str "name") (string name) end)));
    parse = json_answer parse_unit;
    unsupported = unserved_binaries;
  }

  unfoldable pub bench_manifest : AdminOp BenchManifest
  unfolding req parse_manifest
  bench_manifest = record {
    req = req get_method (str "/bench") none;
    parse = json_answer parse_manifest;
    unsupported = unserved_bench;
  }

  unfoldable pub download_file_with_timeout : Text → Option ℕ → AdminOp Bytes
  unfolding parse_file encode_query_value
  download_file_with_timeout path timeout = record {
    req = record {
      method = get_method;
      path = str "/download-file?filename=" ++ encode_query_value path;
      body = none;
      timeout = time_limit timeout;
    };
    parse = bytes_answer (parse_file codec);
    unsupported = unserved_download;
  }

  unfoldable pub download_file : Text → AdminOp Bytes
  unfolding download_file_with_timeout
  download_file path = download_file_with_timeout path none

  unfoldable pub drivers : {A : Type 0} → (Value → Result Text (DriverList A)) → AdminOp (List A)
  unfolding req parse_drivers
  drivers from_value = record {
    req = req get_method (str "/drivers") none;
    parse = json_answer (parse_drivers from_value);
    unsupported = unserved_drivers;
  }

  unfoldable pub reinstall_driver_deps : (Value → Result Text Packages) → Text → AdminOp (List Text)
  unfolding parse_packages path_segment
  reinstall_driver_deps from_value driver_type = record {
    req = record {
      method = post;
      path = drivers_path driver_type ++ str "/deps";
      body = none;
      timeout = after pip_budget;
    };
    parse = json_answer (parse_packages from_value);
    unsupported = unserved_drivers;
  }
