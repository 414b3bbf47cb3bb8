-- ===== src/Wire/Request.antt =====
-- The requests of wire.rs. A `json!` object is built by inserting its entries.
pub mod Paths
use lager_rs.Prelude.{
  true, false, ◌&&◌, ℕ, Bool, Option, none, some, List, [], ◌∷◌, ◌++◌, Text, str, is_empty,
  if◌then◌else◌,
}
use lager_rs.Json.{Value, null, boolean, number, pos_int, string, object, Fields, end, insert}
use lager_rs.Error.{join}
use lager_rs.Codec.Percent.{path_segment, encode_query_value}

pub data Method : Type 0 where
  get_method post put delete : Method

-- `After` holds milliseconds.
pub data Timeout : Type 0 where
  default : Timeout
  after : ℕ → Timeout
  unbounded : Timeout

pub record HttpRequest : Type 0 where
  pub method : Method
  pub path : Text
  pub body : Option Value
  pub timeout : Timeout

abbrev pub entries : List (Text × Value) → Fields
entries [] = end
entries ((k, v) ∷ more) = insert k v (entries more)

abbrev pub json : List (Text × Value) → Value
json fields = object (entries fields)

abbrev pub post_json : Text → Value → Timeout → HttpRequest
post_json path body timeout = record {
  method = post;
  path = path;
  body = some body;
  timeout = timeout;
}

abbrev pub command_fields : Text → Text → Value → List (Text × Value)
command_fields netname action params =
    (str "netname", string netname) ∷ (str "action", string action) ∷ (str "params", params) ∷ []

abbrev with_role : Option Text → Fields → Fields
with_role none body = body
with_role (some role) body = insert (str "role") (string role) body

unfoldable pub net_command : Text → Option Text → Text → Value → Timeout → HttpRequest
unfolding insert
net_command netname role action params timeout =
    post_json (str "/net/command")
      (object (with_role role (entries (command_fields netname action params)))) timeout

unfoldable pub supply_command : Text → Text → Value → HttpRequest
unfolding insert
supply_command netname action params =
    post_json (str "/supply/command") (json (command_fields netname action params)) default

unfoldable pub battery_command : Text → Text → Value → HttpRequest
unfolding insert
battery_command netname action params =
    post_json (str "/battery/command") (json (command_fields netname action params)) default

unfoldable pub usb_command : Text → Text → HttpRequest
unfolding insert
usb_command netname action =
    post_json (str "/usb/command")
      (json ((str "netname", string netname) ∷ (str "action", string action) ∷ [])) default

unfoldable pub box_command : Text → Text → Value → Timeout → HttpRequest
unfolding insert
box_command path action params timeout =
    post_json path (json ((str "action", string action) ∷ (str "params", params) ∷ [])) timeout

unfoldable pub get : Text → HttpRequest
get path = record { method = get_method; path = path; body = none; timeout = default }

unfoldable pub debug_request : Text → Value → Timeout → HttpRequest
debug_request path body timeout = post_json path body timeout

pub record UsbDeviceFilter : Type 0 where
  pub vid : Option Text
  pub pid : Option Text
  pub serial : Option Text

abbrev pub query_pair : Text → Option Text → List Text → List Text
query_pair key none later = later
query_pair key (some value) later = (key ++ b'=' ∷ encode_query_value value) ∷ later

abbrev pub query_pairs : UsbDeviceFilter → List Text
query_pairs f =
    query_pair (str "vid") f.vid
      (query_pair (str "pid") f.pid (query_pair (str "serial") f.serial []))

unfoldable pub usb_devices : UsbDeviceFilter → HttpRequest
unfolding encode_query_value join get
usb_devices f = get (
    if is_empty (query_pairs f)
    then str "/usb/devices"
    else str "/usb/devices?" ++ join (str "&") (query_pairs f))

unfoldable pub lock_status : HttpRequest
unfolding get
lock_status = get (str "/lock")

abbrev optional_number : Option ℕ → Value
optional_number none = null
optional_number (some n) = number (pos_int n)

unfoldable pub lock_acquire : Text → Text → Option ℕ → HttpRequest
unfolding insert
lock_acquire user holder_type ttl_seconds =
    post_json (str "/lock")
      (json (
        (str "user", string user)
        ∷ (str "holder_type", string holder_type)
        ∷ (str "ttl_seconds", optional_number ttl_seconds)
        ∷ []))
      default

unfoldable pub lock_heartbeat : Text → HttpRequest
unfolding insert
lock_heartbeat user =
    post_json (str "/lock/heartbeat") (json ((str "user", string user) ∷ [])) default

unfoldable pub unlock : Text → Bool → HttpRequest
unfolding insert
unlock user force =
    post_json (str "/unlock") (json ((str "user", string user) ∷ (str "force", boolean force) ∷ []))
      default

-- A float stands as its 64 bits.
pub record SafetyLimits : Type 0 where
  pub max_voltage : Option ℕ
  pub max_current : Option ℕ
  pub allow_destructive : Option Bool

abbrev pub is_none {ℓ} : {A : Type ℓ} → Option A → Bool
is_none none = true
is_none (some a) = false

-- `SafetyLimits::is_empty`
unfoldable pub is_unlimited : SafetyLimits → Bool
is_unlimited l = is_none l.max_voltage && is_none l.max_current && is_none l.allow_destructive

abbrev pub float_entry : (ℕ → Value) → Text → Option ℕ → Fields → Fields
float_entry float_value k none m = m
float_entry float_value k (some x) m = insert k (float_value x) m

abbrev pub bool_entry : Text → Option Bool → Fields → Fields
bool_entry k none m = m
bool_entry k (some b) m = insert k (boolean b) m

-- How `SafetyLimits` is serialized: a field that is not set is left out. `float_value` is the
-- library's conversion of a float.
unfoldable pub limits_value : (ℕ → Value) → SafetyLimits → Value
unfolding insert
limits_value float_value l = object (
    float_entry float_value (str "max_voltage") l.max_voltage (
      float_entry float_value (str "max_current") l.max_current
        (bool_entry (str "allow_destructive") l.allow_destructive end)))

unfoldable pub safety_limits_set : (ℕ → Value) → Text → SafetyLimits → HttpRequest
unfolding limits_value
safety_limits_set float_value name limits = record {
  method = put;
  path = str "/nets/" ++ (name ++ str "/safety-limits");
  body = some (limits_value float_value limits);
  timeout = default;
}

unfoldable pub nets_state : HttpRequest
nets_state = record {
  method = get_method;
  path = str "/nets/state";
  body = none;
  timeout = after 15000;
}

unfoldable pub uart_sessions : HttpRequest
unfolding get
uart_sessions = get (str "/uart/sessions")

unfoldable pub release_uart_session : Text → HttpRequest
unfolding path_segment
release_uart_session netname = record {
  method = delete;
  path = str "/uart/sessions/" ++ path_segment netname;
  body = none;
  timeout = default;
}

unfoldable pub debug_health_request : HttpRequest
unfolding get
debug_health_request = get (str "/health")

unfoldable pub debug_health_detailed_request : HttpRequest
unfolding get
debug_health_detailed_request = get (str "/health/detailed")

unfoldable pub debug_service_status_request : HttpRequest
unfolding get
debug_service_status_request = get (str "/status")
