-- ===== src/Client/Calls.antt =====
-- What a client asks a box for: the calls of client.rs above `execute`, which async_client.rs has
-- word for word with its own `execute`. `S` is the state of the client.
pub mod Fallback
use lager_rs.Prelude.{
  ℕ, Bool, true, false, not, Option, none, some, List, [], ◌∷◌, ◌++◌, Text, Bytes, Result, ok, err,
  str, text_eq, ◌==◌, ◌>>=?◌, if◌then◌else◌,
}
use lager_rs.Json.{Value, array, Items, nil, cons, get, as_str}
use lager_rs.Error.{Error, Res, box, decode}
use lager_rs.Action.{Action, and_then, ◌>>=◌, give, map_result, on_error, or_else_err}
use lager_rs.Wire.Request as Request
use lager_rs.Wire.Request.{HttpRequest, UsbDeviceFilter, SafetyLimits}
use lager_rs.Wire.Envelope.{CommandResponse, parse_command}
use lager_rs.Wire.Compat.{
  map_route_missing, usb_devices_unsupported, lock_unsupported, safety_limits_unsupported,
  nets_state_unsupported, uart_sessions_unsupported,
}
use lager_rs.Wire.Debug.{
  parse_debug, parse_lock, parse_nets_state, parse_uart_sessions, parse_release_uart_session,
  parse_safety_limits, nets_list_values,
}
use lager_rs.Wire.Dfu.{parse_usb_devices}
use lager_rs.DebugNet.{find_debug_record}
use lager_rs.Nets.Ops.{Op}

abbrev pub error_text : Option Text → Text
error_text none = str "request failed"
error_text (some message) = message

unfoldable pub judge_json : ℕ × Value → Res Value
judge_json (status, body) =
    if status == 200
    then ok body
    else err (box status (error_text (get (str "error") body >>=? as_str)))

abbrev pub items_of : List Value → Items
items_of [] = nil
items_of (v ∷ vs) = cons v (items_of vs)

abbrev pub no_filter : UsbDeviceFilter
no_filter = record { vid = none; pid = none; serial = none }

abbrev pub no_limits : SafetyLimits
no_limits = record { max_voltage = none; max_current = none; allow_destructive = none }

abbrev pub forget : {A : Type 0} → Res A → Res Unit
forget (ok a) = ok tt
forget (err e) = err e

-- The net records that serde makes of the list, with their names and limits
pub record NetRecords (R : Type 0) : Type 0 where
  pub from_list : Value → Result Text (List R)
  pub name : R → Text
  pub safety_limits : R → Option SafetyLimits

abbrev pub invalid_list : {R : Type 0} → Result Text (List R) → Res (List R)
invalid_list (ok nets) = ok nets
invalid_list (err e) = err (decode (str "invalid nets list: " ++ e))

-- `nets_from_body`
unfoldable pub nets_from_body : {R : Type 0} → NetRecords R → Value → Res (List R)
unfolding nets_list_values
nets_from_body read body = invalid_list (read.from_list (array (items_of (nets_list_values body))))

-- The first record of that name
abbrev pub find_net : {R : Type 0} → NetRecords R → Text → List R → Option R
find_net read name [] = none
find_net read name (r ∷ rs) =
    let rest = find_net read name rs in if text_eq (read.name r) name then some r else rest

abbrev pub limits_of : {R : Type 0} → NetRecords R → Text → Option R → Res (Option SafetyLimits)
limits_of read name (some r) = ok (read.safety_limits r)
limits_of read name none =
    err (box 404 (str "no saved net named '" ++ (name ++ str "' on this box")))

module _ {S : Type 0} (execute : HttpRequest → Action S (ℕ × Value)) where
  unfoldable pub get_json : Text → Action S Value
  unfolding judge_json Request.get
  get_json path s = and_then (execute (Request.get path) s) (λ p. give (judge_json p))

  -- The second call is made where the first fails, and its own error is not reported.
  abbrev pub or_instead : {A : Type 0} → Action S A → Res A × S → Res A × S
  or_instead second (ok a, s) = (ok a, s)
  or_instead second (err e, s) = let (r, s') = second s in (or_else_err r e, s')

  unfoldable pub nets_body : Action S Value
  unfolding get_json
  nets_body s = or_instead (get_json (str "/uart/nets/list")) (get_json (str "/nets/list") s)

  unfoldable pub nets_raw : Action S (List Value)
  unfolding nets_body nets_list_values
  nets_raw s = and_then (nets_body s) (λ body. give (ok (nets_list_values body)))

  unfoldable pub debug_net_record : Text → Action S Value
  unfolding nets_raw find_debug_record
  debug_net_record name s = and_then (nets_raw s) (λ records. give (find_debug_record records name))

  module _ {R : Type 0} (read : NetRecords R) where
    unfoldable pub nets : Action S (List R)
    unfolding nets_body nets_from_body
    nets s = and_then (nets_body s) (λ body. give (nets_from_body read body))

    unfoldable pub safety_limits : Text → Action S (Option SafetyLimits)
    unfolding nets
    safety_limits name s =
        and_then (nets s) (λ rs. give (limits_of read name (find_net read name rs)))

  -- `problem` is what serde says of an envelope that does not fit.
  module _ (problem : Value → Text) where
    unfoldable pub run : {T : Type 0} → Op T → Action S T
    unfolding parse_command
    run op s =
        and_then (execute op.req s)
          (λ p. λ s'. and_then (parse_command problem p.0 p.1, s') (λ r. give (op.parse r)))

    -- Up to the typed decoding
    unfoldable pub usb_devices_matching : UsbDeviceFilter → Action S Value
    unfolding Request.usb_devices parse_usb_devices map_route_missing
    usb_devices_matching filter =
        map_result (on_error (λ e. map_route_missing e usb_devices_unsupported)) (λ s.
          and_then (execute (Request.usb_devices filter) s)
            (λ p. give (parse_usb_devices problem p.0 p.1)))

    unfoldable pub usb_devices : Action S Value
    unfolding usb_devices_matching
    usb_devices = usb_devices_matching no_filter

  -- `from_value` is serde's decoding of a body into the type of the answer.
  module _ {A : Type 0} (from_value : Value → Res A) where
    -- `health` and `status`
    unfoldable pub health : Action S A
    unfolding get_json
    health s = and_then (get_json (str "/health") s) (λ body. give (from_value body))

    unfoldable pub status : Action S A
    unfolding get_json
    status s = and_then (get_json (str "/status") s) (λ body. give (from_value body))

    -- A call whose answer `parse` reads, on a route that an old box has not
    abbrev pub routed : {B : Type 0} → HttpRequest → (ℕ → Value → Res B) → Error → Action S B
    routed req parse unsupported =
        map_result (on_error (λ e. map_route_missing e unsupported))
          (λ s. and_then (execute req s) (λ p. give (parse p.0 p.1)))

    unfoldable pub lock_call : HttpRequest → Action S A
    unfolding parse_lock map_route_missing
    lock_call req = routed req (parse_lock from_value) lock_unsupported

    unfoldable pub lock_status : Action S A
    unfolding lock_call Request.lock_status
    lock_status = lock_call Request.lock_status

    unfoldable pub lock : Text → Action S A
    unfolding lock_call Request.lock_acquire
    lock user = lock_call (Request.lock_acquire user (str "user") none)

    unfoldable pub lock_with : Text → Text → Option ℕ → Action S A
    unfolding lock_call Request.lock_acquire
    lock_with user holder_type ttl_seconds =
        lock_call (Request.lock_acquire user holder_type ttl_seconds)

    unfoldable pub lock_heartbeat : Text → Action S A
    unfolding lock_call Request.lock_heartbeat
    lock_heartbeat user = lock_call (Request.lock_heartbeat user)

    unfoldable pub unlock : Text → Action S Unit
    unfolding lock_call Request.unlock
    unlock user = map_result forget (lock_call (Request.unlock user false))

    unfoldable pub unlock_force : Text → Action S Unit
    unfolding lock_call Request.unlock
    unlock_force user = map_result forget (lock_call (Request.unlock user true))

    -- `float_value` is the library's conversion of a float.
    unfoldable pub set_safety_limits : (ℕ → Value) → Text → SafetyLimits → Action S (Option A)
    unfolding Request.safety_limits_set parse_safety_limits map_route_missing
    set_safety_limits float_value name limits =
        routed (Request.safety_limits_set float_value name limits) (parse_safety_limits from_value)
          safety_limits_unsupported

    unfoldable pub clear_safety_limits : (ℕ → Value) → Text → Action S Unit
    unfolding set_safety_limits
    clear_safety_limits float_value name =
        map_result forget (set_safety_limits float_value name no_limits)

    unfoldable pub nets_state : Action S A
    unfolding Request.nets_state parse_nets_state map_route_missing
    nets_state = routed Request.nets_state (parse_nets_state from_value) nets_state_unsupported

    unfoldable pub uart_sessions : Action S A
    unfolding Request.uart_sessions parse_uart_sessions map_route_missing
    uart_sessions =
        routed Request.uart_sessions (parse_uart_sessions from_value) uart_sessions_unsupported

    unfoldable pub release_uart_session : Text → Action S A
    unfolding Request.release_uart_session parse_release_uart_session map_route_missing
    release_uart_session name =
        routed (Request.release_uart_session name) (parse_release_uart_session from_value)
          uart_sessions_unsupported

-- The calls of the debug service, with the `execute` of its port
module _ {S A : Type 0} (execute_debug : HttpRequest → Action S (ℕ × Value))
    (from_value : Value → Res A) where
  abbrev pub debug_answer : HttpRequest → Action S A
  debug_answer req s =
      and_then (execute_debug req s)
        (λ p. λ s'. and_then (parse_debug p.0 p.1, s') (λ body. give (from_value body)))

  unfoldable pub debug_service_health : Action S A
  unfolding Request.debug_health_request parse_debug
  debug_service_health = debug_answer Request.debug_health_request

  unfoldable pub debug_service_health_detailed : Action S A
  unfolding Request.debug_health_detailed_request parse_debug
  debug_service_health_detailed = debug_answer Request.debug_health_detailed_request

  unfoldable pub debug_service_status : Action S A
  unfolding Request.debug_service_status_request parse_debug
  debug_service_status = debug_answer Request.debug_service_status_request
