-- ===== src/AsyncClient/Calls.antt =====
-- The calls of async_client.rs above `execute`: those of the blocking client at another `execute`.
use lager_rs.Prelude.{ℕ, Option, List, Text, Bytes}
use lager_rs.Http.{Codec, RawRequest}
use lager_rs.Admin as Admin
use lager_rs.Admin.{AdminOp}
use lager_rs.Json.{Value}
use lager_rs.Error.{Res}
use lager_rs.Action.{Action}
use lager_rs.Wire.Request.{HttpRequest, UsbDeviceFilter, SafetyLimits}
use lager_rs.Nets.Ops.{Op}
use lager_rs.Client.Calls as Calls
use lager_rs.Client.Calls.{NetRecords}

module _ {S : Type 0} (execute : HttpRequest → Action S (ℕ × Value)) where
  unfoldable pub get_json : Text → Action S Value
  unfolding Calls.get_json
  get_json path = Calls.get_json execute path

  unfoldable pub nets_raw : Action S (List Value)
  unfolding Calls.nets_raw
  nets_raw = Calls.nets_raw execute

  unfoldable pub debug_net_record : Text → Action S Value
  unfolding Calls.debug_net_record
  debug_net_record name = Calls.debug_net_record execute name

  module _ {R : Type 0} (read : NetRecords R) where
    unfoldable pub nets : Action S (List R)
    unfolding Calls.nets
    nets = Calls.nets execute read

    unfoldable pub safety_limits : Text → Action S (Option SafetyLimits)
    unfolding Calls.safety_limits
    safety_limits name = Calls.safety_limits execute read name

  module _ (problem : Value → Text) where
    unfoldable pub run : {T : Type 0} → Op T → Action S T
    unfolding Calls.run
    run op = Calls.run execute problem op

    unfoldable pub usb_devices_matching : UsbDeviceFilter → Action S Value
    unfolding Calls.usb_devices_matching
    usb_devices_matching filter = Calls.usb_devices_matching execute problem filter

    unfoldable pub usb_devices : Action S Value
    unfolding Calls.usb_devices
    usb_devices = Calls.usb_devices execute problem

  module _ {A : Type 0} (from_value : Value → Res A) where
    unfoldable pub health : Action S A
    unfolding Calls.health
    health = Calls.health execute from_value

    unfoldable pub status : Action S A
    unfolding Calls.status
    status = Calls.status execute from_value

    unfoldable pub lock_call : HttpRequest → Action S A
    unfolding Calls.lock_call
    lock_call req = Calls.lock_call execute from_value req

    unfoldable pub lock_status : Action S A
    unfolding Calls.lock_status
    lock_status = Calls.lock_status execute from_value

    unfoldable pub lock : Text → Action S A
    unfolding Calls.lock
    lock user = Calls.lock execute from_value user

    unfoldable pub lock_with : Text → Text → Option ℕ → Action S A
    unfolding Calls.lock_with
    lock_with user holder_type ttl_seconds =
        Calls.lock_with execute from_value user holder_type ttl_seconds

    unfoldable pub lock_heartbeat : Text → Action S A
    unfolding Calls.lock_heartbeat
    lock_heartbeat user = Calls.lock_heartbeat execute from_value user

    unfoldable pub unlock : Text → Action S Unit
    unfolding Calls.unlock
    unlock user = Calls.unlock execute from_value user

    unfoldable pub unlock_force : Text → Action S Unit
    unfolding Calls.unlock_force
    unlock_force user = Calls.unlock_force execute from_value user

    unfoldable pub set_safety_limits : (ℕ → Value) → Text → SafetyLimits → Action S (Option A)
    unfolding Calls.set_safety_limits
    set_safety_limits float_value name limits =
        Calls.set_safety_limits execute from_value float_value name limits

    unfoldable pub clear_safety_limits : (ℕ → Value) → Text → Action S Unit
    unfolding Calls.clear_safety_limits
    clear_safety_limits float_value name =
        Calls.clear_safety_limits execute from_value float_value name

    unfoldable pub nets_state : Action S A
    unfolding Calls.nets_state
    nets_state = Calls.nets_state execute from_value

    unfoldable pub uart_sessions : Action S A
    unfolding Calls.uart_sessions
    uart_sessions = Calls.uart_sessions execute from_value

    unfoldable pub release_uart_session : Text → Action S A
    unfolding Calls.release_uart_session
    release_uart_session name = Calls.release_uart_session execute from_value name

module _ {S A : Type 0} (execute_debug : HttpRequest → Action S (ℕ × Value))
    (from_value : Value → Res A) where
  unfoldable pub debug_service_health : Action S A
  unfolding Calls.debug_service_health
  debug_service_health = Calls.debug_service_health execute_debug from_value

  unfoldable pub debug_service_health_detailed : Action S A
  unfolding Calls.debug_service_health_detailed
  debug_service_health_detailed = Calls.debug_service_health_detailed execute_debug from_value

  unfoldable pub debug_service_status : Action S A
  unfolding Calls.debug_service_status
  debug_service_status = Calls.debug_service_status execute_debug from_value

module _ (codec : Codec) {S : Type 0} (execute_raw : RawRequest → Action S (ℕ × Bytes)) where
  unfoldable pub run_admin : {T : Type 0} → AdminOp T → Action S T
  unfolding Admin.run_admin
  run_admin op = Admin.run_admin codec execute_raw op
