-- ===== src/Nets/Usb/Handle.antt =====
-- The methods that src/nets/usb.rs gives `UsbPort` beside those of `net_handle!`.
use lager_rs.Prelude.{ℕ, Bool, Option, none, some, Text, ◌>>=?◌}
use lager_rs.Json.{Value}
use lager_rs.Wire.Request.{HttpRequest}
use lager_rs.Nets.Ops.{Op}
use lager_rs.Action.{Action, map_result, on_error}
use lager_rs.Client.Calls.{run}
use lager_rs.Nets.Usb.{
  UsbCycleReport, UsbRecoverReport, state_compat, cycle_compat, recover, state, recover_report,
  cycle, cycle_report,
}

module _ (shown problem : Value → Text) {S : Type 0}
    (execute : HttpRequest → Action S (ℕ × Value)) where
  unfoldable pub port_state : Text → Action S Bool
  unfolding run state state_compat
  port_state name =
      map_result (on_error state_compat) (run execute problem (state shown problem name))

  unfoldable pub port_recover : Text → Action S Unit
  unfolding run recover cycle_compat
  port_recover name = map_result (on_error cycle_compat) (run execute problem (recover name))

  unfoldable pub port_recover_report : Text → Action S UsbRecoverReport
  unfolding run recover_report cycle_compat
  port_recover_report name =
      map_result (on_error cycle_compat) (run execute problem (recover_report shown problem name))

  module _ (cycle_budget : Option ℕ → Option ℕ) where
    abbrev ran : {T : Type 0} → Option (Op T) → Option (Action S T)
    ran o = o >>=? λ op. some (map_result (on_error cycle_compat) (run execute problem op))

    unfoldable pub port_cycle : Text → Option (Action S (Option Bool))
    unfolding run cycle cycle_compat
    port_cycle name = ran (cycle shown problem cycle_budget name none)

    unfoldable pub port_cycle_with_off_time : Text → ℕ → Option (Action S (Option Bool))
    unfolding run cycle cycle_compat
    port_cycle_with_off_time name off_time_secs =
        ran (cycle shown problem cycle_budget name (some off_time_secs))

    unfoldable pub port_cycle_report : Text → Option ℕ → Option (Action S UsbCycleReport)
    unfolding run cycle_report cycle_compat
    port_cycle_report name off_time_secs =
        ran (cycle_report shown problem cycle_budget name off_time_secs)
