-- ===== src/Nets/Eload.antt =====
-- The operations of src/nets/eload.rs.
use lager_rs.Prelude.{ℕ, Text, str}
use lager_rs.Json.{Value, insert}
use lager_rs.Wire.Request.{net_command}
use lager_rs.Wire.Envelope.{value_of}
use lager_rs.Wire.Values.{Floats, value_f64}
use lager_rs.Nets.Ops.{Op, unit, json_f64, value_param, no_params, command}

pub data EloadMode : Type 0 where
  cc_mode cv_mode cr_mode cp_mode : EloadMode

abbrev pub mode_action : EloadMode → Text
mode_action cc_mode = str "cc"
mode_action cv_mode = str "cv"
mode_action cr_mode = str "cr"
mode_action cp_mode = str "cp"

abbrev pub role : Text
role = str "eload"

-- Up to the typed decoding of the state
unfoldable pub state : Text → Op Value
unfolding net_command insert value_of
state name = command role name (str "state") no_params value_of

unfoldable pub set : Text → EloadMode → ℕ → Op Unit
unfolding net_command insert json_f64 unit
set name mode value = command role name (mode_action mode) (value_param value) unit

unfoldable pub enable : Text → Op Unit
unfolding net_command insert unit
enable name = command role name (str "enable") no_params unit

unfoldable pub disable : Text → Op Unit
unfolding net_command insert unit
disable name = command role name (str "disable") no_params unit

module _ (floats : Floats) (shown : Value → Text) where
  unfoldable pub setpoint : Text → EloadMode → Op ℕ
  unfolding net_command insert value_f64
  setpoint name mode = command role name (mode_action mode) no_params (value_f64 floats shown)
