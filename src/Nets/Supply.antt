-- ===== src/Nets/Supply.antt =====
-- The operations of src/nets/supply.rs.
use lager_rs.Prelude.{ℕ, Option, some, Text, str, ◌>>=?◌}
use lager_rs.Json.{Value, object, end, insert}
use lager_rs.Error.{Res}
use lager_rs.Wire.Request.{supply_command}
use lager_rs.Wire.Envelope.{CommandResponse, state_of}
use lager_rs.Nets.Ops.{Op, unit, json_f64, value_param, no_params, insert_some}

pub record ProtectionLimits : Type 0 where
  pub ocp : Option ℕ
  pub ovp : Option ℕ

unfoldable pub setpoint_params : ℕ → ProtectionLimits → Value
unfolding insert json_f64
setpoint_params value limits = object (
    insert_some (str "ovp") (limits.ovp >>=? λ v. some (json_f64 v)) (
      insert_some (str "ocp") (limits.ocp >>=? λ v. some (json_f64 v))
        (insert (str "value") (json_f64 value) end)))

abbrev supply_op : {T : Type 0} → Text → Text → Value → (CommandResponse → Res T) → Op T
supply_op name action params parse = record {
  req = supply_command name action params;
  parse = parse;
}

unfoldable pub set_voltage : Text → ℕ → Op Unit
unfolding supply_command unit insert json_f64
set_voltage name value = supply_op name (str "voltage") (value_param value) unit

unfoldable pub set_current : Text → ℕ → Op Unit
unfolding supply_command unit insert json_f64
set_current name value = supply_op name (str "current") (value_param value) unit

unfoldable pub set_voltage_with : Text → ℕ → ProtectionLimits → Op Unit
unfolding supply_command unit insert setpoint_params
set_voltage_with name value limits =
    supply_op name (str "voltage") (setpoint_params value limits) unit

unfoldable pub set_current_with : Text → ℕ → ProtectionLimits → Op Unit
unfolding supply_command unit insert setpoint_params
set_current_with name value limits =
    supply_op name (str "current") (setpoint_params value limits) unit

unfoldable pub set_mode : Text → Op Unit
unfolding supply_command unit insert
set_mode name = supply_op name (str "set_mode") no_params unit

unfoldable pub enable : Text → Op Unit
unfolding supply_command unit insert
enable name = supply_op name (str "enable") no_params unit

unfoldable pub disable : Text → Op Unit
unfolding supply_command unit insert
disable name = supply_op name (str "disable") no_params unit

unfoldable pub set_ocp : Text → ℕ → Op Unit
unfolding supply_command unit insert json_f64
set_ocp name value = supply_op name (str "ocp") (value_param value) unit

unfoldable pub set_ovp : Text → ℕ → Op Unit
unfolding supply_command unit insert json_f64
set_ovp name value = supply_op name (str "ovp") (value_param value) unit

unfoldable pub clear_ocp : Text → Op Unit
unfolding supply_command unit insert
clear_ocp name = supply_op name (str "clear_ocp") no_params unit

unfoldable pub clear_ovp : Text → Op Unit
unfolding supply_command unit insert
clear_ovp name = supply_op name (str "clear_ovp") no_params unit

unfoldable pub disable_ocp : Text → Op Unit
unfolding supply_command unit insert
disable_ocp name = supply_op name (str "disable_ocp") no_params unit

unfoldable pub disable_ovp : Text → Op Unit
unfolding supply_command unit insert
disable_ovp name = supply_op name (str "disable_ovp") no_params unit

-- Up to the typed decoding of the state
unfoldable pub state : Text → Op Value
unfolding supply_command insert state_of
state name = supply_op name (str "state") no_params state_of
