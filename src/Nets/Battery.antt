-- ===== src/Nets/Battery.antt =====
-- The operations of src/nets/battery.rs.
use lager_rs.Prelude.{ℕ, List, [], ◌∷◌, Text, str}
use lager_rs.Json.{Value, string, number, pos_int, array, Items, nil, cons, insert}
use lager_rs.Error.{Res}
use lager_rs.Wire.Request.{battery_command, json}
use lager_rs.Wire.Envelope.{CommandResponse, state_of}
use lager_rs.Wire.Values.{Floats, value_f64}
use lager_rs.Wire.Dfu.{extra_of}
use lager_rs.Nets.Ops.{Op, unit, json_f64, value_param, no_params}

pub data BatteryMode : Type 0 where
  static dynamic : BatteryMode

abbrev pub mode_text : BatteryMode → Text
mode_text static = str "static"
mode_text dynamic = str "dynamic"

abbrev battery_op : {T : Type 0} → Text → Text → Value → (CommandResponse → Res T) → Op T
battery_op name action params parse = record {
  req = battery_command name action params;
  parse = parse;
}

unfoldable pub set_value : Text → Text → ℕ → Op Unit
unfolding battery_command insert json_f64 unit
set_value name action value = battery_op name action (value_param value) unit

unfoldable pub simple : Text → Text → Op Unit
unfolding battery_command insert unit
simple name action = battery_op name action no_params unit

unfoldable pub set_soc : Text → ℕ → Op Unit
unfolding set_value
set_soc name value = set_value name (str "set_soc") value

unfoldable pub set_voc : Text → ℕ → Op Unit
unfolding set_value
set_voc name value = set_value name (str "set_voc") value

unfoldable pub set_volt_full : Text → ℕ → Op Unit
unfolding set_value
set_volt_full name value = set_value name (str "set_volt_full") value

unfoldable pub set_volt_empty : Text → ℕ → Op Unit
unfolding set_value
set_volt_empty name value = set_value name (str "set_volt_empty") value

unfoldable pub set_capacity : Text → ℕ → Op Unit
unfolding set_value
set_capacity name value = set_value name (str "set_capacity") value

unfoldable pub set_current_limit : Text → ℕ → Op Unit
unfolding set_value
set_current_limit name value = set_value name (str "set_current_limit") value

unfoldable pub set_ocp : Text → ℕ → Op Unit
unfolding set_value
set_ocp name value = set_value name (str "set_ocp") value

unfoldable pub set_ovp : Text → ℕ → Op Unit
unfolding set_value
set_ovp name value = set_value name (str "set_ovp") value

unfoldable pub set_mode : Text → BatteryMode → Op Unit
unfolding battery_command insert unit
set_mode name mode =
    battery_op name (str "set_mode") (json ((str "mode_type", string (mode_text mode)) ∷ [])) unit

unfoldable pub set_model : Text → Text → Op Unit
unfolding battery_command insert unit
set_model name partnumber =
    battery_op name (str "set_model") (json ((str "partnumber", string partnumber) ∷ [])) unit

unfoldable pub enable : Text → Op Unit
unfolding simple
enable name = simple name (str "enable_battery")

unfoldable pub disable : Text → Op Unit
unfolding simple
disable name = simple name (str "disable_battery")

unfoldable pub init_battery_mode : Text → Op Unit
unfolding simple
init_battery_mode name = simple name (str "set_to_battery_mode")

unfoldable pub clear_ocp : Text → Op Unit
unfolding simple
clear_ocp name = simple name (str "clear_ocp")

unfoldable pub clear_ovp : Text → Op Unit
unfolding simple
clear_ovp name = simple name (str "clear_ovp")

unfoldable pub clear : Text → Op Unit
unfolding simple
clear name = simple name (str "clear")

-- Up to the typed decoding
unfoldable pub parse_models : CommandResponse → Res Value
unfolding extra_of
parse_models r = extra_of (str "models") r

unfoldable pub parse_model : CommandResponse → Res Value
unfolding extra_of
parse_model r = extra_of (str "model") r

unfoldable pub models : Text → Op Value
unfolding battery_command insert parse_models
models name = battery_op name (str "list_models") no_params parse_models

unfoldable pub export_model : Text → ℕ → Op Value
unfolding battery_command insert parse_model
export_model name slot =
    battery_op name (str "export_model") (json ((str "slot", number (pos_int slot)) ∷ []))
      parse_model

abbrev float_items : List ℕ → Items
float_items [] = nil
float_items (f ∷ fs) = cons (json_f64 f) (float_items fs)

unfoldable pub create_model : Text → ℕ → List ℕ → List ℕ → Op Unit
unfolding battery_command insert unit json_f64
create_model name slot voc resistance =
    battery_op name (str "create_model")
      (json (
        (str "slot", number (pos_int slot))
        ∷ (str "voc", array (float_items voc))
        ∷ (str "resistance", array (float_items resistance))
        ∷ []))
      unit

-- Up to the typed decoding
unfoldable pub state : Text → Op Value
unfolding battery_command insert state_of
state name = battery_op name (str "state") no_params state_of

module _ (floats : Floats) (shown : Value → Text) where
  unfoldable pub set_esr : Text → ℕ → Op ℕ
  unfolding battery_command insert json_f64 value_f64
  set_esr name ohms = battery_op name (str "set_esr") (value_param ohms) (value_f64 floats shown)

  unfoldable pub esr : Text → Op ℕ
  unfolding battery_command insert value_f64
  esr name = battery_op name (str "set_esr") no_params (value_f64 floats shown)
