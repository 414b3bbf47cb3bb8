-- ===== src/Nets/Analog.antt =====
-- The operations of src/nets/dac.rs and src/nets/adc.rs.
use lager_rs.Prelude.{ℕ, Text, str}
use lager_rs.Json.{Value, insert}
use lager_rs.Wire.Request.{net_command}
use lager_rs.Wire.Values.{Floats, value_f64}
use lager_rs.Nets.Ops.{Op, unit, json_f64, value_param, no_params, command}

unfoldable pub dac_set : Text → ℕ → Op Unit
unfolding net_command insert json_f64 unit
dac_set name volts = command (str "dac") name (str "set") (value_param volts) unit

module _ (floats : Floats) (shown : Value → Text) where
  unfoldable pub dac_read : Text → Op ℕ
  unfolding net_command insert value_f64
  dac_read name = command (str "dac") name (str "read") no_params (value_f64 floats shown)

  unfoldable pub adc_read : Text → Op ℕ
  unfolding net_command insert value_f64
  adc_read name = command (str "adc") name (str "read") no_params (value_f64 floats shown)
