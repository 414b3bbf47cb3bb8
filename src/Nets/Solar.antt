-- ===== src/Nets/Solar.antt =====
-- The operations of src/nets/solar.rs.
use lager_rs.Prelude.{ℕ, Option, some, Text, str}
use lager_rs.Json.{Value, insert}
use lager_rs.Error.{Res}
use lager_rs.Wire.Request.{Timeout, after, net_command}
use lager_rs.Wire.Envelope.{CommandResponse}
use lager_rs.Wire.Values.{Floats, value_f64, value_opt_f64}
use lager_rs.Nets.Ops.{Op, unit, json_f64, value_param, no_params}

abbrev pub role : Text
role = str "solar"

abbrev pub mode_timeout : Timeout
mode_timeout = after 120000

abbrev pub read_timeout : Timeout
read_timeout = after 90000

abbrev solar_op : {T : Type 0} → Text → Text → Value → Timeout → (CommandResponse → Res T) → Op T
solar_op name action params timeout parse = record {
  req = net_command name (some role) action params timeout;
  parse = parse;
}

unfoldable pub set : Text → Op Unit
unfolding net_command insert unit
set name = solar_op name (str "set") no_params mode_timeout unit

unfoldable pub stop : Text → Op Unit
unfolding net_command insert unit
stop name = solar_op name (str "stop") no_params mode_timeout unit

module _ (floats : Floats) (shown : Value → Text) where
  unfoldable pub read : Text → Text → Op ℕ
  unfolding net_command insert value_f64
  read name action = solar_op name action no_params read_timeout (value_f64 floats shown)

  unfoldable pub write : Text → Text → ℕ → Op ℕ
  unfolding net_command insert json_f64 value_f64
  write name action value =
      solar_op name action (value_param value) read_timeout (value_f64 floats shown)

  unfoldable pub irradiance : Text → Op ℕ
  unfolding read
  irradiance name = read name (str "irradiance")

  unfoldable pub set_irradiance : Text → ℕ → Op ℕ
  unfolding write
  set_irradiance name value = write name (str "irradiance") value

  unfoldable pub mpp_current : Text → Op ℕ
  unfolding read
  mpp_current name = read name (str "mpp_current")

  unfoldable pub mpp_voltage : Text → Op ℕ
  unfolding read
  mpp_voltage name = read name (str "mpp_voltage")

  unfoldable pub resistance : Text → Op (Option ℕ)
  unfolding net_command insert value_opt_f64
  resistance name =
      solar_op name (str "resistance") no_params read_timeout (value_opt_f64 floats shown)

  unfoldable pub set_resistance : Text → ℕ → Op (Option ℕ)
  unfolding net_command insert json_f64 value_opt_f64
  set_resistance name ohms =
      solar_op name (str "resistance") (value_param ohms) read_timeout (value_opt_f64 floats shown)

  unfoldable pub temperature : Text → Op ℕ
  unfolding read
  temperature name = read name (str "temperature")

  unfoldable pub voc : Text → Op ℕ
  unfolding read
  voc name = read name (str "voc")
