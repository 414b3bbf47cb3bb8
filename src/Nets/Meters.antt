-- ===== src/Nets/Meters.antt =====
-- The operations of src/nets/watt.rs, src/nets/energy.rs and src/nets/thermocouple.rs. `budget` gives
-- the milliseconds that the code waits for a reading of that duration, which is floating-point
-- arithmetic, and none where the code stops because they are no duration.
use lager_rs.Prelude.{ℕ, Option, some, [], ◌∷◌, Text, str, ◌>>=?◌}
use lager_rs.Json.{Value, insert}
use lager_rs.Error.{Res}
use lager_rs.Wire.Request.{after, net_command, json}
use lager_rs.Wire.Envelope.{CommandResponse, value_of}
use lager_rs.Wire.Values.{Floats, value_f64}
use lager_rs.Nets.Ops.{Op, json_f64, no_params, command}

module _ (budget : ℕ → Option ℕ) where
  abbrev timed : {T : Type 0} → Text → Text → Text → ℕ → (CommandResponse → Res T) → Option (Op T)
  timed role name action duration parse = budget duration >>=? λ ms. some (record {
    req =
        net_command name (some role) action (json ((str "duration", json_f64 duration) ∷ []))
          (after ms);
    parse = parse;
  })

  -- Up to the typed decoding of the readings
  unfoldable pub read_energy : Text → ℕ → Option (Op Value)
  unfolding net_command insert json_f64 value_of
  read_energy name duration =
      timed (str "energy-analyzer") name (str "read_energy") duration value_of

  unfoldable pub read_stats : Text → ℕ → Option (Op Value)
  unfolding net_command insert json_f64 value_of
  read_stats name duration = timed (str "energy-analyzer") name (str "read_stats") duration value_of

  unfoldable pub watt_all : Text → ℕ → Option (Op Value)
  unfolding net_command insert json_f64 value_of
  watt_all name duration = timed (str "watt-meter") name (str "all") duration value_of

  module _ (floats : Floats) (shown : Value → Text) where
    unfoldable pub scalar : Text → Text → ℕ → Option (Op ℕ)
    unfolding net_command insert json_f64 value_f64
    scalar name action duration =
        timed (str "watt-meter") name action duration (value_f64 floats shown)

    unfoldable pub watt_power : Text → ℕ → Option (Op ℕ)
    unfolding scalar
    watt_power name duration = scalar name (str "power") duration

    unfoldable pub watt_current : Text → ℕ → Option (Op ℕ)
    unfolding scalar
    watt_current name duration = scalar name (str "current") duration

    unfoldable pub watt_voltage : Text → ℕ → Option (Op ℕ)
    unfolding scalar
    watt_voltage name duration = scalar name (str "voltage") duration

module _ (floats : Floats) (shown : Value → Text) where
  unfoldable pub thermocouple_read : Text → Op ℕ
  unfolding net_command insert value_f64
  thermocouple_read name =
      command (str "thermocouple") name (str "read") no_params (value_f64 floats shown)
