-- ===== src/Nets/Gpio.antt =====
-- The operations of src/nets/gpio.rs. `widened` gives the milliseconds of a wait and 20 seconds, and
-- none where the code stops because they are no duration.
use lager_rs.Prelude.{
  ℕ, Bool, true, false, Option, none, some, [], ◌∷◌, Text, ok, err, str, ℤ, pos, negsuc, ◌==◌,
  ◌>>=?◌, if◌then◌else◌,
}
use lager_rs.Json.{Value, string, number, pos_int, object, end, insert}
use lager_rs.Error.{Res}
use lager_rs.Wire.Request.{Timeout, after, unbounded, net_command, json}
use lager_rs.Wire.Envelope.{CommandResponse}
use lager_rs.Wire.Values.{Floats, value_f64, value_i64}
use lager_rs.Nets.Ops.{Op, unit, json_f64, no_params, command, insert_some}

pub data Level : Type 0 where
  high low : Level

abbrev pub level_text : Level → Text
level_text high = str "high"
level_text low = str "low"

abbrev pub is_high : Level → Bool
is_high high = true
is_high low = false

pub record WaitForLevelOptions : Type 0 where
  pub timeout : Option ℕ
  pub scan_rate : Option ℕ
  pub scans_per_read : Option ℕ
  pub poll_interval : Option ℕ

abbrev pub role : Text
role = str "gpio"

abbrev pub integer_level : ℤ → Level
integer_level (pos n) = if n == 0 then low else high
integer_level (negsuc n) = high

abbrev to_level : Res ℤ → Res Level
to_level (err e) = err e
to_level (ok z) = ok (integer_level z)

abbrev level_param : Text → Value
level_param level = json ((str "level", string level) ∷ [])

unfoldable pub output : Text → Level → Op Unit
unfolding net_command insert unit
output name level = command role name (str "output") (level_param (level_text level)) unit

unfoldable pub output_high : Text → Op Unit
unfolding net_command insert unit
output_high name = command role name (str "output_high") no_params unit

unfoldable pub output_low : Text → Op Unit
unfolding net_command insert unit
output_low name = command role name (str "output_low") no_params unit

abbrev json_u32 : ℕ → Value
json_u32 n = number (pos_int n)

unfoldable pub wait_params : Level → WaitForLevelOptions → Value
unfolding insert json_f64
wait_params level opts = object (
    insert_some (str "poll_interval") (opts.poll_interval >>=? λ p. some (json_f64 p)) (
      insert_some (str "scans_per_read") (opts.scans_per_read >>=? λ n. some (json_u32 n)) (
        insert_some (str "scan_rate") (opts.scan_rate >>=? λ n. some (json_u32 n)) (
          insert_some (str "timeout") (opts.timeout >>=? λ t. some (json_f64 t))
            (insert (str "level") (string (level_text level)) end)))))

module _ (floats : Floats) (shown : Value → Text) where
  unfoldable pub parse_level : CommandResponse → Res Level
  unfolding value_i64
  parse_level r = to_level (value_i64 floats shown r)

  unfoldable pub input : Text → Op Level
  unfolding net_command insert parse_level
  input name = command role name (str "input") no_params parse_level

  unfoldable pub toggle : Text → Op Level
  unfolding net_command insert parse_level
  toggle name = command role name (str "output") (level_param (str "toggle")) parse_level

  module _ (widened : ℕ → Option ℕ) where
    abbrev wait_timeout : Option ℕ → Option Timeout
    wait_timeout none = some unbounded
    wait_timeout (some t) = widened t >>=? λ ms. some (after ms)

    unfoldable pub wait_for_level_with : Text → Level → WaitForLevelOptions → Option (Op ℕ)
    unfolding net_command insert wait_params value_f64
    wait_for_level_with name level opts = wait_timeout opts.timeout >>=? λ limit. some (record {
      req = net_command name (some role) (str "wait_for_level") (wait_params level opts) limit;
      parse = value_f64 floats shown;
    })

    unfoldable pub wait_for_level : Text → Level → ℕ → Option (Op ℕ)
    unfolding wait_for_level_with
    wait_for_level name level timeout_s = wait_for_level_with name level (record {
      timeout = some timeout_s;
      scan_rate = none;
      scans_per_read = none;
      poll_interval = none;
    })
