-- ===== src/Nets/Dmm.antt =====
-- The operations of src/nets/dmm.rs. `display` is `{}` of a value.
use lager_rs.Prelude.{
  ℕ, Bool, true, false, Option, none, some, ◌++◌, Text, ok, err, str, ok_or, ◌>>=?◌,
}
use lager_rs.Json.{Value, string, object, lookup, as_str, boolean_of, end, insert}
use lager_rs.Error.{Res, decode}
use lager_rs.Wire.Request.{Timeout, after, net_command}
use lager_rs.Wire.Envelope.{CommandResponse}
use lager_rs.Wire.Values.{Floats, as_f64}
use lager_rs.Nets.Ops.{Op, json_f64, insert_some}

pub data DmmFunction : Type 0 where
  dc_volts ac_volts dc_current ac_current resistance four_wire_resistance : DmmFunction
  continuity diode frequency period capacitance temperature : DmmFunction

abbrev pub function_name : DmmFunction → Text
function_name dc_volts = str "dcv"
function_name ac_volts = str "acv"
function_name dc_current = str "dci"
function_name ac_current = str "aci"
function_name resistance = str "res"
function_name four_wire_resistance = str "fres"
function_name continuity = str "cont"
function_name diode = str "diode"
function_name frequency = str "freq"
function_name period = str "period"
function_name capacitance = str "cap"
function_name temperature = str "temp"

pub record DmmOptions : Type 0 where
  pub range : Option ℕ
  pub nplc : Option ℕ
  pub sensor : Option Text

pub record DmmReading : Type 0 where
  pub value : Option ℕ
  pub unit : Text
  pub overload : Bool

abbrev pub budget : Timeout
budget = after 75000

abbrev or_false : Option Bool → Bool
or_false none = false
or_false (some b) = b

unfoldable pub measure_params : DmmFunction → DmmOptions → Value
unfolding insert json_f64
measure_params function opts = object (
    insert_some (str "sensor") (opts.sensor >>=? λ s. some (string s)) (
      insert_some (str "nplc") (opts.nplc >>=? λ n. some (json_f64 n)) (
        insert_some (str "range") (opts.range >>=? λ r. some (json_f64 r))
          (insert (str "function") (string (function_name function)) end))))

module _ (floats : Floats) (display : Value → Text) where
  abbrev read_number : Value → Res (Option ℕ)
  read_number v = elim (as_f64 floats v) [
    | none ↦ err (decode (str "DMM 'value' is not a number: " ++ display v))
    | some f ↦ ok (some f)
  ]

  abbrev pub read_value : Option Value → Bool → Res (Option ℕ)
  read_value o true = ok none
  read_value (some v) false = read_number v
  read_value none false = err (decode (str "DMM response has neither 'value' nor 'overload'"))

  abbrev reading_of : Res Text → Bool → Res (Option ℕ) → Res DmmReading
  reading_of (err e) overload value = err e
  reading_of (ok unit) overload (err e) = err e
  reading_of (ok unit) overload (ok value) =
      ok (record { value = value; unit = unit; overload = overload })

  abbrev pub overload_of : CommandResponse → Bool
  overload_of r = or_false (lookup (str "overload") r.extra >>=? boolean_of)

  unfoldable pub parse_reading : CommandResponse → Res DmmReading
  unfolding lookup as_f64
  parse_reading r =
      reading_of
        (ok_or (decode (str "DMM response missing 'unit'"))
          (lookup (str "unit") r.extra >>=? as_str))
        (overload_of r) (read_value r.value (overload_of r))

  unfoldable pub measure : Text → DmmFunction → DmmOptions → Op DmmReading
  unfolding net_command measure_params parse_reading
  measure name function opts = record {
    req = net_command name (some (str "dmm")) (str "measure") (measure_params function opts) budget;
    parse = parse_reading;
  }
