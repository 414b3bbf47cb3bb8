-- ===== src/Wire/Dfu.antt =====
-- The answers of `POST /usb/dfu` and of `GET /usb/devices` in wire.rs, and fields of the envelope
-- beside `value` and `state`.
use lager_rs.Prelude.{
  ℕ, List, ◌∷◌, Bool, true, false, ◌&&◌, Option, none, some, [], ◌++◌, Text, ok, err, str, ℤ, ok_or,
  ◌==◌, ◌>>=?◌, if◌then◌else◌,
}
use lager_rs.Json.{object, array, items_list, Value, string, lookup, boolean_of, get}
use lager_rs.Error.{Res, decode, dfu_failed}
use lager_rs.Wire.Compat.{usb_devices_unsupported}
use lager_rs.Wire.Envelope.{CommandResponse, parse_command}
use lager_rs.Wire.Values.{Floats, as_i64}

pub record DfuOutput : Type 0 where
  pub exit_code : Option ℤ
  pub stdout : Text
  pub stderr : Text

-- `#[serde(default)]` on a `String`: none when the value is no string.
abbrev pub string_field : Option Value → Option Text
string_field none = some []
string_field (some (string s)) = some s
string_field (some _) = none

abbrev pub is_true : Option Bool → Bool
is_true (some true) = true
is_true _ = false

-- `extra_as`, up to the typed decoding
unfoldable pub extra_of : Text → CommandResponse → Res Value
unfolding lookup
extra_of key r =
    ok_or (decode (str "response has no '" ++ (key ++ str "' field"))) (lookup key r.extra)

module _ (problem : Value → Text) where
  abbrev pub devices_of : CommandResponse → Res Value
  devices_of r =
      ok_or (decode (str "response has no 'devices' list")) (lookup (str "devices") r.extra)

  abbrev pub then_devices : Res CommandResponse → Res Value
  then_devices (err e) = err e
  then_devices (ok r) = devices_of r

  -- `parse_usb_devices`, up to the typed decoding
  unfoldable pub parse_usb_devices : ℕ → Value → Res Value
  unfolding parse_command lookup
  parse_usb_devices status body =
      if status == 404
      then err usb_devices_unsupported
      else then_devices (parse_command problem status body)

  module _ (floats : Floats) where
    abbrev pub output_items : Option Value → Option Text → Option Text → Option DfuOutput
    output_items code stdout stderr = stdout >>=? λ out. stderr >>=? λ errors.
        some (record { exit_code = code >>=? as_i64 floats; stdout = out; stderr = errors })

    -- A struct is also read from an array, in the order of its fields.
    abbrev pub output_list : List Value → Option DfuOutput
    output_list [] = output_items none (some []) (some [])
    output_list (code ∷ []) = output_items (some code) (some []) (some [])
    output_list (code ∷ out ∷ []) = output_items (some code) (string_field (some out)) (some [])
    output_list (code ∷ out ∷ errors ∷ []) =
        output_items (some code) (string_field (some out)) (string_field (some errors))
    output_list (code ∷ out ∷ errors ∷ v ∷ vs) = none

    abbrev pub as_output : Value → Option DfuOutput
    as_output (object m) =
        output_items (lookup (str "exit_code") m) (string_field (lookup (str "stdout") m))
          (string_field (lookup (str "stderr") m))
    as_output (array vs) = output_list (items_list vs)
    as_output _ = none

    -- The output of a run that came to an end.
    abbrev pub ended : DfuOutput → Option DfuOutput
    ended o = elim o.exit_code [ none ↦ none | some code ↦ some o ]

    unfoldable pub run_output : Value → Option DfuOutput
    unfolding lookup as_i64
    run_output body = get (str "value") body >>=? as_output >>=? ended

    unfoldable pub parse_dfu : ℕ → Value → Res CommandResponse
    unfolding parse_command run_output lookup
    parse_dfu status body =
        let judged = parse_command problem status body in
        if status == 200 && is_true (get (str "success") body >>=? boolean_of)
        then judged
        else elim (run_output body) [
          | none ↦ judged
          | some o ↦ err (dfu_failed status o.exit_code o.stdout o.stderr)
        ]
