-- ===== src/Nets/I2c.antt =====
-- The operations of src/nets/i2c.rs. `shown` is `{:?}` of a value, `display` is `{}` of it.
pub mod Bytes
use lager_rs.Prelude.{
  ℕ, ◌-◌, ◌^◌, Bool, Option, none, some, List, [], ◌∷◌, ◌++◌, Text, Result, ok, err, str, ℤ, pos,
  negsuc, leb, ok_or, ◌>>=?◌, if◌then◌else◌,
}
use lager_rs.Json.{Value, boolean, object, as_array, end, insert}
use lager_rs.Error.{Res, decode}
use lager_rs.Wire.Request.{default, net_command, json}
use lager_rs.Wire.Envelope.{CommandResponse, value_of, warnings}
use lager_rs.Wire.Values.{Floats, as_i64, prepend, shown_option}
use lager_rs.Nets.Ops.{
  Op, unit, no_params, command, insert_some, json_int, json_ints, with_warnings,
}

abbrev pub role : Text
role = str "i2c"

-- `try_from` into an unsigned integer of at most `top`
abbrev pub to_bounded : ℕ → ℤ → Option ℕ
to_bounded top (pos n) = if leb n top then some n else none
to_bounded top (negsuc n) = none

abbrev pub u8_max : ℕ
u8_max = 2 ^ 8 - 1

abbrev pub u16_max : ℕ
u16_max = 2 ^ 16 - 1

abbrev address_data : ℕ → List ℕ → List (Text × Value)
address_data address bytes = (str "address", json_int address) ∷ (str "data", json_ints bytes) ∷ []

module _ (floats : Floats) (shown display : Value → Text) where
  -- Up to the typed decoding of the configuration
  unfoldable pub parse_config : CommandResponse → Res (Value × List Text)
  unfolding warnings value_of
  parse_config r = with_warnings (warnings display r) (value_of r)

  abbrev pub element : ℕ → Text → Value → Res ℕ
  element top what v = ok_or (decode (what ++ shown v)) (as_i64 floats v >>=? to_bounded top)

  abbrev pub elements : ℕ → Text → List Value → Res (List ℕ)
  elements top what [] = ok []
  elements top what (v ∷ vs) =
      let rest = elements top what vs in
      elim (element top what v) [ err e ↦ err e | ok n ↦ prepend n rest ]

  abbrev pub parse_elements : ℕ → Text → Text → CommandResponse → Res (List ℕ)
  parse_elements top no_list what r = elim (r.value >>=? as_array) [
    | none ↦ err (decode (no_list ++ shown_option shown r.value))
    | some vs ↦ elements top what vs
  ]

  unfoldable pub parse_bytes : CommandResponse → Res (List ℕ)
  unfolding as_i64
  parse_bytes r =
      parse_elements u8_max (str "expected byte list, got ") (str "non-byte element: ") r

  unfoldable pub parse_addresses : CommandResponse → Res (List ℕ)
  unfolding as_i64
  parse_addresses r =
      parse_elements u16_max (str "expected address list, got ") (str "non-address element: ") r

  unfoldable pub configure : Text → Option ℕ → Option Bool → Op (Value × List Text)
  unfolding net_command insert parse_config
  configure name frequency_hz pull_ups =
      command role name (str "config")
        (object (
          insert_some (str "pull_ups") (pull_ups >>=? λ p. some (boolean p))
            (insert_some (str "frequency_hz") (frequency_hz >>=? λ f. some (json_int f)) end)))
        parse_config

  unfoldable pub scan : Text → Op (List ℕ)
  unfolding net_command insert parse_addresses
  scan name = command role name (str "scan") no_params parse_addresses

  unfoldable pub scan_range : Text → ℕ → ℕ → Op (List ℕ)
  unfolding net_command insert parse_addresses
  scan_range name start_addr end_addr =
      command role name (str "scan")
        (json ((str "start_addr", json_int start_addr) ∷ (str "end_addr", json_int end_addr) ∷ []))
        parse_addresses

  unfoldable pub read : Text → ℕ → ℕ → Op (List ℕ)
  unfolding net_command insert parse_bytes
  read name address num_bytes =
      command role name (str "read")
        (json ((str "address", json_int address) ∷ (str "num_bytes", json_int num_bytes) ∷ []))
        parse_bytes

  unfoldable pub write_read : Text → ℕ → List ℕ → ℕ → Op (List ℕ)
  unfolding net_command insert parse_bytes
  write_read name address bytes num_bytes =
      command role name (str "transfer")
        (json (address_data address bytes ++ (str "num_bytes", json_int num_bytes) ∷ []))
        parse_bytes

unfoldable pub write : Text → ℕ → List ℕ → Op Unit
unfolding net_command insert unit
write name address bytes = command role name (str "write") (json (address_data address bytes)) unit
