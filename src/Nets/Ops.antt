-- ===== src/Nets/Ops.antt =====
-- `Op` of wire.rs, and what the operations of src/nets share. Floating-point numbers are their bits.
use lager_rs.Prelude.{
  List, [], ◌∷◌, ℕ, ◌/◌, ◌%◌, ◌^◌, Option, none, some, Text, str, ok, err, ◌==◌, if◌then◌else◌,
}
use lager_rs.Json.{pos_int, array, Items, nil, cons, Value, null, number, float, Fields, insert}
use lager_rs.Error.{Res}
use lager_rs.Wire.Request.{HttpRequest, default, net_command, json}
use lager_rs.Wire.Envelope.{CommandResponse}

pub record Op (T : Type 0) : Type 0 where
  pub req : HttpRequest
  pub parse : CommandResponse → Res T

unfoldable pub unit : CommandResponse → Res Unit
unit r = ok tt

-- `json!` of an `f64`: infinities and NaN, which have all bits of the exponent, become `null`.
unfoldable pub json_f64 : ℕ → Value
json_f64 bits = if (bits / 2 ^ 52) % 2 ^ 11 == 2047 then null else number (float bits)

abbrev pub value_param : ℕ → Value
value_param value = json ((str "value", json_f64 value) ∷ [])

abbrev pub no_params : Value
no_params = json []

-- `net_command` with a role and the default time limit
abbrev pub command : {T : Type 0} → Text → Text → Text → Value → (CommandResponse → Res T) → Op T
command role name action params parse = record {
  req = net_command name (some role) action params default;
  parse = parse;
}

abbrev pub json_int : ℕ → Value
json_int n = number (pos_int n)

abbrev int_items : List ℕ → Items
int_items [] = nil
int_items (n ∷ ns) = cons (json_int n) (int_items ns)

abbrev pub json_ints : List ℕ → Value
json_ints ns = array (int_items ns)

-- The entries of a map whose options are not there are left out.
abbrev pub insert_some : Text → Option Value → Fields → Fields
insert_some key none params = params
insert_some key (some v) params = insert key v params

abbrev pub with_warnings : List Text → Res Value → Res (Value × List Text)
with_warnings ws (err e) = err e
with_warnings ws (ok v) = ok (v, ws)
