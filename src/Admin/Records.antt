-- ===== src/Admin/Records.antt =====
-- What admin.rs sends: `NetRecord` of wire.rs with its builders, `NetMetadataUpdate` and `CableId`.
-- `float_value` is the library's conversion of a float.
use lager_rs.Prelude.{ℕ, Option, none, some, List, [], ◌∷◌, Text, str}
use lager_rs.Json.{
  Value, object, array, string, null, Items, nil, cons, Fields, end, insert, remove,
}
use lager_rs.Wire.Request.{SafetyLimits, limits_value}
use lager_rs.DebugNet.{extend, set_some}

pub record NetRecord : Type 0 where
  pub name : Text
  pub role : Text
  pub instrument : Option Text
  pub pin : Option Value
  pub channel : Option Value
  pub address : Option Text
  pub params : Option Fields
  pub safety_limits : Option SafetyLimits
  pub extra : Fields

unfoldable pub new : Text → Text → Text → NetRecord
new name role instrument = record {
  name = name;
  role = role;
  instrument = some instrument;
  pin = none;
  channel = none;
  address = none;
  params = none;
  safety_limits = none;
  extra = end;
}

unfoldable pub with_pin : Value → NetRecord → NetRecord
with_pin pin r = record r { pin = some pin }

unfoldable pub with_address : Text → NetRecord → NetRecord
with_address address r = record r { address = some address }

abbrev pub or_empty : Option Fields → Fields
or_empty none = end
or_empty (some m) = m

unfoldable pub with_param : Text → Value → NetRecord → NetRecord
unfolding insert
with_param key value r = record r { params = some (insert key value (or_empty r.params)) }

unfoldable pub with_field : Text → Value → NetRecord → NetRecord
unfolding insert
with_field key value r = record r { extra = insert key value r.extra }

-- The fields that `NetRecord` names, as they are serialized: one that is not set is left out.
abbrev pub named_fields : (ℕ → Value) → NetRecord → Fields
named_fields float_value r =
    set_some (str "safety_limits") (limits_value float_value) r.safety_limits (
      set_some (str "params") object r.params (
        set_some (str "address") string r.address (
          set_some (str "channel") (λ v. v) r.channel
            (set_some (str "pin") (λ v. v) r.pin
              (set_some (str "instrument") string r.instrument
                (insert (str "role") (string r.role) (insert (str "name") (string r.name) end)))))))

-- `record_body`, where a record always has a JSON form
unfoldable pub record_body : (ℕ → Value) → NetRecord → Value
unfolding extend remove limits_value insert
record_body float_value r =
    object (remove (str "live_path") (extend r.extra (named_fields float_value r)))

pub record NetMetadataUpdate : Type 0 where
  pub fields : Fields
  pub timestamps : Fields

unfoldable pub new_update : NetMetadataUpdate
new_update = record { fields = end; timestamps = end }

unfoldable pub set : Text → Value → NetMetadataUpdate → NetMetadataUpdate
unfolding insert
set key value u = record u { fields = insert key value u.fields }

abbrev pub texts : List Text → Items
texts [] = nil
texts (t ∷ ts) = cons (string t) (texts ts)

abbrev pub list_value : List Text → Value
list_value items = array (texts items)

unfoldable pub set_purpose : Text → NetMetadataUpdate → NetMetadataUpdate
unfolding set
set_purpose purpose u = set (str "purpose") (string purpose) u

unfoldable pub set_notes : Text → NetMetadataUpdate → NetMetadataUpdate
unfolding set
set_notes notes u = set (str "notes") (string notes) u

unfoldable pub set_dut_connection : Text → NetMetadataUpdate → NetMetadataUpdate
unfolding set
set_dut_connection connection u = set (str "dut_connection") (string connection) u

unfoldable pub set_tags : List Text → NetMetadataUpdate → NetMetadataUpdate
unfolding set
set_tags tags u = set (str "tags") (list_value tags) u

unfoldable pub set_test_hints : List Text → NetMetadataUpdate → NetMetadataUpdate
unfolding set
set_test_hints hints u = set (str "test_hints") (list_value hints) u

unfoldable pub clear : Text → NetMetadataUpdate → NetMetadataUpdate
unfolding set
clear field u = set field null u

unfoldable pub timestamp : Text → Text → NetMetadataUpdate → NetMetadataUpdate
unfolding insert
timestamp field iso8601 u = record u { timestamps = insert field (string iso8601) u.timestamps }

abbrev pub timestamps_entry : Fields → Fields → Fields
timestamps_entry end body = body
timestamps_entry entries body = insert (str "timestamps") (object entries) body

unfoldable pub update_body : NetMetadataUpdate → Value
unfolding insert
update_body u = object (timestamps_entry u.timestamps (insert (str "fields") (object u.fields) end))

pub data CableId : Type 0 where
  serial_number port_path : Text → CableId

abbrev pub serial_of : CableId → Value
serial_of (serial_number s) = string s
serial_of (port_path p) = null

abbrev pub port_path_of : CableId → Value
port_path_of (serial_number s) = null
port_path_of (port_path p) = string p

unfoldable pub cable_body : CableId → Fields
unfolding insert
cable_body cable =
    insert (str "port_path") (port_path_of cable) (insert (str "serial") (serial_of cable) end)
