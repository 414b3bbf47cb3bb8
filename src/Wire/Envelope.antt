-- ===== src/Wire/Envelope.antt =====
-- The response envelope of wire.rs. `CommandResponse` is read as its derived decoder does: a field
-- that is missing has its default, and `null` is `None`. What serde says of a value that does not
-- fit is the parameter `problem`.
pub mod Commands
pub mod Failures
use lager_rs.Prelude.{
  ℕ, Bool, true, false, not, ◌&&◌, ◌||◌, Option, none, some, List, [], ◌∷◌, ◌++◌, Text, Result, ok,
  err, str, decimal, text_eq, any, ◌==◌, if◌then◌else◌, ◌>>=?◌,
}
use lager_rs.Json.{
  Value, null, boolean, string, object, array, Fields, end, field, lookup, as_object, as_str,
  as_array,
}
use lager_rs.Error.{Error, Res, box, decode, unsupported_by_box}

pub record CommandResponse : Type 0 where
  pub success : Bool
  pub action : Option Text
  pub message : Option Text
  pub value : Option Value
  pub state : Option Value
  pub error : Option Text
  pub extra : Fields

-- `#[serde(default)]` on a `bool`: none when the value does not fit.
abbrev pub bool_field : Option Value → Option Bool
bool_field none = some false
bool_field (some (boolean b)) = some b
bool_field (some _) = none

-- On an `Option<String>`
abbrev pub text_field : Option Value → Option (Option Text)
text_field none = some none
text_field (some null) = some none
text_field (some (string s)) = some (some s)
text_field (some _) = none

-- On an `Option<Value>`
abbrev pub value_field : Option Value → Option Value
value_field (some null) = none
value_field o = o

abbrev pub envelope_keys : List Text
envelope_keys =
    str "success" ∷ str "action" ∷ str "message" ∷ str "value" ∷ str "state" ∷ str "error" ∷ []

-- `#[serde(flatten)]`: what the other fields do not take
abbrev pub extra_fields : List Text → Fields → Fields
extra_fields keys end = end
extra_fields keys (field k v m) =
    let rest = extra_fields keys m in if any (text_eq k) keys then rest else field k v rest

abbrev pub read_fields : Fields → Option CommandResponse
read_fields m = bool_field (lookup (str "success") m) >>=? λ success.
    text_field (lookup (str "action") m) >>=? λ action.
    text_field (lookup (str "message") m) >>=? λ message.
    text_field (lookup (str "error") m) >>=? λ error. some (record {
      success = success;
      action = action;
      message = message;
      value = value_field (lookup (str "value") m);
      state = value_field (lookup (str "state") m);
      error = error;
      extra = extra_fields envelope_keys m;
    })

unfoldable pub read_envelope : Value → Option CommandResponse
unfolding lookup
read_envelope body = as_object body >>=? read_fields

abbrev pub first_of : Option Text → Option Text → Text → Text
first_of (some a) b c = a
first_of none (some b) c = b
first_of none none c = c

unfoldable pub failure : ℕ → CommandResponse → Error
failure status r =
    let message = first_of r.error r.message (str "HTTP " ++ decimal status) in
    if status == 501 then unsupported_by_box message else box status message

abbrev pub judge_response : ℕ → CommandResponse → Res CommandResponse
judge_response status r = if status == 200 && r.success then ok r else err (failure status r)

module _ (problem : Value → Text) where
  unfoldable pub parse_command : ℕ → Value → Res CommandResponse
  unfolding read_envelope failure
  parse_command status body = elim (read_envelope body) [
    | none ↦ err (decode (str "invalid response envelope: " ++ problem body))
    | some r ↦ judge_response status r
  ]

-- `value_as` and `state_as`, up to the typed decoding
unfoldable pub value_of : CommandResponse → Res Value
value_of r = elim r.value [
  | none ↦ err (decode (str "response has no 'value' field"))
  | some v ↦ ok v
]

unfoldable pub state_of : CommandResponse → Res Value
state_of r = elim r.state [
  | none ↦ err (decode (str "response has no 'state' field"))
  | some v ↦ ok v
]

abbrev pub texts_of : (Value → Text) → List Value → List Text
texts_of show [] = []
texts_of show (string s ∷ vs) = s ∷ texts_of show vs
texts_of show (v ∷ vs) = show v ∷ texts_of show vs

abbrev pub list_or_empty : (Value → Text) → Option Value → List Text
list_or_empty show none = []
list_or_empty show (some v) = elim (as_array v) [ none ↦ [] | some vs ↦ texts_of show vs ]

-- `show` prints a JSON value.
unfoldable pub warnings : (Value → Text) → CommandResponse → List Text
unfolding lookup
warnings show r = list_or_empty show (lookup (str "warnings") r.extra)
