-- ===== src/Wire/Debug.antt =====
-- The answers of the debug service, and of the endpoints without an envelope, in wire.rs.
pub mod Errors
use lager_rs.Prelude.{
  ℕ, Bool, true, false, not, ◌&&◌, ◌||◌, Option, none, some, List, [], ◌∷◌, ◌++◌, Bytes, Text,
  Result, ok, err, str, text_eq, any, contains, is_some, ok_or, ◌==◌, if◌then◌else◌, ◌>>=?◌, ◌>>=◌,
}
use lager_rs.Json.{
  Value, null, boolean, string, object, array, Fields, lookup, remove, as_object, as_str, as_array,
  boolean_of, get, nil, Items, items_list,
}
use lager_rs.Error.{
  Error, Res, box, decode, probe_busy, safety_refused, unsupported_by_box, flash_failed,
}
use lager_rs.Codec.Hex.{hex_decode}

abbrev pub or_text : Option Text → Text → Text
or_text none t = t
or_text (some s) t = s

abbrev pub text_at : Text → Value → Option Text
text_at k body = get k body >>=? as_str

abbrev pub first_some : Option Text → Option Text → Option Text
first_some (some a) b = some a
first_some none b = b

abbrev pub debug_message : Value → Text
debug_message body =
    or_text (first_some (text_at (str "error") body) (text_at (str "message") body))
      (str "debug service request failed")

unfoldable pub debug_failure : ℕ → Text → Error
unfolding contains
debug_failure status message =
    if status == 503 && contains (str "busy") message
    then probe_busy message
    else if status == 403
    then safety_refused message
    else box status message

unfoldable pub parse_debug : ℕ → Value → Res Value
unfolding debug_failure lookup
parse_debug status body =
    if status == 200 then ok body else err (debug_failure status (debug_message body))

-- `DebugHealth`, and `supports`
pub record DebugHealth : Type 0 where
  pub status : Text
  pub version : Option Text
  pub features : List Text

unfoldable pub supports : DebugHealth → Text → Bool
supports h feature = any (λ f. text_eq f feature) h.features

abbrev pub judge_feature : Text → Text → DebugHealth → Res (Unit {0})
judge_feature feature since h =
    if supports h feature
    then ok tt
    else err (
        unsupported_by_box (
          str "the box debug service does not support '"
          ++ (feature ++ (str "' (box software " ++ (since ++ str ")")))))

-- `read_health` is serde's decoding of a health record.
unfoldable pub require_debug_feature :
    (Value → Res DebugHealth) → ℕ → Value → Text → Text → Res (Unit {0})
unfolding parse_debug supports
require_debug_feature read_health status body feature since = do
  answer ← parse_debug status body
  health ← read_health answer
  judge_feature feature since health

pub record FlashReport : Type 0 where
  pub output : List Text
  pub backend : Option Text
  pub programmed : Option Bool

abbrev pub shown_items : (Value → Text) → List Value → List Text
shown_items show [] = []
shown_items show (string s ∷ vs) = s ∷ shown_items show vs
shown_items show (v ∷ vs) = show v ∷ shown_items show vs

-- `show` prints a JSON value, and `lines` cuts a text at its line breaks.
abbrev pub lines_of : (Value → Text) → (Text → List Text) → Option Value → List Text
lines_of show lines (some (array vs)) = shown_items show (items_list vs)
lines_of show lines (some (string s)) = lines s
lines_of show lines _ = []

unfoldable pub output_lines : (Value → Text) → (Text → List Text) → Value → List Text
unfolding lookup
output_lines show lines body = lines_of show lines (get (str "output") body)

abbrev pub is_false : Option Bool → Bool
is_false (some false) = true
is_false _ = false

unfoldable pub parse_flash : (Value → Text) → (Text → List Text) → Value → Res FlashReport
unfolding output_lines lookup
parse_flash show lines body =
    let output = output_lines show lines body in
    let programmed = get (str "programmed") body >>=? boolean_of in
    if is_false programmed
    then err (
        flash_failed
          (or_text (text_at (str "error") body)
            (str "the probe reported that nothing was programmed"))
          output)
    else ok (record {
      output = output;
      backend = text_at (str "backend") body;
      programmed = programmed;
    })

unfoldable pub debug_memory_bytes : Value → Res Bytes
unfolding lookup hex_decode
debug_memory_bytes body = do
  hex ← ok_or (decode (str "memrd response missing 'data'")) (text_at (str "data") body)
  hex_decode hex

-- `body_error`, and the refusals that are written out in the other parsers
unfoldable pub body_error : ℕ → Value → Text → Error
unfolding lookup
body_error status body fallback = box status (or_text (text_at (str "error") body) fallback)

module _ {A : Type 0} (read : Value → Res A) where
  unfoldable pub parse_lock : ℕ → Value → Res A
  unfolding body_error
  parse_lock status body =
      if status == 200 then read body else err (body_error status body (str "lock request failed"))

  unfoldable pub parse_nets_state : ℕ → Value → Res A
  unfolding body_error
  parse_nets_state status body =
      if status == 200
      then read body
      else err (body_error status body (str "nets/state request failed"))

  abbrev pub member : Text → Value → Value
  member k body = elim (get k body) [ none ↦ null | some v ↦ v ]

  unfoldable pub parse_uart_sessions : ℕ → Value → Res A
  unfolding body_error lookup
  parse_uart_sessions status body =
      if status == 200
      then read (member (str "sessions") body)
      else err (body_error status body (str "uart/sessions request failed"))

  unfoldable pub parse_release_uart_session : ℕ → Value → Res A
  unfolding body_error lookup
  parse_release_uart_session status body =
      if status == 200
      then read (member (str "released") body)
      else err (body_error status body (str "uart session release failed"))

  abbrev some_limits : Res A → Res (Option A)
  some_limits (ok l) = ok (some l)
  some_limits (err e) = err e

  abbrev pub limits_in : Option Value → Res (Option A)
  limits_in none = ok none
  limits_in (some null) = ok none
  limits_in (some v) = some_limits (read v)

  unfoldable pub parse_safety_limits : ℕ → Value → Res (Option A)
  unfolding body_error lookup
  parse_safety_limits status body =
      if status == 200
      then limits_in (get (str "safety_limits") body)
      else err (body_error status body (str "safety-limits request failed"))

abbrev no_items : Option Value → List Value
no_items (some (array vs)) = items_list vs
no_items _ = []

-- `nets_list_values`
unfoldable pub nets_list_values : Value → List Value
unfolding lookup
nets_list_values (array vs) = items_list vs
nets_list_values (object m) = no_items (lookup (str "nets") m)
nets_list_values _ = []
