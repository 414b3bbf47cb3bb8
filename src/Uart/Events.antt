-- ===== src/Uart/Events.antt =====
-- The events of a UART session, and how `connect` makes them of the box's messages.
use lager_rs.Prelude.{
  ℕ, Bool, false, ◌||◌, Option, none, some, Bytes, Text, str, text_eq, contains, if◌then◌else◌,
  ◌>>=?◌,
}
use lager_rs.Json.{Value, number, pos_int, lookup, get, as_str}
use lager_rs.Error.{Error, stream, uart_in_use}
use lager_rs.Sio.Hex.{panics, decoded, hex_decode}

pub data UartEvent : Type 0 where
  -- `device_path` and `baudrate`
  connected : Text → ℕ → UartEvent
  received : Bytes → UartEvent
  status : Text → UartEvent
  failed : Error → UartEvent
  stopped : UartEvent

abbrev pub text_at : Text → Option Value → Option Text
text_at k payload = payload >>=? get k >>=? as_str

abbrev pub or_text : Text → Option Text → Text
or_text t none = t
or_text t (some s) = s

abbrev pub is_text : Option Text → Text → Bool
is_text none t = false
is_text (some s) t = text_eq s t

unfoldable pub session_error : Option Value → Error
unfolding lookup contains
session_error payload =
    let message = or_text (str "unknown UART error") (text_at (str "message") payload) in
    if is_text (text_at (str "code") payload) (str "net_in_use")
      || contains (str "already in use") message
    then uart_in_use message (text_at (str "held_by") payload)
    else stream message

-- `Value::as_u64`
abbrev pub as_u64 : Option Value → ℕ
as_u64 (some (number (pos_int n))) = n
as_u64 _ = 0

-- The handlers, from a message's first JSON value on.
unfoldable pub on_connected : Option Value → UartEvent
unfolding lookup
on_connected payload =
    connected (or_text (str "") (text_at (str "device_path") payload))
      (as_u64 (payload >>=? get (str "baudrate")))

-- Data that is no hex makes no event. The outer `none` is a panic of the handler.
unfoldable pub on_data : Option Value → Option (Option UartEvent)
unfolding lookup hex_decode
on_data payload = elim (text_at (str "data") payload) [
  | none ↦ some none
  | some text ↦ elim (hex_decode text) [
    | panics ↦ none
    | decoded none ↦ some none
    | decoded (some bytes) ↦ some (some (received bytes))
  ]
]

unfoldable pub on_status : Option Value → Option UartEvent
unfolding lookup
on_status payload = elim (text_at (str "status") payload) [ none ↦ none | some s ↦ some (status s) ]

unfoldable pub on_error : Option Value → UartEvent
unfolding session_error
on_error payload = failed (session_error payload)
