-- ===== src/ScopeTrace/Commands.antt =====
-- The commands of nets/scope_trace.rs on its socket: `reply`, `capture`, `next_capture` and `stream`.
use lager_rs.Prelude.{
  ℕ, ◌+◌, Bool, false, Option, none, some, [], ◌∷◌, ◌++◌, Text, Result, ok, err, str, text_eq, ◌==◌,
  ◌>>=?◌, if◌then◌else◌,
}
use lager_rs.Json.{Value, string, number, pos_int, lookup, get, as_str}
use lager_rs.Error.{Error, Res, decode, stream}
use lager_rs.Wire.Request.{json}
use lager_rs.ScopeTrace.Capture.{ScopeCapture, decode_frame, peek_seq}
use lager_rs.ScopeTrace.Socket.{Message, Socket, each_message, send, close, binary, text}

abbrev pub is_text : Option Text → Text → Bool
is_text none t = false
is_text (some s) t = text_eq s t

abbrev pub or_text : Text → Option Text → Text
or_text t none = t
or_text t (some s) = s

abbrev pub or_value : Value → Option Value → Value
or_value v none = v
or_value v (some w) = w

abbrev pub text_at : Text → Value → Option Text
text_at k v = get k v >>=? as_str

unfoldable pub judge_reply : Value → Res Value
unfolding lookup
judge_reply reply =
    if is_text (text_at (str "response") reply) (str "Error")
    then err (
        stream (
          str "scope daemon: "
          ++ or_text (str "unknown daemon error") (text_at (str "message") reply)))
    else ok reply

-- `Value::as_u64`
abbrev pub u64_of : Value → Option ℕ
u64_of (number (pos_int n)) = some n
u64_of _ = none

abbrev pub get_triggered_data : Value
get_triggered_data = json ((str "command", string (str "GetTriggeredData")) ∷ [])

abbrev pub credit : Value
credit = json ((str "command", string (str "Credit")) ∷ (str "count", number (pos_int 1)) ∷ [])

abbrev pub stream_credits : ℕ
stream_credits = 4

abbrev pub subscribe_command : Value
subscribe_command = json (
    (str "command", string (str "Subscribe"))
    ∷ (str "credits", number (pos_int stream_credits))
    ∷ [])

-- The result of a capture, where `none` is a panic.
abbrev pub Captured : Type 0
Captured = Option (Res ScopeCapture)

abbrev pub failed : Error → Captured
failed e = some (err e)

abbrev pub notice : Res Value → Option Captured
notice (err e) = some (failed e)
notice (ok v) = none

abbrev pub is_number : ℕ → Option ℕ → Bool
is_number n none = false
is_number n (some m) = m == n

abbrev pub after_credit : ScopeCapture → Res (Unit {0}) × Socket → Captured × Socket
after_credit c (err e, s) = (failed e, s)
after_credit c (ok _, s) = (some (ok c), s)

-- A frame that is decoded gives its credit back.
unfoldable pub give_credit : Captured × Socket → Captured × Socket
unfolding send
give_credit (none, s) = (none, s)
give_credit (some (err e), s) = (some (err e), s)
give_credit (some (ok c), s) = after_credit c (send credit s)

-- The JSON parser is a parameter, with what it says of a text that is no JSON.
module _ (from_str : Text → Result Text Value) where
  unfoldable pub daemon_reply : Text → Text → Res Value
  unfolding judge_reply lookup
  daemon_reply t command = elim (from_str t) [
    | err e ↦ err (decode (str "malformed " ++ (command ++ (str " reply: " ++ e))))
    | ok m ↦ judge_reply (or_value m (get (str "Response") m))
  ]

  abbrev pub unless_state : Res Value → Option (Res Value)
  unless_state (err e) = some (err e)
  unless_state (ok r) =
      if is_text (text_at (str "response") r) (str "State") then none else some (ok r)

  unfoldable pub reply_step : Text → Message → Option (Res Value)
  unfolding daemon_reply lookup
  reply_step command (binary frame) = none
  reply_step command (text t) = unless_state (daemon_reply t command)

  -- `Socket::reply`
  unfoldable pub reply : Text → ℕ → Socket → Res Value × Socket
  unfolding each_message reply_step
  reply command deadline s =
      each_message err deadline (command ++ str " reply") (reply_step command) s.arriving s

  -- A frame, when it has the sequence number that was acknowledged.
  unfoldable pub capture_step : Option ℕ → Message → Option Captured
  unfolding daemon_reply decode_frame peek_seq
  capture_step none (binary frame) = some (decode_frame frame)
  capture_step (some n) (binary frame) = elim (peek_seq frame) [
    | none ↦ some none
    | some seq ↦ if is_number n seq then some (decode_frame frame) else none
  ]
  capture_step seq (text t) = notice (daemon_reply t (str "GetTriggeredData"))

  unfoldable pub await_capture : ℕ → Option ℕ → Socket → Captured × Socket
  unfolding each_message capture_step
  await_capture deadline seq s =
      each_message failed deadline (str "capture") (capture_step seq) s.arriving s

  abbrev pub after_ack : ℕ → Res Value × Socket → Captured × Socket
  after_ack deadline (err e, s) = (failed e, s)
  after_ack deadline (ok ack, s) = await_capture deadline (get (str "seq") ack >>=? u64_of) s

  abbrev pub after_request : ℕ → Res (Unit {0}) × Socket → Captured × Socket
  after_request deadline (err e, s) = (failed e, s)
  after_request deadline (ok _, s) = after_ack deadline (reply (str "GetTriggeredData") deadline s)

  -- `Socket::capture`
  unfoldable pub capture : ℕ → Socket → Captured × Socket
  unfolding send reply await_capture lookup
  capture deadline s = after_request deadline (send get_triggered_data s)

  unfoldable pub next_step : Message → Option Captured
  unfolding daemon_reply decode_frame
  next_step (binary frame) = some (decode_frame frame)
  next_step (text t) = notice (daemon_reply t (str "a stream"))

  -- `ScopeStream::next_capture`
  unfoldable pub next_capture : ℕ → Socket → Captured × Socket
  unfolding each_message next_step give_credit
  next_capture wait s =
      give_credit
        (each_message failed (s.now + wait) (str "a streamed capture") next_step s.arriving s)

  abbrev pub subscribed : Res Value × Socket → Res (Unit {0}) × Socket
  subscribed (err e, s) = (err e, close s)
  subscribed (ok v, s) = (ok tt, s)

  abbrev pub after_subscribe : ℕ → Res (Unit {0}) × Socket → Res (Unit {0}) × Socket
  after_subscribe wait (err e, s) = (err e, s)
  after_subscribe wait (ok _, s) = subscribed (reply (str "Subscribe") (s.now + wait) s)

  -- `Scope::stream`, on a socket that is open
  unfoldable pub subscribe : ℕ → Socket → Res (Unit {0}) × Socket
  unfolding send reply close
  subscribe wait s = after_subscribe wait (send subscribe_command s)

  -- `Scope::capture_timeout`, on a socket that is open
  unfoldable pub capture_timeout : ℕ → Socket → Captured × Socket
  unfolding capture close
  capture_timeout wait s = let (r, s') = capture (s.now + wait) s in (r, close s')
