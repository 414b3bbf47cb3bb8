-- ===== src/ScopeTrace/Socket.antt =====
-- `Socket` and `ScopeStream` of nets/scope_trace.rs, over the messages that the WebSocket gives.
-- `arriving` holds them with their times, in milliseconds, and `sent` the commands that were sent,
-- the last one first.
use lager_rs.Prelude.{
  ℕ, Bool, true, false, Option, none, some, List, [], ◌∷◌, ◌++◌, Bytes, Text, ok, err, str, leb,
  if◌then◌else◌,
}
use lager_rs.Json.{Value}
use lager_rs.Error.{Error, Res, stream, timeout}
use lager_rs.Tunnel.Refusal.{SocketError, io_error}
use lager_rs.Tunnel.Refusal.{ErrorKind}

-- `tungstenite::Error`, where `gone` is `ConnectionClosed` or `AlreadyClosed`
pub data WsError : Type 0 where
  io : SocketError → WsError
  gone : WsError
  other : Text → WsError

pub data Message : Type 0 where
  binary : Bytes → Message
  text : Text → Message

-- What `WebSocket::read` gives. Pings, pongs and frames are `control`.
pub data Arriving : Type 0 where
  message : Message → Arriving
  control closing : Arriving
  broken : WsError → Arriving

pub record Socket : Type 0 where
  pub now : ℕ
  pub arriving : List (ℕ × Arriving)
  pub sent : List Value
  pub fault : Option WsError
  pub closed : Bool

unfoldable pub ws_error : WsError → Text → Error
ws_error (io e) context = io_error context e
ws_error gone context = stream (str "the scope stream closed during " ++ context)
ws_error (other e) context =
    stream (str "scope stream error during " ++ (context ++ (str ": " ++ e)))

abbrev pub no_answer : Text → Error
no_answer waiting_for = timeout (str "no " ++ (waiting_for ++ str " from the scope in time"))

abbrev pub box_closed : Text → Error
box_closed waiting_for =
    stream (str "the box closed the scope stream while waiting for " ++ waiting_for)

abbrev pub later : ℕ → ℕ → ℕ
later a b = if leb a b then b else a

-- A read that timed out is tried again until the deadline.
abbrev pub is_timeout : WsError → Bool
is_timeout (io e) = elim e.kind [
  | ErrorKind.would_block ↦ true
  | ErrorKind.timed_out ↦ true
  | _ ↦ false
]
is_timeout gone = false
is_timeout (other e) = false

-- The loops over `Socket::read`: the messages before the deadline, until `step` makes a result of
-- one, where `fail` makes it of an error.
module _ {R : Type 0} (fail : Error → R) (deadline : ℕ) (waiting_for : Text)
    (step : Message → Option R) where
  unfoldable pub each_message : List (ℕ × Arriving) → Socket → R × Socket
  unfolding ws_error
  each_message [] s = (fail (no_answer waiting_for), record s { now = later s.now deadline })
  each_message ((t, a) ∷ rest) s =
      let s' = record s { now = later s.now t; arriving = rest } in
      let more = each_message rest s' in
      let taken : R × Socket = elim a [
        | message m ↦ elim (step m) [ none ↦ more | some r ↦ (r, s') ]
        | control ↦ more
        | closing ↦ (fail (box_closed waiting_for), s')
        | broken e ↦ if is_timeout e then more else (fail (ws_error e waiting_for), s')
      ] in
      if leb deadline s.now
      then (fail (no_answer waiting_for), s)
      else if leb t deadline
      then taken
      else (fail (no_answer waiting_for), record s { now = deadline })

-- `Socket::read`
unfoldable pub read : ℕ → Text → Socket → Res Message × Socket
unfolding each_message
read deadline waiting_for s = each_message err deadline waiting_for (λ m. some (ok m)) s.arriving s

-- `Socket::send`
unfoldable pub send : Value → Socket → Res (Unit {0}) × Socket
unfolding ws_error
send command s = elim s.fault [
  | some e ↦ (err (ws_error e (str "sending a scope command")), s)
  | none ↦ (ok tt, record s { sent = command ∷ s.sent })
]

unfoldable pub close : Socket → Socket
close s = record s { closed = true }
