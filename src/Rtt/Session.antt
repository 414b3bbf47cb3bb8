-- ===== src/Rtt/Session.antt =====
-- The state of an RTT session and its operations, on a channel of events with their times, in
-- milliseconds: `rx` holds the events that still arrive, and the channel is closed from `closes` on.
use lager_rs.Prelude.{
  ℕ, zero, suc, ◌+◌, ◌-◌, Option, none, some, List, [], ◌∷◌, ◌++◌, Bytes, Text, ok, err, str,
  is_empty, length, leb, if◌then◌else◌,
}
use lager_rs.Error.{Error, Res, stream, timeout}
use lager_rs.Sio.{take_through}
use lager_rs.Rtt.Events.{RttEvent, connected, received, failed, stopped}

pub record RttSession : Type 0 where
  pub now : ℕ
  pub rx : List (ℕ × RttEvent)
  pub closes : Option ℕ
  pub netname : Text
  pub channel : ℕ
  pub backend : Text
  pub buf : Bytes

abbrev pub closed : Error
closed = stream (str "RTT session closed unexpectedly")

abbrev pub later : ℕ → ℕ → ℕ
later a b = if leb a b then b else a

-- Waiting on an empty channel up to a moment: it is found closed, or the time passes.
abbrev pub wait_out : ℕ → RttSession → Res (Unit {0}) × RttSession
wait_out limit u = elim u.closes [
  | none ↦ (ok tt, record u { now = limit })
  | some t ↦
      if leb t limit
      then (err closed, record u { now = later u.now t })
      else (ok tt, record u { now = limit })
]

abbrev pub arrive : ℕ → List (ℕ × RttEvent) → RttSession → RttSession
arrive t rest u = record u { now = later u.now t; rx = rest }

-- `RttSession::pump`: the loop is over the events that arrive, with the time of each wait.
unfoldable pub pump_loop : ℕ → List (ℕ × RttEvent) → RttSession → Res (Unit {0}) × RttSession
pump_loop wait [] u = wait_out (u.now + wait) u
pump_loop wait ((t, e) ∷ rest) u =
    let u' = arrive t rest u in
    let taken : Res (Unit {0}) × RttSession = elim e [
      | received bytes ↦ pump_loop 0 rest (record u' { buf = u'.buf ++ bytes })
      | failed msg ↦ (err (stream msg), u')
      | connected backend ↦ pump_loop wait rest u'
      | stopped ↦ pump_loop wait rest u'
    ] in
    if leb t (u.now + wait) then taken else (ok tt, record u { now = u.now + wait })

unfoldable pub pump : ℕ → RttSession → Res (Unit {0}) × RttSession
unfolding pump_loop
pump wait u = pump_loop wait u.rx u

-- `std::mem::take(&mut self.buf)`
abbrev pub take_buf : Res (Unit {0}) × RttSession → Res Bytes × RttSession
take_buf (err e, u) = (err e, u)
take_buf (ok _, u) = (ok u.buf, record u { buf = [] })

unfoldable pub read : ℕ → RttSession → Res Bytes × RttSession
unfolding pump
read wait u = take_buf (pump wait u)

unfoldable pub try_read : RttSession → Res Bytes × RttSession
unfolding pump
try_read u = take_buf (pump 0 u)

-- How the bytes looked for and the wait print is `shown` and `waited`.
abbrev pub not_seen : Text × Text → RttSession → Error
not_seen (shown, waited) u = timeout (
    str "'"
    ++ (shown ++ (str "' did not appear on RTT '" ++ (u.netname ++ (str "' within " ++ waited)))))

-- `?` on what a pump gives
abbrev pub go_on :
    (RttSession → Option (Res Bytes × RttSession))
    → Res (Unit {0}) × RttSession
    → Option (Res Bytes × RttSession)
go_on f (err e, u) = some (err e, u)
go_on f (ok _, u) = f u

-- The loop of `wait_for`, which has not ended when the fuel runs out.
unfoldable pub wait_loop :
    ℕ → Text × Text → Bytes → ℕ → RttSession → Option (Res Bytes × RttSession)
unfolding take_through pump
wait_loop zero shown needle deadline u = none
wait_loop (suc fuel) shown needle deadline u = elim (take_through u.buf needle) [
  | some (found, rest) ↦ some (ok found, record u { buf = rest })
  | none ↦
      if leb deadline u.now
      then some (err (not_seen shown u), u)
      else go_on (wait_loop fuel shown needle deadline) (pump (deadline - u.now) u)
]

-- A round that goes on has taken an event or let the deadline pass.
unfoldable pub wait_for : Text × Text → Bytes → ℕ → RttSession → Option (Res Bytes × RttSession)
unfolding wait_loop
wait_for shown needle wait u =
    if is_empty needle
    then some (ok [], u)
    else wait_loop (suc (suc (length u.rx))) shown needle (u.now + wait) u

abbrev pub connect_timeout : ℕ
connect_timeout = 30000

abbrev pub unconfirmed : RttSession → Error
unconfirmed u =
    timeout (str "box did not confirm RTT session for '" ++ (u.netname ++ str "' within 30s"))

-- The loop of `RttSession::open`, over the events that arrive.
unfoldable pub open_loop : ℕ → List (ℕ × RttEvent) → RttSession → Res (Unit {0}) × RttSession
open_loop deadline [] u =
    if leb deadline u.now
    then (err (unconfirmed u), u)
    else let (r, u') = wait_out deadline u in
      elim r [ err e ↦ (err e, u') | ok _ ↦ (err (unconfirmed u), u') ]
open_loop deadline ((t, e) ∷ rest) u =
    let u' = arrive t rest u in
    let taken : Res (Unit {0}) × RttSession = elim e [
      | connected backend ↦ (ok tt, record u' { backend = backend })
      | received bytes ↦ open_loop deadline rest (record u' { buf = u'.buf ++ bytes })
      | failed msg ↦ (err (stream msg), u')
      | stopped ↦ open_loop deadline rest u'
    ] in
    if leb deadline u.now
    then (err (unconfirmed u), u)
    else if leb t deadline
    then taken
    else (err (unconfirmed u), record u { now = deadline })

unfoldable pub open_session :
    Text → ℕ → ℕ → List (ℕ × RttEvent) → Option ℕ → Res (Unit {0}) × RttSession
unfolding open_loop
open_session netname channel now rx closes = open_loop (now + connect_timeout) rx (record {
  now = now;
  rx = rx;
  closes = closes;
  netname = netname;
  channel = channel;
  backend = [];
  buf = [];
})
