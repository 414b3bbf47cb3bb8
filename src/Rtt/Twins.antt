-- ===== src/Rtt/Twins.antt =====
-- `AsyncRttSession` of nets/rtt.rs, on the state of the blocking session. A wait with a deadline
-- asks the channel first, so that an event that is there is taken although the deadline passed.
use lager_rs.Prelude.{
  ℕ, zero, suc, Bool, true, false, Option, none, some, List, [], ◌∷◌, ◌++◌, Bytes, Text, ok, err,
  is_empty, length, leb, if◌then◌else◌, ◌+◌,
}
use lager_rs.Error.{Res, stream}
use lager_rs.Sio.{take_through}
use lager_rs.Rtt.Events.{RttEvent, connected, received, failed, stopped}
use lager_rs.Rtt.Session.{
  RttSession, closed, later, arrive, take_buf, not_seen, go_on, connect_timeout, unconfirmed,
}

-- `AsyncRttSession::absorb`
unfoldable pub absorb : RttEvent → RttSession → Res Bool × RttSession
absorb (received bytes) u = (ok true, record u { buf = u.buf ++ bytes })
absorb (failed msg) u = (err (stream msg), u)
absorb (connected backend) u = (ok false, u)
absorb stopped u = (ok false, u)

-- The channel without events up to `limit`: closed, or still empty.
abbrev pub nothing_by : ℕ → RttSession → Res (Unit {0}) × RttSession
nothing_by limit u = elim u.closes [
  | none ↦ (ok tt, record u { now = limit })
  | some t ↦
      if leb t limit
      then (err closed, record u { now = later u.now t })
      else (ok tt, record u { now = limit })
]

-- `AsyncRttSession::drain`: `try_recv` finds the events that are there now.
unfoldable pub drain_loop : List (ℕ × RttEvent) → RttSession → Res (Unit {0}) × RttSession
unfolding absorb
drain_loop [] u = nothing_by u.now u
drain_loop ((t, e) ∷ rest) u =
    let absorbed = absorb e (record u { rx = rest }) in
    let taken : Res (Unit {0}) × RttSession = elim absorbed.0 [
      | err error ↦ (err error, absorbed.1)
      | ok _ ↦ drain_loop rest absorbed.1
    ] in
    if leb t u.now then taken else (ok tt, u)

unfoldable pub drain : RttSession → Res (Unit {0}) × RttSession
unfolding drain_loop
drain u = drain_loop u.rx u

-- `AsyncRttSession::pump`
unfoldable pub pump_to_loop : ℕ → List (ℕ × RttEvent) → RttSession → Res (Unit {0}) × RttSession
unfolding absorb drain
pump_to_loop deadline [] u = nothing_by (later u.now deadline) u
pump_to_loop deadline ((t, e) ∷ rest) u =
    let absorbed = absorb e (arrive t rest u) in
    let taken : Res (Unit {0}) × RttSession = elim absorbed.0 [
      | err error ↦ (err error, absorbed.1)
      | ok got ↦ if got then drain absorbed.1 else pump_to_loop deadline rest absorbed.1
    ] in
    if leb t (later u.now deadline) then taken else (ok tt, record u { now = later u.now deadline })

unfoldable pub pump_to : ℕ → RttSession → Res (Unit {0}) × RttSession
unfolding pump_to_loop
pump_to deadline u = pump_to_loop deadline u.rx u

unfoldable pub async_read : ℕ → RttSession → Res Bytes × RttSession
unfolding pump_to
async_read wait u = take_buf (pump_to (u.now + wait) u)

unfoldable pub async_try_read : RttSession → Res Bytes × RttSession
unfolding drain
async_try_read u = take_buf (drain u)

unfoldable pub async_wait_loop :
    ℕ → Text × Text → Bytes → ℕ → RttSession → Option (Res Bytes × RttSession)
unfolding take_through pump_to
async_wait_loop zero names needle deadline u = none
async_wait_loop (suc fuel) names needle deadline u = elim (take_through u.buf needle) [
  | some (found, rest) ↦ some (ok found, record u { buf = rest })
  | none ↦
      if leb deadline u.now
      then some (err (not_seen names u), u)
      else go_on (async_wait_loop fuel names needle deadline) (pump_to deadline u)
]

unfoldable pub async_wait_for :
    Text × Text → Bytes → ℕ → RttSession → Option (Res Bytes × RttSession)
unfolding async_wait_loop
async_wait_for names needle wait u =
    if is_empty needle
    then some (ok [], u)
    else async_wait_loop (suc (suc (length u.rx))) names needle (u.now + wait) u

abbrev unconfirmed_by : Res (Unit {0}) × RttSession → Res (Unit {0}) × RttSession
unconfirmed_by (err e, u) = (err e, u)
unconfirmed_by (ok _, u) = (err (unconfirmed u), u)

-- The loop of `AsyncRttSession::open`.
unfoldable pub async_open_loop : ℕ → List (ℕ × RttEvent) → RttSession → Res (Unit {0}) × RttSession
async_open_loop deadline [] u = unconfirmed_by (nothing_by (later u.now deadline) u)
async_open_loop deadline ((t, e) ∷ rest) u =
    let u' = arrive t rest u in
    let taken : Res (Unit {0}) × RttSession = elim e [
      | connected backend ↦ (ok tt, record u' { backend = backend })
      | received bytes ↦ async_open_loop deadline rest (record u' { buf = u'.buf ++ bytes })
      | failed msg ↦ (err (stream msg), u')
      | stopped ↦ async_open_loop deadline rest u'
    ] in
    if leb t (later u.now deadline)
    then taken
    else (err (unconfirmed u), record u { now = later u.now deadline })

unfoldable pub async_open_session :
    Text → ℕ → ℕ → List (ℕ × RttEvent) → Option ℕ → Res (Unit {0}) × RttSession
unfolding async_open_loop
async_open_session netname channel now rx closes =
    async_open_loop (now + connect_timeout) rx (record {
      now = now;
      rx = rx;
      closes = closes;
      netname = netname;
      channel = channel;
      backend = [];
      buf = [];
    })
