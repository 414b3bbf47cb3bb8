-- ===== src/Uart/Twins.antt =====
-- `AsyncUart` of nets/uart.rs, on the state of the blocking session. A wait with a deadline
-- asks the channel first, so that an event that is there is taken although the deadline passed.
use lager_rs.Prelude.{
  ℕ, zero, suc, Bool, true, false, Option, none, some, List, [], ◌∷◌, ◌++◌, Bytes, Text, ok, err,
  is_empty, length, leb, if◌then◌else◌, ◌+◌,
}
use lager_rs.Error.{Res}
use lager_rs.Sio.{take_through}
use lager_rs.Uart.Events.{UartEvent, connected, received, status, failed, stopped}
use lager_rs.Uart.Session.{
  Uart, closed, later, arrive, take_buf, not_seen, go_on, connect_timeout, unconfirmed,
}

-- `AsyncUart::absorb`
unfoldable pub absorb : UartEvent → Uart → Res Bool × Uart
absorb (received bytes) u = (ok true, record u { buf = u.buf ++ bytes })
absorb (failed error) u = (err error, u)
absorb (status s) u = (ok false, record u { last_status = some s })
absorb (connected path rate) u = (ok false, u)
absorb stopped u = (ok false, u)

-- The channel without events up to `limit`: closed, or still empty.
abbrev pub nothing_by : ℕ → Uart → Res (Unit {0}) × Uart
nothing_by limit u = elim u.closes [
  | none ↦ (ok tt, record u { now = limit })
  | some t ↦
      if leb t limit
      then (err closed, record u { now = later u.now t })
      else (ok tt, record u { now = limit })
]

-- `AsyncUart::drain`: `try_recv` finds the events that are there now.
unfoldable pub drain_loop : List (ℕ × UartEvent) → Uart → Res (Unit {0}) × Uart
unfolding absorb
drain_loop [] u = nothing_by u.now u
drain_loop ((t, e) ∷ rest) u =
    let absorbed = absorb e (record u { rx = rest }) in
    let taken : Res (Unit {0}) × Uart = elim absorbed.0 [
      | err error ↦ (err error, absorbed.1)
      | ok _ ↦ drain_loop rest absorbed.1
    ] in
    if leb t u.now then taken else (ok tt, u)

unfoldable pub drain : Uart → Res (Unit {0}) × Uart
unfolding drain_loop
drain u = drain_loop u.rx u

-- `AsyncUart::pump`
unfoldable pub pump_to_loop : ℕ → List (ℕ × UartEvent) → Uart → Res (Unit {0}) × Uart
unfolding absorb drain
pump_to_loop deadline [] u = nothing_by (later u.now deadline) u
pump_to_loop deadline ((t, e) ∷ rest) u =
    let absorbed = absorb e (arrive t rest u) in
    let taken : Res (Unit {0}) × Uart = elim absorbed.0 [
      | err error ↦ (err error, absorbed.1)
      | ok got ↦ if got then drain absorbed.1 else pump_to_loop deadline rest absorbed.1
    ] in
    if leb t (later u.now deadline) then taken else (ok tt, record u { now = later u.now deadline })

unfoldable pub pump_to : ℕ → Uart → Res (Unit {0}) × Uart
unfolding pump_to_loop
pump_to deadline u = pump_to_loop deadline u.rx u

unfoldable pub async_read : ℕ → Uart → Res Bytes × Uart
unfolding pump_to
async_read wait u = take_buf (pump_to (u.now + wait) u)

unfoldable pub async_try_read : Uart → Res Bytes × Uart
unfolding drain
async_try_read u = take_buf (drain u)

unfoldable pub async_wait_loop : ℕ → Text × Text → Bytes → ℕ → Uart → Option (Res Bytes × Uart)
unfolding take_through pump_to
async_wait_loop zero names needle deadline u = none
async_wait_loop (suc fuel) names needle deadline u = elim (take_through u.buf needle) [
  | some (found, rest) ↦ some (ok found, record u { buf = rest })
  | none ↦
      if leb deadline u.now
      then some (err (not_seen names u), u)
      else go_on (async_wait_loop fuel names needle deadline) (pump_to deadline u)
]

unfoldable pub async_wait_for : Text × Text → Bytes → ℕ → Uart → Option (Res Bytes × Uart)
unfolding async_wait_loop
async_wait_for names needle wait u =
    if is_empty needle
    then some (ok [], u)
    else async_wait_loop (suc (suc (length u.rx))) names needle (u.now + wait) u

abbrev unconfirmed_by : Res (Unit {0}) × Uart → Res (Unit {0}) × Uart
unconfirmed_by (err e, u) = (err e, u)
unconfirmed_by (ok _, u) = (err (unconfirmed u), u)

-- The loop of `AsyncUart::open`.
unfoldable pub async_open_loop : ℕ → List (ℕ × UartEvent) → Uart → Res (Unit {0}) × Uart
async_open_loop deadline [] u = unconfirmed_by (nothing_by (later u.now deadline) u)
async_open_loop deadline ((t, e) ∷ rest) u =
    let u' = arrive t rest u in
    let taken : Res (Unit {0}) × Uart = elim e [
      | connected path rate ↦ (ok tt, record u' { device_path = path; baudrate = rate })
      | received bytes ↦ async_open_loop deadline rest (record u' { buf = u'.buf ++ bytes })
      | failed error ↦ (err error, u')
      | status s ↦ async_open_loop deadline rest u'
      | stopped ↦ async_open_loop deadline rest u'
    ] in
    if leb t (later u.now deadline)
    then taken
    else (err (unconfirmed u), record u { now = later u.now deadline })

unfoldable pub async_open_session :
    Text → ℕ → List (ℕ × UartEvent) → Option ℕ → Res (Unit {0}) × Uart
unfolding async_open_loop
async_open_session netname now rx closes = async_open_loop (now + connect_timeout) rx (record {
  now = now;
  rx = rx;
  closes = closes;
  netname = netname;
  device_path = [];
  baudrate = 0;
  buf = [];
  last_status = none;
})
