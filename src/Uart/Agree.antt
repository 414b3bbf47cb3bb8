-- ===== src/Uart/Agree.antt =====
-- The blocking session and its async twin, on the same channel.
use lager_rs.Prelude.{
  ℕ, ◌+◌, ◌≤◌, ◌≡◌, refl, sym, ap, subst, ◌∙◌, some, List, [], ◌∷◌, ◌++◌, ok, err, leb, leb→le,
  Bool-cases, inl, inr, if◌then◌else◌, arith,
}
use lager_rs.Error.{Res}
use lager_rs.Uart.Events.{UartEvent, connected, received, status, failed, stopped}
use lager_rs.Uart.Session.{Uart, later, arrive, pump_loop, pump, take_buf, read, try_read}
use lager_rs.Uart.Twins.{
  nothing_by, absorb, drain_loop, drain, pump_to_loop, pump_to, async_read, async_try_read,
}

later-past : (a b : ℕ) → b ≤ a → later a b ≡ a
later-past a b h = ground arith

later-ahead : (a b : ℕ) → a ≤ b → later a b ≡ b
later-ahead a b h = ground arith

-- Two tests of the same limit agree when their ways do, the first one when the test holds.
in_time :
    (t : ℕ) {limit limit' : ℕ} {x x' y y' : Res (Unit {0}) × Uart}
    → limit ≡ limit'
    → (t ≤ limit' → x ≡ x')
    → y ≡ y'
    → (if leb t limit then x else y) ≡ (if leb t limit' then x' else y')
in_time t {limit} {limit'} {x} {x'} {y} {y'} e h k = rw e (elim (Bool-cases (leb t limit')) [
  | inl early ↦ rw early (h (leb→le t limit' early))
  | inr late ↦ rw late k
])

-- An event that is there is taken without waiting.
at_once :
    (t : ℕ) (rest : List (ℕ × UartEvent)) (u : Uart)
    → t ≤ u.now
    → arrive t rest u ≡ record u { rx = rest }
at_once t rest u h = ap (λ n. record u { now = n; rx = rest }) (later-past u.now t h)

no_wait : (u : Uart) → u.now + 0 ≡ u.now
no_wait u = omega arith

abbrev at_time : ℕ → Uart → Res (Unit {0}) × Uart
at_time n u = (ok tt, record u { now = n })

still : (u : Uart) → at_time (u.now + 0) u ≡ at_time u.now u
still u = ap (λ n. at_time n u) (no_wait u)

pump_loop-drain :
    (rest : List (ℕ × UartEvent)) (u : Uart) → u.rx ≡ rest → pump_loop 0 rest u ≡ drain_loop rest u
unfolding pump_loop drain_loop absorb
pump_loop-drain [] u h = rw (no_wait u) refl
pump_loop-drain ((t, received bytes) ∷ rest) u h =
    in_time t (no_wait u)
      (λ early.
        ap (λ v. pump_loop 0 rest (record v { buf = u.buf ++ bytes })) (at_once t rest u early)
        ∙ pump_loop-drain rest (record u { rx = rest; buf = u.buf ++ bytes }) refl)
      (still u)
pump_loop-drain ((t, failed e) ∷ rest) u h =
    in_time t (no_wait u) (λ early. ap (λ v. (err e, v)) (at_once t rest u early)) (still u)
pump_loop-drain ((t, status s) ∷ rest) u h =
    in_time t (no_wait u)
      (λ early.
        ap (λ v. pump_loop 0 rest (record v { last_status = some s })) (at_once t rest u early)
        ∙ pump_loop-drain rest (record u { rx = rest; last_status = some s }) refl)
      (still u)
pump_loop-drain ((t, connected p r) ∷ rest) u h =
    in_time t (no_wait u)
      (λ early.
        ap (pump_loop 0 rest) (at_once t rest u early)
        ∙ pump_loop-drain rest (record u { rx = rest }) refl)
      (still u)
pump_loop-drain ((t, stopped) ∷ rest) u h =
    in_time t (no_wait u)
      (λ early.
        ap (pump_loop 0 rest) (at_once t rest u early)
        ∙ pump_loop-drain rest (record u { rx = rest }) refl)
      (still u)

-- Taking what is there without waiting is the same in the blocking and the async session.
try_read-async : (u : Uart) → try_read u ≡ async_try_read u
unfolding try_read async_try_read pump drain
try_read-async u = ap take_buf (pump_loop-drain u.rx u refl)

-- What carries neither data nor an error has all come before the wait, as far as the first
-- event that does.
unfoldable pub IsPrompt : ℕ → List (ℕ × UartEvent) → Type 0
IsPrompt now [] = Unit
IsPrompt now ((t, received bytes) ∷ rest) = Unit
IsPrompt now ((t, failed e) ∷ rest) = Unit
IsPrompt now ((t, status s) ∷ rest) = (t ≤ now) × IsPrompt now rest
IsPrompt now ((t, connected p r) ∷ rest) = (t ≤ now) × IsPrompt now rest
IsPrompt now ((t, stopped) ∷ rest) = (t ≤ now) × IsPrompt now rest

within : (wait : ℕ) (u : Uart) → u.now + wait ≡ later u.now (u.now + wait)
within wait u = sym (later-ahead u.now (u.now + wait) (omega arith))

past : (wait : ℕ) (u : Uart) → at_time (u.now + wait) u ≡ at_time (later u.now (u.now + wait)) u
past wait u = ap (λ n. at_time n u) (within wait u)

-- What an event leaves to the loops when they go on.
goes_on :
    (wait t : ℕ) (rest : List (ℕ × UartEvent)) (u : Uart) (f : Uart → Uart)
    → t ≤ u.now
    → pump_loop wait rest (f (record u { rx = rest }))
      ≡ pump_to_loop (u.now + wait) rest (f (record u { rx = rest }))
    → pump_loop wait rest (f (arrive t rest u))
      ≡ pump_to_loop (u.now + wait) rest (f (arrive t rest u))
goes_on wait t rest u f h e =
    subst (λ v. pump_loop wait rest (f v) ≡ pump_to_loop (u.now + wait) rest (f v))
      (sym (at_once t rest u h)) e

pump_loop-async :
    (wait : ℕ) (rest : List (ℕ × UartEvent)) (u : Uart)
    → IsPrompt u.now rest
    → pump_loop wait rest u ≡ pump_to_loop (u.now + wait) rest u
unfolding pump_loop pump_to_loop absorb drain IsPrompt
pump_loop-async wait [] u h = ap (λ n. nothing_by n u) (within wait u)
pump_loop-async wait ((t, received bytes) ∷ rest) u h =
    in_time t (within wait u)
      (λ early. pump_loop-drain rest (record (arrive t rest u) { buf = u.buf ++ bytes }) refl)
      (past wait u)
pump_loop-async wait ((t, failed e) ∷ rest) u h =
    in_time t (within wait u) (λ early. refl) (past wait u)
pump_loop-async wait ((t, status s) ∷ rest) u (h, more) =
    in_time t (within wait u)
      (λ early.
        goes_on wait t rest u (λ v. record v { last_status = some s }) h
          (pump_loop-async wait rest (record u { rx = rest; last_status = some s }) more))
      (past wait u)
pump_loop-async wait ((t, connected p r) ∷ rest) u (h, more) =
    in_time t (within wait u)
      (λ early.
        goes_on wait t rest u (λ v. v) h (pump_loop-async wait rest (record u { rx = rest }) more))
      (past wait u)
pump_loop-async wait ((t, stopped) ∷ rest) u (h, more) =
    in_time t (within wait u)
      (λ early.
        goes_on wait t rest u (λ v. v) h (pump_loop-async wait rest (record u { rx = rest }) more))
      (past wait u)

-- When all that carries neither data nor an error has come before the call, as far as the
-- first event that does, a read of the async session is a read of the blocking one.
pub read-async : (wait : ℕ) (u : Uart) → IsPrompt u.now u.rx → read wait u ≡ async_read wait u
unfolding read async_read pump pump_to
read-async wait u h = ap take_buf (pump_loop-async wait u.rx u h)
