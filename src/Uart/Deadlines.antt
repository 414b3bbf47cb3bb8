-- ===== src/Uart/Deadlines.antt =====
-- How long a read of the async session takes.
use lager_rs.Prelude.{
  ℕ, ◌+◌, ◌≤◌, none, some, List, [], ◌∷◌, ◌++◌, ok, err, leb, leb→le, Bool-cases, inl, inr,
  if◌then◌else◌, arith,
}
use lager_rs.Error.{Res}
use lager_rs.Uart.Events.{UartEvent, connected, received, status, failed, stopped}
use lager_rs.Uart.Session.{Uart, later, arrive, take_buf}
use lager_rs.Uart.Twins.{nothing_by, absorb, drain_loop, drain, pump_to_loop, pump_to, async_read}

By {ℓ} : {A : Type ℓ} → ℕ → A × Uart → Type 0
By limit p = p.1.now ≤ limit

either :
    (t cap limit : ℕ) (x y : Res (Unit {0}) × Uart)
    → (t ≤ cap → By limit x)
    → By limit y
    → By limit (if leb t cap then x else y)
either t cap limit x y h k = elim (Bool-cases (leb t cap)) [
  | inl early ↦ rw early (h (leb→le t cap early))
  | inr late ↦ rw late k
]

later_le : (a b c : ℕ) → a ≤ c → b ≤ c → later a b ≤ c
later_le a b c h k = ground arith

nothing_by-By :
    (cap limit : ℕ) (u : Uart) → u.now ≤ limit → cap ≤ limit → By limit (nothing_by cap u)
unfolding By
nothing_by-By cap limit u h k =
    elim u.closes as (λ o. By limit (nothing_by cap (record u { closes = o }))) [
      | none ↦ k
      | some t ↦ either t cap limit _ _ (λ early. later_le u.now t limit h (omega arith)) k
    ]

drain_loop-By :
    (rest : List (ℕ × UartEvent)) (limit : ℕ) (u : Uart)
    → u.now ≤ limit
    → By limit (drain_loop rest u)
unfolding drain_loop absorb By
drain_loop-By [] limit u h = nothing_by-By u.now limit u h h
drain_loop-By ((t, received bytes) ∷ rest) limit u h =
    either t u.now limit _ _
      (λ early. drain_loop-By rest limit (record u { rx = rest; buf = u.buf ++ bytes }) h) h
drain_loop-By ((t, failed e) ∷ rest) limit u h = either t u.now limit _ _ (λ early. h) h
drain_loop-By ((t, status s) ∷ rest) limit u h =
    either t u.now limit _ _
      (λ early. drain_loop-By rest limit (record u { rx = rest; last_status = some s }) h) h
drain_loop-By ((t, connected p r) ∷ rest) limit u h =
    either t u.now limit _ _ (λ early. drain_loop-By rest limit (record u { rx = rest }) h) h
drain_loop-By ((t, stopped) ∷ rest) limit u h =
    either t u.now limit _ _ (λ early. drain_loop-By rest limit (record u { rx = rest }) h) h

pump_to_loop-By :
    (rest : List (ℕ × UartEvent)) (deadline : ℕ) (u : Uart)
    → u.now ≤ deadline
    → By deadline (pump_to_loop deadline rest u)
unfolding pump_to_loop absorb drain By
pump_to_loop-By [] deadline u h =
    nothing_by-By (later u.now deadline) deadline u h
      (later_le u.now deadline deadline h (omega arith))
pump_to_loop-By ((t, e) ∷ rest) deadline u h =
    let cap = later u.now deadline in
    let low : cap ≤ deadline = later_le u.now deadline deadline h (omega arith) in
    let reached : t ≤ cap → later u.now t ≤ deadline =
      λ early. later_le u.now t deadline h (omega arith) in
    elim e as (λ e. By deadline (pump_to_loop deadline ((t, e) ∷ rest) u)) [
      | received bytes ↦
          either t cap deadline _ _
            (λ early.
              drain_loop-By rest deadline (record (arrive t rest u) { buf = u.buf ++ bytes })
                (reached early))
            low
      | failed error ↦ either t cap deadline _ _ reached low
      | status s ↦
          either t cap deadline _ _
            (λ early.
              pump_to_loop-By rest deadline (record (arrive t rest u) { last_status = some s })
                (reached early))
            low
      | connected p r ↦
          either t cap deadline _ _
            (λ early. pump_to_loop-By rest deadline (arrive t rest u) (reached early)) low
      | stopped ↦
          either t cap deadline _ _
            (λ early. pump_to_loop-By rest deadline (arrive t rest u) (reached early)) low
    ]

take_buf-By : (limit : ℕ) (p : Res (Unit {0}) × Uart) → By limit p → By limit (take_buf p)
unfolding By
take_buf-By limit (ok _, u) h = h
take_buf-By limit (err e, u) h = h

-- Whatever arrives, a read of the async session is over when its timeout is.
pub async_read-timeout : (wait : ℕ) (u : Uart) → (async_read wait u).1.now ≤ u.now + wait
unfolding async_read pump_to By
async_read-timeout wait u =
    take_buf-By (u.now + wait) (pump_to (u.now + wait) u)
      (pump_to_loop-By u.rx (u.now + wait) u (omega arith))
