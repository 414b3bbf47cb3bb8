-- ===== src/Uart/Progress.antt =====
-- A pump that reports no error gets on: it takes an event, or the wait passes.
use lager_rs.Prelude.{
  ℕ, suc, ◌+◌, ◌≤◌, ◌<◌, ◌≡◌, refl, ap, ◌⊎◌, inl, inr, Bool, true, false, none, some, List, [], ◌∷◌,
  ◌++◌, ok, err, length, leb, if◌then◌else◌, arith,
}
use lager_rs.Error.{Res}
use lager_rs.Uart.Events.{UartEvent, connected, received, status, failed, stopped}
use lager_rs.Uart.Session.{Uart, wait_out, arrive, pump_loop, pump}

either : {R : Type 0} (P : R → Type 0) (b : Bool) (x y : R) → P x → P y → P (if b then x else y)
either P true x y h k = h
either P false x y h k = k

-- No more events are left than there were.
Shrinks : ℕ → Res (Unit {0}) × Uart → Type 0
Shrinks n p = length p.1.rx ≤ n

wait_out-rx : (limit : ℕ) (u : Uart) → (wait_out limit u).1.rx ≡ u.rx
wait_out-rx limit u =
    elim u.closes as (λ o. (wait_out limit (record u { closes = o })).1.rx ≡ u.rx) [
      | none ↦ refl
      | some t ↦ either (λ (p : Res (Unit {0}) × Uart). p.1.rx ≡ u.rx) (leb t limit) _ _ refl refl
    ]

pump_loop-Shrinks :
    (wait : ℕ) (rest : List (ℕ × UartEvent)) (u : Uart)
    → u.rx ≡ rest
    → Shrinks (length rest) (pump_loop wait rest u)
unfolding pump_loop Shrinks
pump_loop-Shrinks wait [] u h = omega (arith, ap length (wait_out-rx (u.now + wait) u), ap length h)
pump_loop-Shrinks wait ((t, received bytes) ∷ rest) u h =
    either (Shrinks (length ((t, received bytes) ∷ rest))) (leb t (u.now + wait)) _ _
      (omega
        (arith, pump_loop-Shrinks 0 rest (record (arrive t rest u) { buf = u.buf ++ bytes }) refl))
      (omega (arith, ap length h))
pump_loop-Shrinks wait ((t, failed e) ∷ rest) u h =
    either (Shrinks (length ((t, failed e) ∷ rest))) (leb t (u.now + wait)) _ _ (omega arith)
      (omega (arith, ap length h))
pump_loop-Shrinks wait ((t, status s) ∷ rest) u h =
    either (Shrinks (length ((t, status s) ∷ rest))) (leb t (u.now + wait)) _ _
      (omega (
        arith,
        pump_loop-Shrinks wait rest (record (arrive t rest u) { last_status = some s }) refl,
      ))
      (omega (arith, ap length h))
pump_loop-Shrinks wait ((t, connected p r) ∷ rest) u h =
    either (Shrinks (length ((t, connected p r) ∷ rest))) (leb t (u.now + wait)) _ _
      (omega (arith, pump_loop-Shrinks wait rest (arrive t rest u) refl))
      (omega (arith, ap length h))
pump_loop-Shrinks wait ((t, stopped) ∷ rest) u h =
    either (Shrinks (length ((t, stopped) ∷ rest))) (leb t (u.now + wait)) _ _
      (omega (arith, pump_loop-Shrinks wait rest (arrive t rest u) refl))
      (omega (arith, ap length h))

-- A pump that reports no error has taken an event, or the wait is over.
unfoldable pub Progress : ℕ → ℕ → Res (Unit {0}) × Uart → Type 0
Progress limit n (err e, u) = Unit
Progress limit n (ok _, u) = (length u.rx < n) ⊎ (limit ≤ u.now)

Progress-taken : (limit n : ℕ) (p : Res (Unit {0}) × Uart) → Shrinks n p → Progress limit (suc n) p
unfolding Progress Shrinks
Progress-taken limit n (err e, u) h = tt
Progress-taken limit n (ok _, u) h = inl (omega arith)

wait_out-Progress : (limit n : ℕ) (u : Uart) → Progress limit n (wait_out limit u)
unfolding Progress
wait_out-Progress limit n u =
    elim u.closes as (λ o. Progress limit n (wait_out limit (record u { closes = o }))) [
      | none ↦ inr (omega arith)
      | some t ↦ either (Progress limit n) (leb t limit) _ _ tt (inr (omega arith))
    ]

pump_loop-Progress :
    (wait : ℕ) (rest : List (ℕ × UartEvent)) (u : Uart)
    → u.rx ≡ rest
    → Progress (u.now + wait) (length rest) (pump_loop wait rest u)
unfolding pump_loop Progress Shrinks
pump_loop-Progress wait [] u h = wait_out-Progress (u.now + wait) 0 u
pump_loop-Progress wait ((t, received bytes) ∷ rest) u h =
    either (Progress (u.now + wait) (suc (length rest))) (leb t (u.now + wait)) _ _
      (Progress-taken _ (length rest) _
        (pump_loop-Shrinks 0 rest (record (arrive t rest u) { buf = u.buf ++ bytes }) refl))
      (inr (omega arith))
pump_loop-Progress wait ((t, failed e) ∷ rest) u h =
    either (Progress (u.now + wait) (suc (length rest))) (leb t (u.now + wait)) _ _ tt
      (inr (omega arith))
pump_loop-Progress wait ((t, status s) ∷ rest) u h =
    either (Progress (u.now + wait) (suc (length rest))) (leb t (u.now + wait)) _ _
      (Progress-taken _ (length rest) _
        (pump_loop-Shrinks wait rest (record (arrive t rest u) { last_status = some s }) refl))
      (inr (omega arith))
pump_loop-Progress wait ((t, connected p r) ∷ rest) u h =
    either (Progress (u.now + wait) (suc (length rest))) (leb t (u.now + wait)) _ _
      (Progress-taken _ (length rest) _ (pump_loop-Shrinks wait rest (arrive t rest u) refl))
      (inr (omega arith))
pump_loop-Progress wait ((t, stopped) ∷ rest) u h =
    either (Progress (u.now + wait) (suc (length rest))) (leb t (u.now + wait)) _ _
      (Progress-taken _ (length rest) _ (pump_loop-Shrinks wait rest (arrive t rest u) refl))
      (inr (omega arith))

pub pump-Progress : (wait : ℕ) (u : Uart) → Progress (u.now + wait) (length u.rx) (pump wait u)
unfolding pump
pump-Progress wait u = pump_loop-Progress wait u.rx u refl
