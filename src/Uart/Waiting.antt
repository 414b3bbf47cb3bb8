-- ===== src/Uart/Waiting.antt =====
-- `wait_for` ends, and takes its bytes from the front of the stream.
use lager_rs.Prelude.{
  ℕ, zero, suc, ◌+◌, ◌-◌, ◌≤◌, ◌<◌, ◌≡◌, refl, sym, ap, subst, leb→gt, ◌∙◌, ◌⊎◌, inl, inr, true,
  false, Option, none, some, [], ◌∷◌, ◌++◌, append_assoc, Bytes, Text, ok, err, length, leb,
  Bool-cases, Option-cases, arith,
}
use lager_rs.Error.{Res}
use lager_rs.Sio.{take_through, take_through-stable}
use lager_rs.Uart.Session.{Uart, pump, go_on, wait_loop, wait_for, not_seen}
use lager_rs.Uart.Stream.{stream, Keeps, arriving, pump-stream}
use lager_rs.Uart.Progress.{Progress, pump-Progress}

-- On success the bytes end with the pattern.
pub Found : Bytes → Res Bytes → Type 0
Found needle (ok bytes) = (before : Bytes) × (bytes ≡ before ++ needle)
Found needle (err e) = Unit

unfoldable pub Ends : Bytes → Uart → Option (Res Bytes × Uart) → Type 0
Ends needle u o = (p : Res Bytes × Uart) × (o ≡ some p) × Keeps p (stream u) × Found needle p.0

-- Enough turns for what still arrives, or for the one that finds the deadline passed.
Enough : ℕ → ℕ → Uart → Type 0
Enough fuel deadline u = (length u.rx + 2 ≤ fuel) ⊎ ((deadline ≤ u.now) × (1 ≤ fuel))

go_on-Ends :
    (needle : Bytes) (u : Uart) (fuel deadline n : ℕ) (f : Uart → Option (Res Bytes × Uart))
    (p : Res (Unit {0}) × Uart)
    → n + 2 ≤ suc fuel
    → Progress deadline n p
    → stream p.1 ≡ stream u
    → ((u' : Uart) → Enough fuel deadline u' → Ends needle u' (f u'))
    → Ends needle u (go_on f p)
unfolding Ends Progress Enough Found
go_on-Ends needle u fuel deadline n f (err e, u') h progress same ih = ((err e, u'), refl, same, tt)
go_on-Ends needle u fuel deadline n f (ok _, u') h progress same ih =
    let enough : Enough fuel deadline u' = elim progress [
      | inl fewer ↦ inl (omega arith)
      | inr late ↦ inr (late, omega arith)
    ] in
    let (p, ends, kept, found) = ih u' enough in (p, ends, kept ∙ same, found)

take_through-Keeps :
    (u : Uart) (needle found rest : Bytes)
    → take_through u.buf needle ≡ some (found, rest)
    → Keeps (ok found, record u { buf = rest }) (stream u)
take_through-Keeps u needle found rest e =
    sym (append_assoc found rest (arriving u.rx))
    ∙ ap (λ b. b ++ arriving u.rx) (sym (take_through-stable u.buf needle found rest [] e).0)

wait_loop-over :
    (fuel : ℕ) (names : Text × Text) (needle : Bytes) (deadline : ℕ) (u : Uart)
    → take_through u.buf needle ≡ none
    → leb deadline u.now ≡ true
    → wait_loop (suc fuel) names needle deadline u ≡ some (err (not_seen names u), u)
unfolding wait_loop
wait_loop-over fuel names needle deadline u missing over = rw (missing, wait_loop) (rw over)

wait_loop-waits :
    (fuel : ℕ) (names : Text × Text) (needle : Bytes) (deadline : ℕ) (u : Uart)
    → take_through u.buf needle ≡ none
    → leb deadline u.now ≡ false
    → wait_loop (suc fuel) names needle deadline u
      ≡ go_on (wait_loop fuel names needle deadline) (pump (deadline - u.now) u)
unfolding wait_loop
wait_loop-waits fuel names needle deadline u missing waits = rw (missing, wait_loop) (rw waits)

turns-left :
    (fuel deadline : ℕ) (u : Uart)
    → Enough (suc fuel) deadline u
    → u.now < deadline
    → length u.rx + 2 ≤ suc fuel
unfolding Enough
turns-left fuel deadline u (inl h) late = h
turns-left fuel deadline u (inr h) late = absurd (omega arith)

wait_loop-Ends :
    (fuel : ℕ) (names : Text × Text) (needle : Bytes) (deadline : ℕ) (u : Uart)
    → Enough fuel deadline u
    → Ends needle u (wait_loop fuel names needle deadline u)
unfolding Enough wait_loop Ends Found
wait_loop-Ends zero names needle deadline u (inl h) = absurd (omega arith)
wait_loop-Ends zero names needle deadline u (inr h) = absurd (omega arith)
wait_loop-Ends (suc fuel) names needle deadline u h =
    elim (Option-cases (take_through u.buf needle)) [
      | inr ((found, rest), e) ↦ (
        (ok found, record u { buf = rest }),
        rw (e, wait_loop),
        take_through-Keeps u needle found rest e,
        (take_through-stable u.buf needle found rest [] e).1,
      )
      | inl missing ↦ elim (Bool-cases (leb deadline u.now)) [
        | inl over ↦ (
          (err (not_seen names u), u),
          wait_loop-over fuel names needle deadline u missing over,
          refl,
          tt,
        )
        | inr waits ↦
            let late = leb→gt deadline u.now waits in
            subst (Ends needle u) (sym (wait_loop-waits fuel names needle deadline u missing waits))
              (go_on-Ends needle u fuel deadline (length u.rx)
                (wait_loop fuel names needle deadline) (pump (deadline - u.now) u)
                (turns-left fuel deadline u h late)
                (subst (λ limit. Progress limit (length u.rx) (pump (deadline - u.now) u))
                  (omega arith) (pump-Progress (deadline - u.now) u))
                (pump-stream (deadline - u.now) u)
                (λ u' enough. wait_loop-Ends fuel names needle deadline u' enough))
      ]
    ]

-- Waiting for a pattern always ends, with the bytes that it gives and those that it leaves
-- being the stream as it was, and on success the bytes that it gives end with the pattern.
pub wait_for-Ends :
    (names : Text × Text) (needle : Bytes) (wait : ℕ) (u : Uart)
    → Ends needle u (wait_for names needle wait u)
unfolding wait_for Ends Found Enough
wait_for-Ends names [] wait u = ((ok [], u), refl, refl, ([], refl))
wait_for-Ends names (b ∷ needle) wait u =
    wait_loop-Ends (suc (suc (length u.rx))) names (b ∷ needle) (u.now + wait) u (inl (omega arith))
