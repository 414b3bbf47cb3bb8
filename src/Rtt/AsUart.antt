-- ===== src/Rtt/AsUart.antt =====
-- An RTT session as a UART session on the same data: what is known of the one holds of the other.
use lager_rs.Prelude.{
  ℕ, zero, suc, ◌+◌, ◌-◌, ◌≡◌, refl, sym, ap, subst, ◌∙◌, Bool, true, false, Option, none, some,
  List, [], ◌∷◌, ◌++◌, Bytes, Text, ok, err, length, leb, if◌then◌else◌,
}
use lager_rs.Error.{Res, stream}
use lager_rs.Sio.{take_through}
use lager_rs.Uart.Events as Uart
use lager_rs.Uart.Events.{UartEvent}
use lager_rs.Uart.Session as UartSession
use lager_rs.Uart.Session.{Uart}
use lager_rs.Uart.Stream as Stream
use lager_rs.Rtt.Events.{RttEvent, connected, received, failed, stopped}
use lager_rs.Rtt.Session.{
  RttSession, wait_out, arrive, pump_loop, pump, take_buf, read, try_read, go_on, not_seen,
  wait_loop, wait_for,
}

abbrev pub as_event : RttEvent → UartEvent
as_event (connected backend) = Uart.connected backend 0
as_event (received bytes) = Uart.received bytes
as_event (failed msg) = Uart.failed (stream msg)
as_event stopped = Uart.stopped

abbrev pub as_events : List (ℕ × RttEvent) → List (ℕ × UartEvent)
as_events [] = []
as_events ((t, e) ∷ rest) = (t, as_event e) ∷ as_events rest

abbrev pub as_uart : RttSession → Uart
as_uart s = record {
  now = s.now;
  rx = as_events s.rx;
  closes = s.closes;
  netname = s.netname;
  device_path = s.backend;
  baudrate = 0;
  buf = s.buf;
  last_status = none;
}

-- The same result, up to the text of an error.
pub Alike : {A : Type 0} → Res A → Res A → Type 0
Alike (ok a) (ok b) = a ≡ b
Alike (ok a) (err e) = ⊥
Alike (err e) (ok b) = ⊥
Alike (err e) (err e') = Unit

pub Follows : {A : Type 0} → Res A × RttSession → Res A × Uart → Type 0
Follows p q = Alike p.0 q.0 × (as_uart p.1 ≡ q.1)

either :
    {A : Type 0} (b : Bool) (x y : Res A × RttSession) (x' y' : Res A × Uart)
    → Follows x x'
    → Follows y y'
    → Follows (if b then x else y) (if b then x' else y')
either true x y x' y' h k = h
either false x y x' y' h k = k

wait_out-Follows :
    (limit : ℕ) (s : RttSession)
    → Follows (wait_out limit s) (UartSession.wait_out limit (as_uart s))
unfolding Follows Alike
wait_out-Follows limit s =
    elim s.closes
      as (λ o.
        Follows (wait_out limit (record s { closes = o }))
          (UartSession.wait_out limit (as_uart (record s { closes = o })))) [
            | none ↦ (refl, refl)
            | some t ↦ either (leb t limit) _ _ _ _ (tt, refl) (refl, refl)
          ]

pump_loop-Follows :
    (wait : ℕ) (rest : List (ℕ × RttEvent)) (s : RttSession)
    → Follows (pump_loop wait rest s) (UartSession.pump_loop wait (as_events rest) (as_uart s))
unfolding pump_loop UartSession.pump_loop Follows Alike
pump_loop-Follows wait [] s = wait_out-Follows (s.now + wait) s
pump_loop-Follows wait ((t, received bytes) ∷ rest) s =
    either (leb t (s.now + wait)) _ _ _ _
      (pump_loop-Follows 0 rest (record (arrive t rest s) { buf = s.buf ++ bytes })) (refl, refl)
pump_loop-Follows wait ((t, failed msg) ∷ rest) s =
    either (leb t (s.now + wait)) _ _ _ _ (tt, refl) (refl, refl)
pump_loop-Follows wait ((t, connected backend) ∷ rest) s =
    either (leb t (s.now + wait)) _ _ _ _ (pump_loop-Follows wait rest (arrive t rest s))
      (refl, refl)
pump_loop-Follows wait ((t, stopped) ∷ rest) s =
    either (leb t (s.now + wait)) _ _ _ _ (pump_loop-Follows wait rest (arrive t rest s))
      (refl, refl)

pump-Follows :
    (wait : ℕ) (s : RttSession) → Follows (pump wait s) (UartSession.pump wait (as_uart s))
unfolding pump UartSession.pump
pump-Follows wait s = pump_loop-Follows wait s.rx s

emptied : Uart → Uart
emptied u = record u { buf = [] }

take_buf-Follows :
    (p : Res (Unit {0}) × RttSession) (q : Res (Unit {0}) × Uart)
    → Follows p q
    → Follows (take_buf p) (UartSession.take_buf q)
unfolding Follows Alike emptied
take_buf-Follows (ok _, s) (ok _, u) (h, e) = (ap (λ u. u.buf) e, ap emptied e)
take_buf-Follows (ok _, s) (err x, u) (h, e) = absurd h
take_buf-Follows (err x, s) (ok _, u) (h, e) = absurd h
take_buf-Follows (err x, s) (err y, u) (h, e) = (tt, e)

-- A read of an RTT session gives what it gives of a UART session on the same data, up to the text
-- of an error, and leaves the same data.
read-Follows :
    (wait : ℕ) (s : RttSession) → Follows (read wait s) (UartSession.read wait (as_uart s))
unfolding read UartSession.read
read-Follows wait s =
    take_buf-Follows (pump wait s) (UartSession.pump wait (as_uart s)) (pump-Follows wait s)

try_read-Follows : (s : RttSession) → Follows (try_read s) (UartSession.try_read (as_uart s))
unfolding try_read UartSession.try_read
try_read-Follows s = take_buf-Follows (pump 0 s) (UartSession.pump 0 (as_uart s)) (pump-Follows 0 s)

-- The bytes that are buffered, and those that still arrive.
abbrev pub stream_of : RttSession → Bytes
stream_of s = Stream.stream (as_uart s)

given-Alike : (r r' : Res Bytes) → Alike r r' → Stream.given r ≡ Stream.given r'
unfolding Alike
given-Alike (ok a) (ok b) h = h
given-Alike (ok a) (err y) h = absurd h
given-Alike (err x) (ok b) h = absurd h
given-Alike (err x) (err y) h = refl

-- A read of an RTT session gives bytes from the front of its stream and keeps the others.
pub read-stream :
    (wait : ℕ) (s : RttSession)
    → Stream.given (read wait s).0 ++ stream_of (read wait s).1 ≡ stream_of s
unfolding Follows
read-stream wait s =
    let (alike, same) = read-Follows wait s in
    ap (λ b. b ++ Stream.stream (as_uart (read wait s).1)) (given-Alike _ _ alike)
    ∙ ap (λ u. Stream.given (UartSession.read wait (as_uart s)).0 ++ Stream.stream u) same
    ∙ Stream.read-Keeps wait (as_uart s)

pub Answers : Option (Res Bytes × RttSession) → Option (Res Bytes × Uart) → Type 0
Answers none none = Unit
Answers (some p) (some q) = Follows p q
Answers none (some q) = ⊥
Answers (some p) none = ⊥

go_on-Answers :
    (f : RttSession → Option (Res Bytes × RttSession)) (g : Uart → Option (Res Bytes × Uart))
    (p : Res (Unit {0}) × RttSession) (q : Res (Unit {0}) × Uart)
    → Follows p q
    → ((s : RttSession) → Answers (f s) (g (as_uart s)))
    → Answers (go_on f p) (UartSession.go_on g q)
unfolding Follows Alike Answers
go_on-Answers f g (ok _, s) (ok _, u) (h, e) k = subst (λ u. Answers (f s) (g u)) e (k s)
go_on-Answers f g (ok _, s) (err y, u) (h, e) k = absurd h
go_on-Answers f g (err x, s) (ok _, u) (h, e) k = absurd h
go_on-Answers f g (err x, s) (err y, u) (h, e) k = (tt, e)

either_answer :
    (b : Bool) (x y : Option (Res Bytes × RttSession)) (x' y' : Option (Res Bytes × Uart))
    → Answers x x'
    → Answers y y'
    → Answers (if b then x else y) (if b then x' else y')
either_answer true x y x' y' h k = h
either_answer false x y x' y' h k = k

-- The loops behind the search for the pattern.
abbrev after_search :
    ℕ
    → Text × Text
    → Bytes
    → ℕ
    → RttSession
    → Option (Bytes × Bytes)
    → Option (Res Bytes × RttSession)
after_search fuel names needle deadline s (some (found, rest)) =
    some (ok found, record s { buf = rest })
after_search fuel names needle deadline s none =
    if leb deadline s.now
    then some (err (not_seen names s), s)
    else go_on (wait_loop fuel names needle deadline) (pump (deadline - s.now) s)

abbrev after_uart_search :
    ℕ → Text × Text → Bytes → ℕ → Uart → Option (Bytes × Bytes) → Option (Res Bytes × Uart)
after_uart_search fuel names needle deadline u (some (found, rest)) =
    some (ok found, record u { buf = rest })
after_uart_search fuel names needle deadline u none =
    if leb deadline u.now
    then some (err (UartSession.not_seen names u), u)
    else UartSession.go_on (UartSession.wait_loop fuel names needle deadline)
        (UartSession.pump (deadline - u.now) u)

wait_loop-Answers :
    (fuel : ℕ) (names : Text × Text) (needle : Bytes) (deadline : ℕ) (s : RttSession)
    → Answers
        (wait_loop fuel names needle deadline s)
        (UartSession.wait_loop fuel names needle deadline (as_uart s))
unfolding wait_loop UartSession.wait_loop Answers Follows Alike
wait_loop-Answers zero names needle deadline s = tt
wait_loop-Answers (suc fuel) names needle deadline s =
    elim (take_through s.buf needle)
      as (λ o.
        Answers (after_search fuel names needle deadline s o)
          (after_uart_search fuel names needle deadline (as_uart s) o)) [
            | some (found, rest) ↦ (refl, refl)
            | none ↦
                either_answer (leb deadline s.now) _ _ _ _ (tt, refl)
                  (go_on-Answers (wait_loop fuel names needle deadline)
                    (UartSession.wait_loop fuel names needle deadline) (pump (deadline - s.now) s)
                    (UartSession.pump (deadline - s.now) (as_uart s))
                    (pump-Follows (deadline - s.now) s)
                    (wait_loop-Answers fuel names needle deadline))
          ]

length-as_events : (rx : List (ℕ × RttEvent)) → length (as_events rx) ≡ length rx
length-as_events [] = refl
length-as_events ((t, e) ∷ rest) = ap suc (length-as_events rest)

-- A wait of an RTT session gives what it gives of a UART session on the same data, up to the text
-- of an error, and leaves the same data.
pub wait_for-Answers :
    (names : Text × Text) (needle : Bytes) (wait : ℕ) (s : RttSession)
    → Answers (wait_for names needle wait s) (UartSession.wait_for names needle wait (as_uart s))
unfolding wait_for UartSession.wait_for Answers Follows Alike
wait_for-Answers names [] wait s = (refl, refl)
wait_for-Answers names (b ∷ needle) wait s =
    subst
      (λ n.
        Answers (wait_loop (suc (suc (length s.rx))) names (b ∷ needle) (s.now + wait) s)
          (UartSession.wait_loop n names (b ∷ needle) (s.now + wait) (as_uart s)))
      (ap (λ n. suc (suc n)) (sym (length-as_events s.rx)))
      (wait_loop-Answers (suc (suc (length s.rx))) names (b ∷ needle) (s.now + wait) s)
