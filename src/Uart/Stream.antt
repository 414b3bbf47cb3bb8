-- ===== src/Uart/Stream.antt =====
-- A UART session as a stream of bytes: what is buffered, and what still arrives.
use lager_rs.Prelude.{
  ℕ, ◌+◌, ◌≡◌, refl, sym, ap, ◌∙◌, Bool, true, false, none, some, List, [], ◌∷◌, ◌++◌, append_assoc,
  Bytes, ok, err, leb, if◌then◌else◌,
}
use lager_rs.Error.{Res}
use lager_rs.Uart.Events.{UartEvent, connected, received, status, failed, stopped}
use lager_rs.Uart.Session.{Uart, wait_out, arrive, pump_loop, pump, take_buf, read, try_read}

abbrev pub bytes_of : UartEvent → Bytes
bytes_of (received bytes) = bytes
bytes_of (connected path rate) = []
bytes_of (status s) = []
bytes_of (failed e) = []
bytes_of stopped = []

abbrev pub arriving : List (ℕ × UartEvent) → Bytes
arriving [] = []
arriving ((t, e) ∷ rest) = bytes_of e ++ arriving rest

abbrev pub stream : Uart → Bytes
stream u = u.buf ++ arriving u.rx

-- What a call gave to its caller.
abbrev pub given : Res Bytes → Bytes
given (ok bytes) = bytes
given (err e) = []

-- A call that ends in one of two ways keeps what both keep.
either_way :
    {R : Type 0} (b : Bool) (x y : R × Uart) (bytes : Bytes)
    → stream x.1 ≡ bytes
    → stream y.1 ≡ bytes
    → stream (if b then x else y).1 ≡ bytes
either_way true x y bytes h k = h
either_way false x y bytes h k = k

wait_out-stream : (limit : ℕ) (u : Uart) → stream (wait_out limit u).1 ≡ stream u
wait_out-stream limit u =
    elim u.closes as (λ o. stream (wait_out limit (record u { closes = o })).1 ≡ stream u) [
      | none ↦ refl
      | some t ↦ either_way (leb t limit) _ _ (stream u) refl refl
    ]

stream_of :
    (u : Uart) {rest : List (ℕ × UartEvent)} → u.rx ≡ rest → stream u ≡ u.buf ++ arriving rest
stream_of u h = ap (λ r. u.buf ++ arriving r) h

pump_loop-stream :
    (wait : ℕ) (rest : List (ℕ × UartEvent)) (u : Uart)
    → u.rx ≡ rest
    → stream (pump_loop wait rest u).1 ≡ stream u
unfolding pump_loop
pump_loop-stream wait [] u h = wait_out-stream (u.now + wait) u
pump_loop-stream wait ((t, received bytes) ∷ rest) u h =
    either_way (leb t (u.now + wait)) _ _ (stream u)
      (pump_loop-stream 0 rest (record (arrive t rest u) { buf = u.buf ++ bytes }) refl
        ∙ append_assoc u.buf bytes (arriving rest)
        ∙ sym (stream_of u h))
      refl
pump_loop-stream wait ((t, failed error) ∷ rest) u h =
    either_way (leb t (u.now + wait)) _ _ (stream u) (sym (stream_of u h)) refl
pump_loop-stream wait ((t, status s) ∷ rest) u h =
    either_way (leb t (u.now + wait)) _ _ (stream u)
      (pump_loop-stream wait rest (record (arrive t rest u) { last_status = some s }) refl
        ∙ sym (stream_of u h))
      refl
pump_loop-stream wait ((t, connected path rate) ∷ rest) u h =
    either_way (leb t (u.now + wait)) _ _ (stream u)
      (pump_loop-stream wait rest (arrive t rest u) refl ∙ sym (stream_of u h)) refl
pump_loop-stream wait ((t, stopped) ∷ rest) u h =
    either_way (leb t (u.now + wait)) _ _ (stream u)
      (pump_loop-stream wait rest (arrive t rest u) refl ∙ sym (stream_of u h)) refl

pub pump-stream : (wait : ℕ) (u : Uart) → stream (pump wait u).1 ≡ stream u
unfolding pump
pump-stream wait u = pump_loop-stream wait u.rx u refl

-- A call gives bytes from the front of the stream, and the others stay.
abbrev pub Keeps : Res Bytes × Uart → Bytes → Type 0
Keeps (r, u) bytes = given r ++ stream u ≡ bytes

take_buf-Keeps : (p : Res (Unit {0}) × Uart) → Keeps (take_buf p) (stream p.1)
take_buf-Keeps (err e, u) = refl
take_buf-Keeps (ok _, u) = refl

pub read-Keeps : (wait : ℕ) (u : Uart) → Keeps (read wait u) (stream u)
unfolding read
read-Keeps wait u = take_buf-Keeps (pump wait u) ∙ pump-stream wait u

pub try_read-Keeps : (u : Uart) → Keeps (try_read u) (stream u)
unfolding try_read
try_read-Keeps u = take_buf-Keeps (pump 0 u) ∙ pump-stream 0 u
