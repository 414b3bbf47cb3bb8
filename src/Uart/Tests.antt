-- ===== src/Uart/Tests.antt =====
-- Sessions with a few events, and instances of the theorems on them.
use lager_rs.Prelude.{
  ◌≡◌, refl, none, some, List, [], ◌∷◌, ok, err, str, ℕ, ◌≤◌, ◌>>=?◌, split_once,
}
use lager_rs.Error.{Res}
use lager_rs.Sio.{take_through}
use lager_rs.Uart.Events.{UartEvent, received, status}
use lager_rs.Uart.Session.{Uart, closed, pump_loop, pump, read, try_read, wait_loop, wait_for}
use lager_rs.Uart.Stream as Stream
use lager_rs.Uart.Calls.{Call, reading, polling, waiting, session, Serves, perform, session-Serves}
use lager_rs.Uart.Twins.{async_read, absorb, drain_loop, drain, pump_to_loop, pump_to}
use lager_rs.Uart.Agree.{IsPrompt, read-async}
use lager_rs.Uart.Deadlines.{async_read-timeout}

abbrev uart_with : List (ℕ × UartEvent) → Uart
uart_with rx = record {
  now = 0;
  rx = rx;
  closes = some 200;
  netname = str "uart1";
  device_path = str "/dev/ttyUSB0";
  baudrate = 115200;
  buf = [];
  last_status = none;
}

abbrev at_boot : Uart
at_boot = uart_with (
    (10, received (str "boot\nrea"))
    ∷ (30, status (str "reconnecting"))
    ∷ (60, received (str "dy\n"))
    ∷ [])

abbrev calls : List Call
calls =
    waiting (str "boot", str "1s") (str "boot") 1000
    ∷ polling
    ∷ waiting (str "dy", str "1s") (str "dy") 90
    ∷ reading 500
    ∷ []

replies : List (Res (List ℕ))
replies = ok (str "boot") ∷ ok (str "\nrea") ∷ ok (str "dy") ∷ err closed ∷ []

session_run : session calls at_boot >>=? (λ p. some p.0) ≡ some replies
unfolding session perform read try_read wait_for wait_loop pump pump_loop take_through split_once
    replies
session_run = refl

session-Serves_example :
    (replies : List (Res (List ℕ))) × (u' : Uart) × (session calls at_boot ≡ some (replies, u'))
    × Serves (Stream.stream at_boot) calls replies (Stream.stream u')
session-Serves_example = session-Serves calls at_boot

abbrev reconnecting : Uart
reconnecting = uart_with ((30, status (str "reconnected")) ∷ (70, received (str "ok")) ∷ [])

-- After the status the blocking session waits its 50 ms again, and the async one does not.
read_late : read 50 reconnecting ≡ (
  ok (str "ok"),
  record reconnecting { now = 70; rx = []; last_status = some (str "reconnected") },
)
unfolding read pump pump_loop
read_late = refl

async_read_early : (async_read 50 reconnecting).0 ≡ ok []
unfolding async_read pump_to pump_to_loop absorb drain drain_loop
async_read_early = refl

async_read-timeout_example : (async_read 50 reconnecting).1.now ≤ 50
async_read-timeout_example = async_read-timeout 50 reconnecting

read-async_example : read 50 at_boot ≡ async_read 50 at_boot
unfolding IsPrompt
read-async_example = read-async 50 at_boot tt
