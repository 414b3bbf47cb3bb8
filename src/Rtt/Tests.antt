-- ===== src/Rtt/Tests.antt =====
-- Runs of an RTT session.
use lager_rs.Prelude.{◌≡◌, refl, none, some, [], ◌∷◌, ok, str, split_once}
use lager_rs.Sio.{take_through}
use lager_rs.Rtt.Events.{received, failed}
use lager_rs.Rtt.Session.{RttSession, pump_loop, pump, read, wait_loop, wait_for}
use lager_rs.Rtt.Twins.{async_read, absorb, drain_loop, drain, pump_to_loop, pump_to}

abbrev at_start : RttSession
at_start = record {
  now = 0;
  rx =
      (10, received (str "boot\nre"))
      ∷ (40, received (str "ady\n"))
      ∷ (60, failed (str "probe lost"))
      ∷ [];
  closes = none;
  netname = str "debug1";
  channel = 0;
  backend = str "jlink";
  buf = [];
}

read_boot : (read 20 at_start).0 ≡ ok (str "boot\nre")
unfolding read pump pump_loop
read_boot = refl

async_read_boot : (async_read 20 at_start).0 ≡ ok (str "boot\nre")
unfolding async_read pump_to pump_to_loop absorb drain drain_loop
async_read_boot = refl

wait_for_dy :
    wait_for (str "dy", str "1s") (str "dy") 1000 at_start
    ≡ some (
      ok (str "boot\nready"),
      record at_start { now = 40; rx = (60, failed (str "probe lost")) ∷ []; buf = str "\n" },
    )
unfolding wait_for wait_loop pump pump_loop take_through split_once
wait_for_dy = refl
