-- ===== src/Sio/Tests.antt =====
-- A buffer with two lines, and an instance of the theorem on it.
use lager_rs.Prelude.{◌≡◌, refl, some, ◌++◌, Bytes, str, split_once}
use lager_rs.Sio.{take_through, take_through-stable}

abbrev lines : Bytes
lines = str "boot\nready\n"

take_boot : take_through lines (str "\n") ≡ some (str "boot\n", str "ready\n")
unfolding take_through split_once
take_boot = refl

take_through-stable_example :
    (lines ≡ str "boot\n" ++ str "ready\n")
    × ((before : Bytes) × (str "boot\n" ≡ before ++ str "\n"))
    × (take_through (lines ++ str "ok") (str "\n") ≡ some (str "boot\n", str "ready\n" ++ str "ok"))
take_through-stable_example =
    take_through-stable lines (str "\n") (str "boot\n") (str "ready\n") (str "ok") take_boot
