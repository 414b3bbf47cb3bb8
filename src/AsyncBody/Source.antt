-- ===== src/AsyncBody/Source.antt =====
-- The stream under an async body, as its `BufReader` shows it. `held` is what is buffered, and
-- `coming` what the connection answers to the polls: bytes, none of them at its end, that there
-- is nothing yet, or an error.
use lager_rs.Prelude.{ℕ, List, [], ◌∷◌, Bytes, Result, ok, err, drop}
use lager_rs.Io.{IoError}

pub data Poll {ℓ} (A : Type ℓ) : Type ℓ where
  ready : A → Poll A
  pending : Poll A

pub data Arrival : Type 0 where
  piece : Bytes → Arrival
  nothing_yet : Arrival
  broken : IoError → Arrival

pub record Source : Type 0 where
  pub held : Bytes
  pub coming : List Arrival

-- The connection's answer when nothing is buffered.
abbrev pub poll_coming : List Arrival → Poll (Result IoError Bytes) × Source
poll_coming [] = (ready (ok []), record { held = []; coming = [] })
poll_coming (piece p ∷ rest) = (ready (ok p), record { held = p; coming = rest })
poll_coming (nothing_yet ∷ rest) = (pending, record { held = []; coming = rest })
poll_coming (broken e ∷ rest) = (ready (err e), record { held = []; coming = rest })

-- `poll_fill_buf`
abbrev pub poll_held : Bytes → List Arrival → Poll (Result IoError Bytes) × Source
poll_held [] coming = poll_coming coming
poll_held (b ∷ held) coming = (ready (ok (b ∷ held)), record { held = b ∷ held; coming = coming })

unfoldable pub poll_fill_buf : Source → Poll (Result IoError Bytes) × Source
poll_fill_buf s = poll_held s.held s.coming

abbrev pub consume : ℕ → Source → Source
consume n s = record s { held = drop n s.held }
