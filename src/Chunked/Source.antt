-- ===== src/Chunked/Source.antt =====
-- The byte stream under a decoder: a `BufReader` over a connection. `rest` is what the peer still
-- sends. `grants` says how much each read hands out (one more byte than the number, and as much
-- as there is when the list is used up), so a theorem for every `grants` holds however the
-- network cuts the stream. `fault` is the error that the connection ends with, if it does.
use lager_rs.Prelude.{
  ℕ, zero, suc, min, Bool, false, ◌||◌, Option, none, some, List, [], ◌∷◌, Bytes, Result, ok, err,
  length, take, drop, last, ◌==◌, if◌then◌else◌,
}
use lager_rs.Io.{IoError}

pub record Source : Type 0 where
  pub rest : Bytes
  pub grants : List ℕ
  pub fault : Option IoError

-- At the end of the stream: nothing more, or the connection's error.
abbrev pub at_end : Source → Bytes → Result IoError Bytes
at_end s got = elim s.fault [ none ↦ ok got | some e ↦ err e ]

-- The bytes up to and with the first newline, `limit` at most, and what follows them.
unfoldable pub cut_line : ℕ → Bytes → Bytes × Bytes
cut_line zero bs = ([], bs)
cut_line (suc k) [] = ([], [])
cut_line (suc k) (b ∷ bs) =
    let later = cut_line k bs in if b == b'\n' then (b ∷ [], bs) else (b ∷ later.0, later.1)

abbrev pub ends_line : Option ℕ → Bool
ends_line none = false
ends_line (some c) = c == b'\n'

-- `take(limit).read_until(b'\n')`
unfoldable pub read_until : ℕ → Source → Result IoError Bytes × Source
unfolding cut_line
read_until limit s =
    let (line, after) = cut_line limit s.rest in
    let s' = record s { rest = after } in
    if ends_line (last line) || length line == limit then (ok line, s') else (at_end s line, s')

abbrev pub next_grant : List ℕ → ℕ → ℕ
next_grant [] all = all
next_grant (g ∷ gs) all = suc g

abbrev pub later_grants : List ℕ → List ℕ
later_grants [] = []
later_grants (g ∷ gs) = gs

abbrev pub granted : Source → ℕ → ℕ
granted s want = min (min want (length s.rest)) (next_grant s.grants (length s.rest))

abbrev pub hand_out : ℕ → Source → Bytes → Result IoError Bytes × Source
hand_out n s [] = (at_end s [], s)
hand_out n s (b ∷ bs) =
    (ok (take n (b ∷ bs)), record s { rest = drop n (b ∷ bs); grants = later_grants s.grants })

-- `read` into a buffer of `want` bytes
unfoldable pub read_some : ℕ → Source → Result IoError Bytes × Source
read_some want s = hand_out (granted s want) s s.rest
