-- ===== src/Chunked/Turns.antt =====
-- The loop of `ChunkedReader::read` ends within four turns, on every stream.
use lager_rs.Prelude.{
  ℕ, zero, suc, ◌≤◌, ◌<◌, false, ◌≡◌, ◌⊎◌, refl, ◌∙◌, Option, none, some, [], ◌∷◌, Bytes, Result,
  ok, err, inl, inr, arith, sym, subst, ◌==◌, min,
}
use lager_rs.Io.{IoError}
use lager_rs.Chunked.Source.{Source, read_some}
use lager_rs.Chunked.Reader.{
  State, size, in_data, data_end, trailers, done, ChunkedReader, read_line, skip_trailers, Turn,
  give, again, after_trailers, after_size, size_turn, data_turn, end_turn, turn_in, read_loop, read,
}
use lager_rs.Chunked.Size.{parse_size}

-- How many turns a state may take.
abbrev rank : State → ℕ
rank done = 1
rank (in_data n) = 1
rank trailers = 2
rank size = 2
rank data_end = 3

-- A turn that goes round again has come nearer to its end.
abbrev Falls : ℕ → Turn → Type 0
Falls n (give a r) = Unit
Falls n (again r) = rank r.state < n

after_trailers-Falls :
    (st : State) (x : Result IoError (Unit {0}) × Source) → Falls 2 (after_trailers st x)
after_trailers-Falls st (ok _, s) = omega arith
after_trailers-Falls st (err e, s) = tt

after_size-Falls : (x : Result IoError ℕ) (s : Source) → Falls 2 (after_size x s)
after_size-Falls (err e) s = tt
after_size-Falls (ok zero) s = after_trailers-Falls size (skip_trailers s)
after_size-Falls (ok (suc n)) s = omega arith

size_turn-Falls : (x : Result IoError (Option Bytes) × Source) → Falls 2 (size_turn x)
unfolding parse_size
size_turn-Falls (err e, s) = tt
size_turn-Falls (ok none, s) = tt
size_turn-Falls (ok (some l), s) = after_size-Falls (parse_size l) s

data_turn-Falls : (n : ℕ) (x : Result IoError Bytes × Source) → Falls 1 (data_turn n x)
data_turn-Falls n (err e, s) = tt
data_turn-Falls n (ok [], s) = tt
data_turn-Falls n (ok (b ∷ bs), s) = tt

end_turn-Falls : (x : Result IoError (Option Bytes) × Source) → Falls 3 (end_turn x)
end_turn-Falls (err e, s) = tt
end_turn-Falls (ok none, s) = tt
end_turn-Falls (ok (some []), s) = omega arith
end_turn-Falls (ok (some (c ∷ l)), s) = tt

turn_in-Falls : (st : State) (want : ℕ) (s : Source) → Falls (rank st) (turn_in st want s)
unfolding turn_in
turn_in-Falls done want s = tt
turn_in-Falls trailers want s = after_trailers-Falls trailers (skip_trailers s)
turn_in-Falls size want s = size_turn-Falls (read_line s)
turn_in-Falls (in_data n) want s = data_turn-Falls n (read_some (min want n) s)
turn_in-Falls data_end want s = end_turn-Falls (read_line s)

Turn-cases :
    (t : Turn)
    → ((a : Result IoError Bytes) × (r : ChunkedReader) × (t ≡ give a r))
      ⊎ ((r : ChunkedReader) × (t ≡ again r))
Turn-cases (give a r) = inl (a, r, refl)
Turn-cases (again r) = inr (r, refl)

rank_pos : (st : State) → 0 < rank st
rank_pos done = omega arith
rank_pos (in_data n) = omega arith
rank_pos trailers = omega arith
rank_pos size = omega arith
rank_pos data_end = omega arith

rank_bound : (st : State) → rank st ≤ 3
rank_bound done = omega arith
rank_bound (in_data n) = omega arith
rank_bound trailers = omega arith
rank_bound size = omega arith
rank_bound data_end = omega arith

turn_falls :
    (st : State) (want : ℕ) (s : Source) {r : ChunkedReader}
    → turn_in st want s ≡ again r
    → rank r.state < rank st
turn_falls st want s e = subst (Falls (rank st)) e (turn_in-Falls st want s)

read_loop_fuel :
    (f g want : ℕ) (r : ChunkedReader)
    → rank r.state ≤ f
    → rank r.state ≤ g
    → read_loop f want r ≡ read_loop g want r
unfolding read_loop
read_loop_fuel zero g want r h k = absurd (omega (arith, rank_pos r.state))
read_loop_fuel (suc f) zero want r h k = absurd (omega (arith, rank_pos r.state))
read_loop_fuel (suc f) (suc g) want r h k = elim (Turn-cases (turn_in r.state want r.inner)) [
  | inl (a, r', e) ↦ rw (e, read_loop)
  | inr (r', e) ↦
      let m = turn_falls r.state want r.inner e in
      rw (e, read_loop) (read_loop_fuel f g want r' (omega arith) (omega arith))
]

abbrev pub read_on : ℕ → Turn → Result IoError Bytes × ChunkedReader
read_on want (give a r) = (a, r)
read_on want (again r) = read want r

read_eq_loop : (want : ℕ) (r : ChunkedReader) → 0 < want → read want r ≡ read_loop 4 want r
unfolding read
read_eq_loop want r h = let e : (want == 0) ≡ false = ground arith in rw e

-- `read` is its loop: for a buffer with room it makes one turn, and is then itself again from the
-- state that the turn left, unless the turn gave the result. So four turns are never too few.
pub read_lem :
    (want : ℕ) (r : ChunkedReader)
    → 0 < want
    → read want r ≡ read_on want (turn_in r.state want r.inner)
unfolding read_loop
read_lem want r h = read_eq_loop want r h ∙ elim (Turn-cases (turn_in r.state want r.inner)) [
  | inl (a, r', e) ↦ rw (e, read_loop)
  | inr (r', e) ↦
      let m = turn_falls r.state want r.inner e in
      rw (e, read_loop)
        (read_loop_fuel 3 4 want r' (omega (arith, rank_bound r.state))
            (omega (arith, rank_bound r'.state))
          ∙ sym (read_eq_loop want r' h))
]
