-- ===== src/Chunked/Reader.antt =====
-- `ChunkedReader` of chunked.rs, the blocking decoder.
use lager_rs.Prelude.{
  ℕ, zero, suc, ◌+◌, ◌-◌, min, Bool, false, Option, none, some, [], ◌∷◌, Bytes, Result, ok, err,
  length, last, pop, is_empty, ltb, ◌==◌, if◌then◌else◌,
}
use lager_rs.Io.{IoError}
use lager_rs.Chunked.Size.{max_size_line, invalid, unexpected_eof, parse_size}
use lager_rs.Chunked.Source.{Source, ends_line, read_until, read_some}

-- `in_data n`: inside a chunk with `n` payload bytes left.
pub data State : Type 0 where
  size : State
  in_data : ℕ → State
  data_end trailers done : State

pub record ChunkedReader : Type 0 where
  pub inner : Source
  pub state : State

unfoldable pub new : Source → ChunkedReader
new inner = record { inner = inner; state = size }

-- Without its newline, and without the carriage return before it.
abbrev pub is_return : Option ℕ → Bool
is_return none = false
is_return (some c) = c == b'\r'

abbrev pub strip_line : Bytes → Bytes
strip_line line = let line' = pop line in if is_return (last line') then pop line' else line'

unfoldable pub judge_line : Bytes → Result IoError (Option Bytes)
judge_line line =
    if length line == 0
    then ok none
    else if ends_line (last line)
    then ok (some (strip_line line))
    else if ltb max_size_line (length line)
    then err (invalid "chunk-size line too long")
    else err (unexpected_eof "stream closed inside a chunk-size line")

abbrev pub judge_read : Result IoError Bytes × Source → Result IoError (Option Bytes) × Source
judge_read (ok line, s) = (judge_line line, s)
judge_read (err e, s) = (err e, s)

-- `none`: the stream closed before any byte of the line.
unfoldable pub read_line : Source → Result IoError (Option Bytes) × Source
unfolding judge_line
read_line s = judge_read (read_until (max_size_line + 2) s)

-- One turn of the loop in `skip_trailers`: leave it with a result, or go round again.
pub data Skip : Type 0 where
  stop : Result IoError (Unit {0}) → Source → Skip
  again : Source → Skip

abbrev pub judge_trailer : Result IoError (Option Bytes) × Source → Skip
judge_trailer (err e, s) = stop (err e) s
judge_trailer (ok none, s) = stop (ok tt) s
judge_trailer (ok (some []), s) = stop (ok tt) s
judge_trailer (ok (some (c ∷ line)), s) = again s

unfoldable pub skip_turn : Source → Skip
skip_turn s = judge_trailer (read_line s)

unfoldable pub skip_loop : ℕ → Source → Result IoError (Unit {0}) × Source
skip_loop zero s = (ok tt, s)
skip_loop (suc fuel) s = elim (skip_turn s) [ stop r s' ↦ (r, s') | again s' ↦ skip_loop fuel s' ]

-- Each turn that goes round again has read a line, so the length of the stream bounds the turns.
unfoldable pub skip_trailers : Source → Result IoError (Unit {0}) × Source
skip_trailers s = skip_loop (suc (length s.rest)) s

-- One turn of the loop in `read`.
pub data Turn : Type 0 where
  give : Result IoError Bytes → ChunkedReader → Turn
  again : ChunkedReader → Turn

abbrev pub at_state : State → Source → ChunkedReader
at_state st s = record { inner = s; state = st }

-- `?` on a failed `skip_trailers` leaves the state as it was.
abbrev pub after_trailers : State → Result IoError (Unit {0}) × Source → Turn
after_trailers st (ok _, s) = again (at_state done s)
after_trailers st (err e, s) = give (err e) (at_state st s)

abbrev pub after_size : Result IoError ℕ → Source → Turn
after_size (err e) s = give (err e) (at_state size s)
after_size (ok zero) s = after_trailers size (skip_trailers s)
after_size (ok (suc n)) s = again (at_state (in_data (suc n)) s)

abbrev pub size_turn : Result IoError (Option Bytes) × Source → Turn
size_turn (err e, s) = give (err e) (at_state size s)
size_turn (ok none, s) = give (ok []) (at_state done s)
size_turn (ok (some line), s) = after_size (parse_size line) s

abbrev pub data_turn : ℕ → Result IoError Bytes × Source → Turn
data_turn left (err e, s) = give (err e) (at_state (in_data left) s)
data_turn left (ok [], s) =
    give (err (unexpected_eof "stream closed inside a chunk")) (at_state (in_data left) s)
data_turn left (ok (b ∷ bs), s) =
    let left' = left - length (b ∷ bs) in
    give (ok (b ∷ bs)) (at_state (if left' == 0 then data_end else in_data left') s)

abbrev pub end_turn : Result IoError (Option Bytes) × Source → Turn
end_turn (err e, s) = give (err e) (at_state data_end s)
end_turn (ok none, s) =
    give (err (unexpected_eof "stream closed before a chunk's CRLF")) (at_state data_end s)
end_turn (ok (some line), s) =
    if is_empty line
    then again (at_state size s)
    else give (err (invalid "chunk payload longer than its size")) (at_state data_end s)

unfoldable pub turn_in : State → ℕ → Source → Turn
turn_in done want s = give (ok []) (at_state done s)
turn_in trailers want s = after_trailers trailers (skip_trailers s)
turn_in size want s = size_turn (read_line s)
turn_in (in_data left) want s = data_turn left (read_some (min want left) s)
turn_in data_end want s = end_turn (read_line s)

unfoldable pub read_loop : ℕ → ℕ → ChunkedReader → Result IoError Bytes × ChunkedReader
unfolding turn_in
read_loop zero want r = (ok [], r)
read_loop (suc fuel) want r = elim (turn_in r.state want r.inner) [
  | give a r' ↦ (a, r')
  | again r' ↦ read_loop fuel want r'
]

-- `Read::read` into a buffer of `want` bytes. A turn that goes round again moves along
-- `data_end`, `size`, then `in_data` or `done`, so four turns are enough.
unfoldable pub read : ℕ → ChunkedReader → Result IoError Bytes × ChunkedReader
unfolding read_loop
read want r = if want == 0 then (ok [], r) else read_loop 4 want r
