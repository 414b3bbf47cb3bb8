-- ===== src/AsyncBody/Body.antt =====
-- `AsyncBody` itself. What a read puts into its buffer stands in its answer.
use lager_rs.Prelude.{
  ℕ, zero, suc, ◌+◌, ◌-◌, min, Bool, true, false, Option, none, some, List, [], ◌∷◌, ◌++◌, Bytes,
  Result, ok, err, length, take, ltb, ◌==◌, if◌then◌else◌,
}
use lager_rs.Io.{IoError}
use lager_rs.Chunked.Size.{max_size_line, invalid, unexpected_eof, parse_size}
use lager_rs.Chunked.Reader.{State, size, in_data, data_end, trailers, done, strip_line}
use lager_rs.AsyncBody.Source.{
  Poll, ready, pending, Arrival, piece, nothing_yet, broken, Source, poll_fill_buf, consume,
}

pub data Framing : Type 0 where
  chunked : State → Framing
  of_length : ℕ → Framing
  until_close : Framing

pub record AsyncBody : Type 0 where
  pub inner : Source
  pub framing : Framing
  pub line : Bytes

unfoldable pub new : Source → Bool → Option ℕ → AsyncBody
new inner true length = record { inner = inner; framing = chunked size; line = [] }
new inner false (some n) = record { inner = inner; framing = of_length n; line = [] }
new inner false none = record { inner = inner; framing = until_close; line = [] }

-- The bytes up to and with the first newline and those behind it, and whether there is one.
unfoldable pub up_to_newline : Bytes → (Bytes × Bytes) × Bool
up_to_newline [] = (([], []), false)
up_to_newline (b ∷ bs) =
    let later = up_to_newline bs in
    if b == b'\n' then ((b ∷ [], bs), true) else ((b ∷ later.0.0, later.0.1), later.1)

-- What a poll for a line gives, the stream behind it, and the line read so far.
abbrev pub LinePoll : Type 0
LinePoll = Poll (Result IoError (Option Bytes)) × Source × Bytes

-- A turn of the loop of `poll_line` on available bytes, where `go_on` are the turns on what comes.
abbrev pub line_turn : List Arrival → (Bytes → LinePoll) → (Bytes × Bytes) × Bool → Bytes → LinePoll
line_turn coming go_on ((got, after), true) line =
    (ready (ok (some (strip_line (line ++ got)))), record { held = after; coming = coming }, [])
line_turn coming go_on ((got, after), false) line =
    if ltb (suc max_size_line) (length (line ++ got))
    then (
      ready (err (invalid "chunk-size line too long")),
      record { held = after; coming = coming },
      line ++ got,
    )
    else go_on (line ++ got)

abbrev pub line_at_end : List Arrival → Bytes → LinePoll
line_at_end coming [] = (ready (ok none), record { held = []; coming = coming }, [])
line_at_end coming (b ∷ line) = (
  ready (err (unexpected_eof "stream closed inside a chunk-size line")),
  record { held = []; coming = coming },
  b ∷ line,
)

-- The turns that find the buffer empty.
unfoldable pub line_coming : List Arrival → Bytes → LinePoll
unfolding up_to_newline
line_coming [] line = line_at_end [] line
line_coming (nothing_yet ∷ rest) line = (pending, record { held = []; coming = rest }, line)
line_coming (broken e ∷ rest) line = (ready (err e), record { held = []; coming = rest }, line)
line_coming (piece [] ∷ rest) line = line_at_end rest line
line_coming (piece (b ∷ p) ∷ rest) line =
    line_turn rest (line_coming rest) (up_to_newline (b ∷ p)) line

abbrev pub line_held : Bytes → List Arrival → Bytes → LinePoll
line_held [] coming line = line_coming coming line
line_held (b ∷ held) coming line =
    line_turn coming (line_coming coming) (up_to_newline (b ∷ held)) line

-- `AsyncBody::poll_line`
unfoldable pub poll_line : Source → Bytes → LinePoll
unfolding line_coming up_to_newline
poll_line s line = line_held s.held s.coming line

abbrev pub copied : ℕ → Poll (Result IoError Bytes) × Source → Poll (Result IoError Bytes) × Source
copied limit (pending, s) = (pending, s)
copied limit (ready (err e), s) = (ready (err e), s)
copied limit (ready (ok available), s) =
    let n = min (length available) limit in (ready (ok (take n available)), consume n s)

-- `AsyncBody::poll_payload`, which puts at most `limit` bytes
unfoldable pub poll_payload : ℕ → Source → Poll (Result IoError Bytes) × Source
unfolding poll_fill_buf
poll_payload limit s = copied limit (poll_fill_buf s)

-- One turn of the loop of `poll_read`.
pub data Turn : Type 0 where
  give : Poll (Result IoError Bytes) → AsyncBody → Turn
  again : AsyncBody → Turn

abbrev pub body_at : Framing → Source → Bytes → AsyncBody
body_at f s line = record { inner = s; framing = f; line = line }

-- What a poll for payload makes of a framing with `left` bytes to come.
abbrev pub payload_turn :
    Framing → (ℕ → Framing) → IoError → ℕ → Bytes → Poll (Result IoError Bytes) × Source → Turn
payload_turn now later eof left line (pending, s) = give pending (body_at now s line)
payload_turn now later eof left line (ready (err e), s) = give (ready (err e)) (body_at now s line)
payload_turn now later eof left line (ready (ok []), s) =
    give (ready (err eof)) (body_at now s line)
payload_turn now later eof left line (ready (ok (b ∷ bs)), s) =
    give (ready (ok (b ∷ bs))) (body_at (later (left - length (b ∷ bs))) s line)

-- Where a chunk with this much left stands after a read.
abbrev pub in_chunk : ℕ → Framing
in_chunk zero = chunked data_end
in_chunk (suc n) = chunked (in_data (suc n))

abbrev pub after_size : Result IoError ℕ → Source → Bytes → Turn
after_size (err e) s line = give (ready (err e)) (body_at (chunked size) s line)
after_size (ok zero) s line = again (body_at (chunked trailers) s line)
after_size (ok (suc n)) s line = again (body_at (chunked (in_data (suc n))) s line)

abbrev pub size_turn : LinePoll → Turn
size_turn (pending, s, line) = give pending (body_at (chunked size) s line)
size_turn (ready (err e), s, line) = give (ready (err e)) (body_at (chunked size) s line)
size_turn (ready (ok none), s, line) = again (body_at (chunked done) s line)
size_turn (ready (ok (some l)), s, line) = after_size (parse_size l) s line

abbrev pub end_turn : LinePoll → Turn
end_turn (pending, s, line) = give pending (body_at (chunked data_end) s line)
end_turn (ready (err e), s, line) = give (ready (err e)) (body_at (chunked data_end) s line)
end_turn (ready (ok none), s, line) =
    give (ready (err (unexpected_eof "stream closed before a chunk's CRLF")))
      (body_at (chunked data_end) s line)
end_turn (ready (ok (some [])), s, line) = again (body_at (chunked size) s line)
end_turn (ready (ok (some (b ∷ l))), s, line) =
    give (ready (err (invalid "chunk payload longer than its size")))
      (body_at (chunked data_end) s line)

abbrev pub trailers_turn : LinePoll → Turn
trailers_turn (pending, s, line) = give pending (body_at (chunked trailers) s line)
trailers_turn (ready (err e), s, line) = give (ready (err e)) (body_at (chunked trailers) s line)
trailers_turn (ready (ok none), s, line) = again (body_at (chunked done) s line)
trailers_turn (ready (ok (some [])), s, line) = again (body_at (chunked done) s line)
trailers_turn (ready (ok (some (b ∷ l))), s, line) = again (body_at (chunked trailers) s line)

abbrev pub close_turn : Bytes → Poll (Result IoError Bytes) × Source → Turn
close_turn line (r, s) = give r (body_at until_close s line)

unfoldable pub turn_in : Framing → ℕ → Source → Bytes → Turn
unfolding poll_payload poll_line parse_size
turn_in until_close want s line = close_turn line (poll_payload want s)
turn_in (of_length zero) want s line = give (ready (ok [])) (body_at (of_length zero) s line)
turn_in (of_length (suc n)) want s line =
    payload_turn (of_length (suc n)) of_length (unexpected_eof "stream closed inside the body")
      (suc n) line (poll_payload (min want (suc n)) s)
turn_in (chunked done) want s line = give (ready (ok [])) (body_at (chunked done) s line)
turn_in (chunked (in_data left)) want s line =
    payload_turn (chunked (in_data left)) in_chunk (unexpected_eof "stream closed inside a chunk")
      left line (poll_payload (min want left) s)
turn_in (chunked size) want s line = size_turn (poll_line s line)
turn_in (chunked data_end) want s line = end_turn (poll_line s line)
turn_in (chunked trailers) want s line = trailers_turn (poll_line s line)

unfoldable pub poll_loop : ℕ → ℕ → AsyncBody → Poll (Result IoError Bytes) × AsyncBody
unfolding turn_in
poll_loop zero want b = (pending, b)
poll_loop (suc fuel) want b = elim (turn_in b.framing want b.inner b.line) [
  | give a b' ↦ (a, b')
  | again b' ↦ poll_loop fuel want b'
]

abbrev pub bytes_in : List Arrival → Bytes
bytes_in [] = []
bytes_in (piece p ∷ rest) = p ++ bytes_in rest
bytes_in (nothing_yet ∷ rest) = bytes_in rest
bytes_in (broken e ∷ rest) = bytes_in rest

abbrev pub stream : Source → Bytes
stream s = s.held ++ bytes_in s.coming

-- `AsyncRead::poll_read` into a buffer of `want` bytes. A turn that goes round again takes a
-- line from the stream, or the next one ends the loop.
unfoldable pub poll_read : ℕ → AsyncBody → Poll (Result IoError Bytes) × AsyncBody
unfolding poll_loop
poll_read want b =
    if want == 0 then (ready (ok []), b) else poll_loop (3 + length (stream b.inner)) want b
