-- ===== src/AsyncBody/Tests.antt =====
-- Bodies that arrive in pieces, and instances of the theorem on them.
use lager_rs.Prelude.{
  ℕ, zero, suc, ◌≡◌, refl, none, some, true, [], ◌∷◌, ◌++◌, List, Bytes, str, ok, err, from_utf8,
  parse_radix, trim, arith,
}
use lager_rs.Chunked.Size.{parse_size, invalid}
use lager_rs.Chunked.Framing.{Framed, IsSize, crlf, chunk, final, blank}
use lager_rs.Chunked.Decode.{at_size}
use lager_rs.Chunked.Source as Blocking
use lager_rs.Chunked.Reader.{read_line, judge_line}
use lager_rs.AsyncBody.Source.{ready, Arrival, piece, nothing_yet, poll_fill_buf}
use lager_rs.AsyncBody.Body.{
  AsyncBody, new, up_to_newline, line_coming, poll_line, poll_payload, turn_in, poll_loop,
  poll_read,
}
use lager_rs.AsyncBody.Pieces.{IsSound}
use lager_rs.AsyncBody.Decode.{LineFits, Carries}
use lager_rs.AsyncBody.Collect.{collect, collect-payload}

abbrev arrivals : List Arrival
arrivals =
    piece (str "5\r")
    ∷ nothing_yet
    ∷ piece (str "\nhel")
    ∷ piece (str "lo\r\n0")
    ∷ nothing_yet
    ∷ nothing_yet
    ∷ piece (str "\r\n\r\n")
    ∷ []

abbrev hello : AsyncBody
hello = new (record { held = []; coming = arrivals }) true none

collect-hello : collect 9 (λ k. 2) 0 hello ≡ some (ok (str "hello"))
unfolding collect new poll_read poll_loop turn_in poll_line line_coming up_to_newline poll_payload
    poll_fill_buf parse_size from_utf8 parse_radix trim
collect-hello = refl

IsSize-five : IsSize (str "5") 5
unfolding parse_size from_utf8 parse_radix trim
IsSize-five = record { line_ok = record { plain = refl; fits = omega arith }; value = refl }

IsSize-zero : IsSize (str "0") 0
unfolding parse_size from_utf8 parse_radix trim
IsSize-zero = record { line_ok = record { plain = refl; fits = omega arith }; value = refl }

hello-Framed : Framed (str "5\r\nhello\r\n0\r\n\r\n") (str "hello")
hello-Framed =
    chunk (str "5") (str "\r\n") (str "hello") (str "\r\n") (str "0\r\n\r\n") [] IsSize-five
      (omega arith) (crlf refl) (crlf refl)
      (final (str "0") (str "\r\n") (str "\r\n") IsSize-zero (crlf refl)
        (blank (str "\r\n") [] (crlf refl) refl) refl refl)
      refl refl

collect-payload_example : collect 9 (λ k. 2) 0 hello ≡ some (ok (str "hello"))
unfolding new Carries LineFits IsSound
collect-payload_example =
    collect-payload 9 (λ k. 2) 0 hello (str "hello") (omega arith)
      ((at_size hello-Framed, refl), tt)

spaces : ℕ → Bytes
spaces zero = []
spaces (suc n) = b' ' ∷ spaces n

long_line : Bytes
unfolding spaces
long_line = b'5' ∷ b';' ∷ spaces 1100 ++ str "\r\n"

-- A line that the blocking decoder refuses for its length, and the async one takes.
blocking_long :
    (read_line (record { rest = long_line; grants = []; fault = none })).0
    ≡ err (invalid "chunk-size line too long")
unfolding read_line Blocking.read_until Blocking.cut_line judge_line long_line spaces
blocking_long = refl

async_long :
    (poll_line (record { held = long_line; coming = [] }) []).0
    ≡ ready (ok (some (b'5' ∷ b';' ∷ spaces 1100)))
unfolding poll_line line_coming up_to_newline long_line spaces
async_long = refl
