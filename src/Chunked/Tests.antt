-- ===== src/Chunked/Tests.antt =====
-- The decoder on concrete streams, and instances of its theorems.
use lager_rs.Prelude.{
  ◌≡◌, refl, none, some, [], ◌∷◌, ◌++◌, Bytes, str, ok, err, from_utf8, parse_radix, trim, arith,
}
use lager_rs.Chunked.Size.{unexpected_eof, parse_size}
use lager_rs.Chunked.SizeLine.{hex, parse_size-hex}
use lager_rs.Chunked.Source.{Source, read_until, read_some}
use lager_rs.Chunked.Reader.{
  ChunkedReader, new, read_line, skip_turn, skip_loop, skip_trailers, read,
}
use lager_rs.Chunked.Reader
use lager_rs.Chunked.Framing.{Framed, IsSize, crlf, chunk, final, blank}
use lager_rs.Chunked.Decode.{Gives, at_size, read-Gives}
use lager_rs.Chunked.Collect.{collect, collect-Framed}

abbrev hello : Bytes
hello = str "5\r\nhello\r\n3\r\n wo\r\n0\r\n\r\n"

abbrev hello_source : Source
hello_source = record { rest = hello; grants = 0 ∷ 7 ∷ []; fault = none }

abbrev cut_source : Source
cut_source = record { rest = str "5\r\nhel"; grants = []; fault = none }

collect_hello : collect 20 (λ k. 3) 0 (new hello_source) ≡ some (ok (str "hello wo"))
unfolding collect new read read_line read_until read_some skip_trailers skip_loop skip_turn
    parse_size from_utf8 parse_radix trim
collect_hello = refl

collect_cut :
    collect 20 (λ k. 3) 0 (new cut_source)
    ≡ some (err (unexpected_eof "stream closed inside a chunk"))
unfolding collect new read read_line read_until read_some skip_trailers skip_loop skip_turn
    parse_size from_utf8 parse_radix trim
collect_cut = refl

IsSize-five : IsSize (str "5") 5
unfolding parse_size from_utf8 parse_radix trim
IsSize-five = record { line_ok = record { plain = refl; fits = omega arith }; value = refl }

IsSize-three : IsSize (str "3") 3
unfolding parse_size from_utf8 parse_radix trim
IsSize-three = record { line_ok = record { plain = refl; fits = omega arith }; value = refl }

IsSize-zero : IsSize (str "0") 0
unfolding parse_size from_utf8 parse_radix trim
IsSize-zero = record { line_ok = record { plain = refl; fits = omega arith }; value = refl }

hello-Framed : Framed hello (str "hello wo")
hello-Framed =
    chunk (str "5") (str "\r\n") (str "hello") (str "\r\n") (str "3\r\n wo\r\n0\r\n\r\n")
      (str " wo") IsSize-five (omega arith) (crlf refl) (crlf refl)
      (chunk (str "3") (str "\r\n") (str " wo") (str "\r\n") (str "0\r\n\r\n") [] IsSize-three
        (omega arith) (crlf refl) (crlf refl)
        (final (str "0") (str "\r\n") (str "\r\n") IsSize-zero (crlf refl)
          (blank (str "\r\n") [] (crlf refl) refl) refl refl)
        refl refl)
      refl refl

collect-Framed_example : collect 20 (λ k. 3) 0 (new hello_source) ≡ some (ok (str "hello wo"))
collect-Framed_example = collect-Framed 20 (λ k. 3) hello_source (omega arith) hello-Framed refl

read-Gives_example : Gives 3 (str "hello wo") (read 3 (Reader.at_state Reader.size hello_source))
read-Gives_example =
    read-Gives 3 (Reader.at_state Reader.size hello_source) (omega arith) (at_size hello-Framed)
      refl

parse_size-hex_example :
    (parse_size (hex 26) ≡ ok 26) × (parse_size (hex 26 ++ b';' ∷ str "a=b") ≡ ok 26)
parse_size-hex_example = parse_size-hex 26 (str "a=b") (omega arith)
