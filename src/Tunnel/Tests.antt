-- ===== src/Tunnel/Tests.antt =====
-- Response heads, and instances of the theorems on them.
use lager_rs.Prelude.{
  ◌≡◌, refl, [], ◌∷◌, ◌++◌, map, none, some, true, false, Bytes, str, from_utf8, split, split_once,
  rsplit_once, trim, parse_radix, eq_ignore_ascii_case, arith,
}
use lager_rs.Tunnel.Head.{Head, parse_head, split_crlf, headers}
use lager_rs.Tunnel.Reading.{read_head, complete, got, read_head-exact}

abbrev denial_head : Bytes
denial_head =
    str
      "HTTP/1.1 401 Unauthorized\r\nX-Gateway-Auth-Url: https://auth\r\nContent-Length: 12\r\n\r\n"

abbrev denied_head : Head
denied_head = record {
  status = 401;
  discovery = some (str "https://auth");
  content_length = 12;
  has_content_length = true;
  chunked = false;
}

parse_denial : parse_head denial_head ≡ some denied_head
unfolding parse_head from_utf8 split_crlf headers split split_once rsplit_once trim parse_radix
    eq_ignore_ascii_case
parse_denial = refl

parse_ssh : parse_head (str "SSH-2.0-OpenSSH\r\n\r\n") ≡ none
unfolding parse_head from_utf8 split_crlf split parse_radix
parse_ssh = refl

read_head-exact_example :
    read_head [] (map got denial_head ++ got b'+' ∷ []) ≡ complete denial_head (got b'+' ∷ [])
read_head-exact_example = read_head-exact denial_head (got b'+' ∷ []) refl (omega arith)
