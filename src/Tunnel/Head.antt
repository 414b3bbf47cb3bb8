-- ===== src/Tunnel/Head.antt =====
-- `connect_request` and `parse_head` of tunnel.rs.

use lager_rs.Prelude.{
  ℕ, ◌-◌, ◌^◌, Bool, true, false, ◌&&◌, Option, none, some, List, [], ◌∷◌, ◌++◌, Bytes, Text, str,
  decimal, utf8, from_utf8, split, split_once, rsplit_once, starts_with, trim, eq_ignore_ascii_case,
  parse_radix, ◌==◌, if◌then◌else◌, ◌>>=?◌ as ◌>>=◌,
}
use lager_rs.Url.{u16_max}

abbrev pub discovery_header : Text
discovery_header = str "x-gateway-auth-url"

abbrev pub bearer_line : Option Text → Text
bearer_line none = []
bearer_line (some token) = str "Authorization: Bearer " ++ (token ++ str "\r\n")

unfoldable pub connect_request : ℕ → Text → Option Text → Bytes
connect_request port box_host token = utf8 (
    str "CONNECT "
    ++ (decimal port
        ++ (str " HTTP/1.1\r\nHost: "
            ++ (box_host
                ++ (b':' ∷ (decimal port ++ (str "\r\n" ++ (bearer_line token ++ str "\r\n"))))))))

pub record Head : Type 0 where
  pub status : ℕ
  pub discovery : Option Text
  pub content_length : ℕ
  pub has_content_length : Bool
  pub chunked : Bool

abbrev pub add_line_char : ℕ → List Text → List Text
add_line_char c [] = (c ∷ []) ∷ []
add_line_char c ([] ∷ lines) = (c ∷ []) ∷ lines
add_line_char c ((d ∷ line) ∷ lines) =
    if (c == b'\r') && (d == b'\n') then [] ∷ line ∷ lines else (c ∷ d ∷ line) ∷ lines

-- `split("\r\n")`
unfoldable pub split_crlf : Text → List Text
split_crlf [] = [] ∷ []
split_crlf (c ∷ s) = add_line_char c (split_crlf s)

abbrev pub usize_max : ℕ
usize_max = 2 ^ 64 - 1

abbrev pub or_zero : Option ℕ → ℕ
or_zero none = 0
or_zero (some n) = n

abbrev pub last_piece : Text → Text
last_piece value = elim (rsplit_once b',' value) [ none ↦ value | some p ↦ p.1 ]

abbrev pub judge_header : Text → Text → Head → Head
judge_header name value h =
    if eq_ignore_ascii_case name discovery_header
    then record h { discovery = some value }
    else if eq_ignore_ascii_case name (str "content-length")
    then record h {
      content_length = or_zero (parse_radix 10 usize_max value);
      has_content_length = true;
    }
    else if eq_ignore_ascii_case name (str "transfer-encoding")
    then record h { chunked = eq_ignore_ascii_case (trim (last_piece value)) (str "chunked") }
    else h

abbrev pub header_turn : Option (Text × Text) → Head → Head
header_turn none h = h
header_turn (some (name, value)) h = judge_header (trim name) (trim value) h

unfoldable pub headers : List Text → Head → Head
headers [] h = h
headers (line ∷ lines) h = headers lines (header_turn (split_once (str ":") line) h)

-- The version and the status of a status line.
abbrev pub status_of : List Text → Option ℕ
status_of (version ∷ status ∷ _) =
    if starts_with (str "HTTP/") version then parse_radix 10 u16_max status else none
status_of _ = none

abbrev pub start_head : ℕ → Head
start_head n = record {
  status = n;
  discovery = none;
  content_length = 0;
  has_content_length = false;
  chunked = false;
}

abbrev pub head_lines : List Text → Option Head
head_lines [] = none
head_lines (first ∷ lines) = do
  status ← status_of (split b' ' first)
  some (headers lines (start_head status))

unfoldable pub parse_head : Bytes → Option Head
unfolding headers split_crlf
parse_head raw = do text ← from_utf8 raw; head_lines (split_crlf text)
