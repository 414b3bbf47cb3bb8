-- ===== src/Auth/Cookies.antt =====
-- `cookie_header` and `parse_set_cookie` of auth.rs.

use lager_rs.Prelude.{
  Option, none, some, List, [], ◌∷◌, ◌++◌, Text, str, is_empty, first_piece, split_once, trim,
  if◌then◌else◌, ◌>>=?◌ as ◌>>=◌,
}
use lager_rs.Json.{Fields, end, field, as_str}
use lager_rs.Error.{join}

abbrev pub cookie_pair : Text → Option Text → List Text → List Text
cookie_pair k none rest = rest
cookie_pair k (some v) rest = (k ++ b'=' ∷ v) ∷ rest

abbrev pub cookie_pairs : Fields → List Text
cookie_pairs end = []
cookie_pairs (field k v cookies) = cookie_pair k (as_str v) (cookie_pairs cookies)

unfoldable pub cookie_header : Fields → Text
unfolding join
cookie_header cookies = join (str "; ") (cookie_pairs cookies)

abbrev pub named_cookie : Text × Text → Option (Text × Text)
named_cookie (name, value) = if is_empty name then none else some (trim name, trim value)

unfoldable pub parse_set_cookie : Text → Option (Text × Text)
unfolding trim split_once
parse_set_cookie header = split_once (str "=") (trim (first_piece b';' header)) >>= named_cookie
