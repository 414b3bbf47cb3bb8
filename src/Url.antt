-- ===== src/Url.antt =====
-- The host strings and base URLs: `base_url_with_port`, `base_url` and `service_base` of wire.rs,
-- `host_of` of auth.rs, and `host_port` of tunnel.rs.
pub mod Split
pub mod Plain
mod Tests
use lager_rs.Prelude.{
  ℕ, Bool, ◌||◌, Option, none, some, [], ◌∷◌, ◌++◌, Text, ok, err, str, decimal, is_empty, trim,
  trim_start_by, trim_end_by, split_once, rsplit_once, first_piece, contains_char, parse_radix,
  ok_or, ◌==◌, if◌then◌else◌, ◌>>=◌,
}
use lager_rs.Error.{Res, config}

abbrev pub default_port : ℕ
default_port = 9000

abbrev pub debug_service_port : ℕ
debug_service_port = 8765

abbrev pub u16_max : ℕ
u16_max = 65535

abbrev pub or_else : Option (Text × Text) → Text × Text → Text × Text
or_else (some p) q = p
or_else none q = q

abbrev pub with_port : Text → ℕ → Text × Text → Res Text
with_port host port (scheme, rest) =
    if is_empty scheme || is_empty rest
    then err (config (str "invalid box host '" ++ (host ++ str "'")))
    else if contains_char b':' rest
    then ok (scheme ++ (str "://" ++ rest))
    else ok (scheme ++ (str "://" ++ (rest ++ b':' ∷ decimal port)))

abbrev pub drop_slashes : Text × Text → Text × Text
drop_slashes (scheme, rest) = (scheme, trim_end_by (λ c. c == b'/') rest)

-- The argument named `port` is `default_port` of the source.
unfoldable pub base_url_with_port : Text → ℕ → Res Text
base_url_with_port host port =
    let input = trim host in
    with_port host port (drop_slashes (or_else (split_once (str "://") input) (str "http", input)))

unfoldable pub base_url : Text → Res Text
unfolding base_url_with_port
base_url host = base_url_with_port host default_port

abbrev pub host_before : Text → Text
host_before rest = elim (rsplit_once b':' rest) [ none ↦ rest | some p ↦ p.0 ]

abbrev pub at_port : ℕ → Text × Text → Text
at_port port (scheme, rest) = scheme ++ (str "://" ++ (host_before rest ++ b':' ∷ decimal port))

unfoldable pub service_base : Text → ℕ → Text
service_base base port = at_port port (or_else (split_once (str "://") base) (str "http", base))

-- The URL without its scheme, up to the first slash.
abbrev pub authority : Text → Text
authority base =
    first_piece b'/' (elim (split_once (str "://") base) [ none ↦ base | some p ↦ p.1 ])

unfoldable pub host_of : Text → Text
host_of base_url = host_before (authority base_url)

-- `trim_start_matches('[').trim_end_matches(']')`
abbrev pub unbracket : Text → Text
unbracket host = trim_end_by (λ c. c == b']') (trim_start_by (λ c. c == b'[') host)

abbrev pub bad_url : Text → Text → Text
bad_url problem base = problem ++ (str " in debug-service URL '" ++ (base ++ str "'"))

unfoldable pub host_port : Text → Res (Text × ℕ)
host_port base = do
  p ← ok_or (config (bad_url (str "no port") base)) (rsplit_once b':' (authority base))
  port ← ok_or (config (bad_url (str "bad port") base)) (parse_radix 10 u16_max p.1)
  ok (unbracket p.0, port)
