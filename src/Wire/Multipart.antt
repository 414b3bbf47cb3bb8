-- ===== src/Wire/Multipart.antt =====
-- `multipart` of wire.rs: a body of `multipart/form-data` (RFC 7578). Text is put into it in UTF-8.
pub mod Counting
pub mod Boundary
pub mod Delimiter
pub mod Reader
pub mod Headers
pub mod RoundTrip
use lager_rs.Prelude.{
  ℕ, zero, suc, ◌+◌, ◌%◌, ◌^◌, Bool, ◌||◌, Option, none, some, List, [], ◌∷◌, ◌++◌, Text, Bytes,
  str, any, map, contains, decimal, utf8, ◌==◌, ◌>>=?◌, if◌then◌else◌,
}
use lager_rs.Http.{RawBody}

pub record FormPart : Type 0 where
  pub name : Text
  pub filename : Option Text
  pub content_type : Option Text
  pub contents : Bytes

abbrev pub boundary_prefix : Text
boundary_prefix = str "lager-net-boundary-"

abbrev pub candidate : ℕ → Text
candidate n = boundary_prefix ++ decimal n

unfoldable pub is_in_part : Text → List FormPart → Bool
unfolding contains
is_in_part boundary parts = any (λ p. contains boundary p.contents) parts

-- `n += 1` on a `u32`. It is written out as the wrap of a build without checks, and one with checks
-- stops there.
abbrev pub next_number : ℕ → ℕ
next_number n = (n + 1) % 2 ^ 32

-- The loop, which tries so many candidates from `n` on
unfoldable pub find_boundary : ℕ → ℕ → List FormPart → Option Text
unfolding is_in_part
find_boundary zero n parts = none
find_boundary (suc turns) n parts =
    let later = find_boundary turns (next_number n) parts in
    if is_in_part (candidate n) parts then later else some (candidate n)

abbrev pub line_end : Text
line_end = b'\r' ∷ b'\n' ∷ []

abbrev pub unquoted : ℕ → ℕ
unquoted c = if c == b'"' || c == b'\r' || c == b'\n' then b'_' else c

unfoldable pub quote : Text → Text
quote s = map unquoted s

abbrev pub filename_text : Option Text → Text
filename_text none = str ""
filename_text (some name) = str "; filename=\"" ++ (quote name ++ str "\"")

unfoldable pub disposition : FormPart → Text
unfolding quote
disposition p =
    str "Content-Disposition: form-data; name=\""
    ++ (quote p.name ++ (str "\"" ++ filename_text p.filename))

abbrev pub content_type_line : Option Text → Text
content_type_line none = []
content_type_line (some t) = utf8 (str "Content-Type: " ++ t) ++ line_end

unfoldable pub part_bytes : Text → FormPart → Bytes
unfolding disposition
part_bytes boundary p =
    str "--"
    ++ (boundary
        ++ (line_end
            ++ (utf8 (disposition p)
                ++ (line_end
                    ++ (content_type_line p.content_type
                        ++ (line_end ++ (p.contents ++ line_end)))))))

abbrev pub all_parts : Text → List FormPart → Bytes
all_parts boundary [] = str "--" ++ (boundary ++ (str "--" ++ line_end))
all_parts boundary (p ∷ ps) = part_bytes boundary p ++ all_parts boundary ps

unfoldable pub encode_parts : Text → List FormPart → RawBody
unfolding part_bytes
encode_parts boundary parts = record {
  content_type = str "multipart/form-data; boundary=" ++ boundary;
  bytes = all_parts boundary parts;
}

unfoldable pub multipart : ℕ → List FormPart → Option RawBody
unfolding find_boundary encode_parts
multipart fuel parts =
    find_boundary fuel 0 parts >>=? λ boundary. some (encode_parts boundary parts)
