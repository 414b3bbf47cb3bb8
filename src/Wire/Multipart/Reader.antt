-- ===== src/Wire/Multipart/Reader.antt =====
-- A reader of multipart bodies, as RFC 7578 and RFC 2046 describe them.
use lager_rs.Prelude.{
  ℕ, zero, suc, ◌≡◌, false, Option, none, some, List, [], ◌∷◌, ◌++◌, Text, Bytes, str,
  contains_char, strip_prefix, split_once, utf8, ◌>>=?◌,
}
use lager_rs.Wire.Multipart.{FormPart, line_end, disposition}

-- Lines up to an empty one, and what stands behind that
abbrev pub lines_on : Bytes → Bytes → Option (List Bytes × Bytes) → Option (List Bytes × Bytes)
lines_on [] rest more = some ([], rest)
lines_on (c ∷ line) rest more = more >>=? λ p. some ((c ∷ line) ∷ p.0, p.1)

abbrev pub header_lines : ℕ → Bytes → Option (List Bytes × Bytes)
header_lines zero s = none
header_lines (suc fuel) s = split_once line_end s >>=? λ p. lines_on p.0 p.1 (header_lines fuel p.1)

-- A part: its header lines and its contents
abbrev pub Part : Type 0
Part = List Bytes × Bytes

abbrev pub delimiter : Text → Bytes
delimiter boundary = line_end ++ (str "--" ++ boundary)

-- What stands behind a boundary: the end, or a part and the next boundary
unfoldable pub read_parts : ℕ → Text → Bytes → Option (List Part)
unfolding split_once
read_parts zero boundary s = none
read_parts (suc fuel) boundary s = elim (strip_prefix (str "--") s) [
  | some epilogue ↦ some []
  | none ↦ strip_prefix line_end s >>=? λ head. header_lines 3 head >>=? λ p.
      split_once (delimiter boundary) p.1 >>=? λ d.
      read_parts fuel boundary d.1 >>=? λ more. some ((p.0, d.0) ∷ more)
]

unfoldable pub read_multipart : ℕ → Text → Bytes → Option (List Part)
unfolding read_parts
read_multipart fuel boundary s = strip_prefix (str "--" ++ boundary) s >>=? read_parts fuel boundary

abbrev pub type_lines : Option Text → List Bytes
type_lines none = []
type_lines (some t) = utf8 (str "Content-Type: " ++ t) ∷ []

-- What a part is read as
abbrev pub as_read : FormPart → Part
as_read p = (utf8 (disposition p) ∷ type_lines p.content_type, p.contents)

abbrev pub NoReturn : Text → Type 0
NoReturn s = contains_char b'\r' s ≡ false

abbrev pub PlainType : Option Text → Type 0
PlainType none = Unit
PlainType (some t) = NoReturn t

abbrev pub PlainTypes : List FormPart → Type 0
PlainTypes [] = Unit
PlainTypes (p ∷ ps) = PlainType p.content_type × PlainTypes ps
