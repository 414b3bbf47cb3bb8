-- ===== src/Chunked/Framing.antt =====
-- The chunked framing that chunked.rs decodes, as a relation between the bytes on the wire and
-- the payload that they carry.
use lager_rs.Prelude.{
  ℕ, ◌≤◌, ◌<◌, ◌≡◌, Bool, true, not, ◌||◌, [], ◌∷◌, ◌++◌, Bytes, ok, length, all, ◌==◌,
}
use lager_rs.Chunked.Size.{max_size_line, parse_size}

-- A line ends with CRLF or a bare LF.
pub data Eol : Bytes → Type 0 where
  crlf : {e : Bytes} → e ≡ b'\r' ∷ b'\n' ∷ [] → Eol e
  lf : {e : Bytes} → e ≡ b'\n' ∷ [] → Eol e

abbrev pub plain_byte : ℕ → Bool
plain_byte c = not (c == b'\n' || c == b'\r')

-- A line that the decoders take: no line break inside, and not too long.
pub record IsLine (line : Bytes) : Type 0 where
  pub plain : all plain_byte line ≡ true
  pub fits : length line ≤ max_size_line

pub record IsSize (line : Bytes) (n : ℕ) : Type 0 where
  pub line_ok : IsLine line
  pub value : parse_size line ≡ ok n

-- What follows the zero-size chunk: trailer lines, then a blank line or the end. Bytes behind the
-- blank line belong to nobody.
pub data Trailers : Bytes → Type 0 where
  closed : {w : Bytes} → w ≡ [] → Trailers w
  blank : {w : Bytes} (e after : Bytes) → Eol e → w ≡ e ++ after → Trailers w
  line :
      {w : Bytes} (c : ℕ) (l e t : Bytes)
      → IsLine (c ∷ l)
      → Eol e
      → Trailers t
      → w ≡ (c ∷ l) ++ (e ++ t)
      → Trailers w

-- `Framed w p`: the bytes `w` up to the end of the stream carry the payload `p`. A stream may
-- close between chunks without its terminator.
pub data Framed : Bytes → Bytes → Type 0 where
  closed : {w p : Bytes} → w ≡ [] → p ≡ [] → Framed w p
  final :
      {w p : Bytes} (l e t : Bytes)
      → IsSize l 0
      → Eol e
      → Trailers t
      → w ≡ l ++ (e ++ t)
      → p ≡ []
      → Framed w p
  chunk :
      {w p : Bytes} (l e d e' t q : Bytes)
      → IsSize l (length d)
      → 0 < length d
      → Eol e
      → Eol e'
      → Framed t q
      → w ≡ l ++ (e ++ (d ++ (e' ++ t)))
      → p ≡ d ++ q
      → Framed w p
