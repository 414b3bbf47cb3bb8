-- ===== src/Wire/Multipart/RoundTrip.antt =====
-- What a reader makes of the bodies that are written.
use lager_rs.Prelude.{
  ◌+◌, ℕ, ◌≤◌, zero, suc, ◌<◌, ◌≡◌, refl, ap, ◌∙◌, true, false, some, List, [], ◌∷◌, ◌++◌, Text,
  Bytes, str, map, contains, strip_prefix, split_once, utf8, length, all, is_digit_char, decimal,
  print_radix-digits, ◌^◌, append_assoc, ◌>>=?◌, arith,
}
use lager_rs.Http.{RawBody}
use lager_rs.Wire.Multipart.{
  FormPart, line_end, disposition, content_type_line, is_in_part, part_bytes, all_parts,
  encode_parts, multipart, candidate, boundary_prefix,
}
use lager_rs.Wire.Multipart.Delimiter.{strip_prefix-append, split_once-delimiter}
use lager_rs.Wire.Multipart.Boundary.{total, find_boundary-free}
use lager_rs.Wire.Multipart.Reader.{
  delimiter, read_parts, read_multipart, as_read, NoReturn, PlainTypes,
}
use lager_rs.Wire.Multipart.Headers.{contains_char-append, headers-read}

-- What stands behind a boundary
abbrev tail_of : Text → List FormPart → Bytes
tail_of boundary [] = str "--" ++ line_end
tail_of boundary (p ∷ ps) =
    line_end
    ++ (utf8 (disposition p)
        ++ (line_end
            ++ (content_type_line p.content_type
                ++ (line_end
                    ++ (p.contents
                        ++ (line_end ++ (str "--" ++ (boundary ++ tail_of boundary ps))))))))

all_parts-tail_of :
    (boundary : Text) (parts : List FormPart)
    → all_parts boundary parts ≡ str "--" ++ (boundary ++ tail_of boundary parts)
unfolding part_bytes
all_parts-tail_of boundary [] = refl
all_parts-tail_of boundary (p ∷ ps) = simp (append_assoc, all_parts-tail_of boundary ps)

free_parts :
    (b : Text) (p : FormPart) (ps : List FormPart)
    → is_in_part b (p ∷ ps) ≡ false
    → (contains b p.contents ≡ false) × (is_in_part b ps ≡ false)
unfolding is_in_part
free_parts b p ps h = ground arith

digits-return : (s : Text) → all is_digit_char s ≡ true → NoReturn s
digits-return [] h = refl
digits-return (x ∷ s) h = ground (arith, digits-return s)

read_parts-tail_of :
    (fuel : ℕ) (boundary : Text) (parts : List FormPart)
    → length parts < fuel
    → NoReturn boundary
    → PlainTypes parts
    → is_in_part boundary parts ≡ false
    → read_parts fuel boundary (tail_of boundary parts) ≡ some (map as_read parts)
unfolding read_parts
read_parts-tail_of zero boundary parts h away plain free = absurd (omega arith)
read_parts-tail_of (suc fuel) boundary [] h away plain free = refl
read_parts-tail_of (suc fuel) boundary (p ∷ ps) h away (plain, others) free =
    let (here, there) = free_parts boundary p ps free in
    let behind : Bytes =
      p.contents ++ (line_end ++ (str "--" ++ (boundary ++ tail_of boundary ps))) in
    ap
      (λ o. o >>=? λ q. split_once (delimiter boundary) q.1 >>=? λ d.
        read_parts fuel boundary d.1 >>=? λ more. some ((q.0, d.0) ∷ more))
      (headers-read p behind plain)
    ∙ ap
        (λ o.
          o >>=? λ d. read_parts fuel boundary d.1 >>=? λ more. some (((as_read p).0, d.0) ∷ more))
        (split_once-delimiter b'\r' (b'\n' ∷ str "--" ++ boundary) (b'\n' ∷ str "--") boundary
          p.contents (tail_of boundary ps) refl away here)
    ∙ ap (λ o. o >>=? λ more. some (as_read p ∷ more))
        (read_parts-tail_of fuel boundary ps (omega arith) away others there)

candidate-return : (n : ℕ) → NoReturn (candidate n)
candidate-return n =
    contains_char-append b'\r' boundary_prefix (decimal n) refl
      (digits-return (decimal n) (print_radix-digits 10 n (omega arith) (omega arith)))

-- The body names its boundary, a candidate below the counter's overflow, and one who reads it by
-- that boundary finds each part with its headers and exactly its contents.
abbrev pub ReadsAs : List FormPart → RawBody → Type 0
ReadsAs parts body =
    (n : ℕ) × (n < 2 ^ 32)
    × (body.content_type ≡ str "multipart/form-data; boundary=" ++ candidate n)
    × (read_multipart (suc (length parts)) (candidate n) body.bytes ≡ some (map as_read parts))

-- A body is made, and is read back: its content type names a boundary, whose number is a `u32`, and
-- splitting it there as RFC 7578 says gives each part's headers and exactly its contents, whatever
-- bytes these are. The content types that are given hold no carriage return, the contents have
-- less than 2 ^ 32 - 10 ^ 9 bytes, and the loop has 2 ^ 32 turns or more.
pub multipart-ReadsAs :
    (turns : ℕ) (parts : List FormPart)
    → PlainTypes parts
    → total parts + 10 ^ 9 < 2 ^ 32
    → 2 ^ 32 ≤ turns
    → (body : RawBody) × (multipart turns parts ≡ some body) × ReadsAs parts body
unfolding multipart read_multipart encode_parts
multipart-ReadsAs turns parts plain few enough =
    let (n, fits, found, free) = find_boundary-free turns parts few enough in
    let boundary : Text = candidate n in
    (
      encode_parts boundary parts,
      rw found refl,
      (
        n,
        fits,
        refl,
        ap
              (λ bytes.
                strip_prefix (str "--" ++ boundary) bytes
                >>=? read_parts (suc (length parts)) boundary)
              (all_parts-tail_of boundary parts)
            ∙ ap (λ o. o >>=? read_parts (suc (length parts)) boundary)
                (strip_prefix-append (str "--" ++ boundary) (tail_of boundary parts))
            ∙ read_parts-tail_of (suc (length parts)) boundary parts (omega arith)
                (candidate-return n) plain free,
      ),
    )
