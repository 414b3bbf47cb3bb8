-- ===== src/Wire/Multipart/Headers.antt =====
-- How the header lines of a part are read.
use lager_rs.Prelude.{
  ℕ, suc, ◌≡◌, refl, ap, ◌∙◌, false, Option, none, some, [], ◌∷◌, ◌++◌, Text, Bytes, str,
  contains_char, strip_prefix, split_once, cut_here, utf8, char_bytes, append_assoc, ◌==◌, ◌>>=?◌,
  arith,
}
use lager_rs.Wire.Multipart.{
  FormPart, line_end, quote, filename_text, disposition, content_type_line,
}
use lager_rs.Wire.Multipart.Reader.{
  lines_on, header_lines, type_lines, as_read, NoReturn, PlainType,
}

pub contains_char-append :
    (c : ℕ) (s t : Text)
    → contains_char c s ≡ false
    → contains_char c t ≡ false
    → contains_char c (s ++ t) ≡ false
contains_char-append c [] t h k = k
contains_char-append c (x ∷ s) t h k = ground (arith, contains_char-append c s t)

char_bytes-return : (c : ℕ) → (c == b'\r') ≡ false → NoReturn (char_bytes c)
unfolding char_bytes
char_bytes-return c h = ground arith

quote-return : (s : Text) → NoReturn (quote s)
unfolding quote
quote-return [] = refl
quote-return (x ∷ s) = ground (arith, quote-return s)

head_differs : (x : ℕ) (s : Text) → NoReturn (x ∷ s) → (x == b'\r') ≡ false
head_differs x s h = ground arith

others_differ : (x : ℕ) (s : Text) → NoReturn (x ∷ s) → NoReturn s
others_differ x s h = ground arith

first_differs : (x : ℕ) (line s : Text) → NoReturn (x ∷ line) → strip_prefix line_end (x ∷ s) ≡ none
first_differs x line s h = ground arith

split_once-line :
    (line rest : Bytes)
    → NoReturn line
    → split_once line_end (line ++ (line_end ++ rest)) ≡ some (line, rest)
unfolding split_once
split_once-line [] rest h = refl
split_once-line (x ∷ line) rest h =
    ap (λ (o : Option Text). cut_here o x (split_once line_end (line ++ (line_end ++ rest))))
      (first_differs x line (line ++ (line_end ++ rest)) h)
    ∙ ap (λ o. cut_here none x o) (split_once-line line rest (others_differ x line h))

utf8-return : (s : Text) → NoReturn s → NoReturn (utf8 s)
unfolding utf8
utf8-return [] h = refl
utf8-return (x ∷ s) h =
    contains_char-append b'\r' (char_bytes x) (utf8 s) (char_bytes-return x (head_differs x s h))
      (utf8-return s (others_differ x s h))

filename_text-return : (o : Option Text) → NoReturn (filename_text o)
filename_text-return none = refl
filename_text-return (some name) =
    contains_char-append b'\r' (str "; filename=\"") (quote name ++ str "\"") refl
      (contains_char-append b'\r' (quote name) (str "\"") (quote-return name) refl)

disposition-return : (p : FormPart) → NoReturn (disposition p)
unfolding disposition
disposition-return p =
    contains_char-append b'\r' (str "Content-Disposition: form-data; name=\"")
      (quote p.name ++ (str "\"" ++ filename_text p.filename)) refl
      (contains_char-append b'\r' (quote p.name) (str "\"" ++ filename_text p.filename)
        (quote-return p.name)
        (contains_char-append b'\r' (str "\"") (filename_text p.filename) refl
          (filename_text-return p.filename)))

line_read :
    (fuel c : ℕ) (line rest : Bytes)
    → NoReturn (c ∷ line)
    → header_lines (suc fuel) ((c ∷ line) ++ (line_end ++ rest))
      ≡ (header_lines fuel rest >>=? λ p. some ((c ∷ line) ∷ p.0, p.1))
line_read fuel c line rest h =
    ap (λ o. o >>=? λ p. lines_on p.0 p.1 (header_lines fuel p.1))
      (split_once-line (c ∷ line) rest h)

-- The second line and the empty one
type_lines-read :
    (o : Option Text) (rest : Bytes)
    → PlainType o
    → header_lines 2 (content_type_line o ++ (line_end ++ rest)) ≡ some (type_lines o, rest)
unfolding utf8 split_once
type_lines-read none rest h = refl
type_lines-read (some t) rest h =
    ap (header_lines 2)
      (append_assoc (utf8 (str "Content-Type: " ++ t)) line_end (line_end ++ rest))
    ∙ line_read 1 b'C' (utf8 (str "ontent-Type: " ++ t)) (line_end ++ rest) (
        utf8-return (str "Content-Type: " ++ t)
          (contains_char-append b'\r' (str "Content-Type: ") t refl h))

pub headers-read :
    (p : FormPart) (rest : Bytes)
    → PlainType p.content_type
    → header_lines 3 (
        utf8 (disposition p)
        ++ (line_end ++ (content_type_line p.content_type ++ (line_end ++ rest))))
      ≡ some ((as_read p).0, rest)
unfolding utf8 disposition
headers-read p rest h =
    line_read 2 b'C'
      (utf8 (
        str "ontent-Disposition: form-data; name=\""
        ++ (quote p.name ++ (str "\"" ++ filename_text p.filename))))
      (content_type_line p.content_type ++ (line_end ++ rest))
      (utf8-return (disposition p) (disposition-return p))
    ∙ ap (λ o. o >>=? λ q. some (utf8 (disposition p) ∷ q.0, q.1))
        (type_lines-read p.content_type rest h)
