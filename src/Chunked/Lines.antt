-- ===== src/Chunked/Lines.antt =====
-- `read_line` of the blocking decoder reads one line of the framing.
use lager_rs.Prelude.{
  ℕ, zero, suc, ◌≤◌, ◌<◌, ◌≡◌, refl, sym, ◌∙◌, Bool, true, false, not, none, some, [], ◌∷◌, ◌++◌,
  append_assoc, Bytes, ok, length, length-append, all, all-append, last, last-concat, pop-concat,
  ◌==◌, arith,
}
use lager_rs.Chunked.Source.{Source, cut_line, read_until}
use lager_rs.Chunked.Reader.{is_return, strip_line, judge_line, read_line}
use lager_rs.Chunked.Framing.{Eol, crlf, lf, plain_byte, IsLine}

abbrev pub no_break : ℕ → Bool
no_break c = not (c == b'\n')

cut_line-append :
    (k : ℕ) (l rest : Bytes)
    → all no_break l ≡ true
    → length l < k
    → cut_line k (l ++ b'\n' ∷ rest) ≡ (l ++ b'\n' ∷ [], rest)
unfolding cut_line
cut_line-append zero l rest h k = absurd (omega arith)
cut_line-append (suc k) [] rest h m = refl
cut_line-append (suc k) (c ∷ l) rest h m = ground (arith, cut_line-append k l rest)

read_until-line :
    (limit : ℕ) (s : Source) (l rest : Bytes)
    → s.rest ≡ l ++ b'\n' ∷ rest
    → all no_break l ≡ true
    → length l < limit
    → read_until limit s ≡ (ok (l ++ b'\n' ∷ []), record s { rest = rest })
unfolding read_until
read_until-line limit s l rest e h m = rw e (rw (cut_line-append limit l rest h m) (rw last-concat))

pub plain-no_break : (l : Bytes) → all plain_byte l ≡ true → all no_break l ≡ true
plain-no_break [] h = refl
plain-no_break (c ∷ l) h = ground (arith, plain-no_break l)

not_return : (l : Bytes) → all plain_byte l ≡ true → is_return (last l) ≡ false
not_return [] h = refl
not_return (c ∷ []) h = ground arith
not_return (c ∷ d ∷ l) h = not_return (d ∷ l) (ground arith)

-- The line without its terminator, whichever it has.
pub strip_line-lf : (l : Bytes) → all plain_byte l ≡ true → strip_line (l ++ b'\n' ∷ []) ≡ l
strip_line-lf l h = rw pop-concat (rw (not_return l h))

pub strip_line-crlf : (l : Bytes) → strip_line ((l ++ b'\r' ∷ []) ++ b'\n' ∷ []) ≡ l
strip_line-crlf l = rw pop-concat (rw last-concat (rw pop-concat))

length-concat : (l : Bytes) (c : ℕ) → (length (l ++ c ∷ []) == 0) ≡ false
length-concat l c = ground (arith, length-append l (c ∷ []))

judge_line-concat :
    (l : Bytes) → judge_line (l ++ b'\n' ∷ []) ≡ ok (some (strip_line (l ++ b'\n' ∷ [])))
unfolding judge_line
judge_line-concat l = rw (length-concat l b'\n') (rw last-concat)

read_line-lf :
    (s : Source) (l rest : Bytes)
    → all no_break l ≡ true
    → length l ≤ 1025
    → s.rest ≡ l ++ b'\n' ∷ rest
    → read_line s ≡ (ok (some (strip_line (l ++ b'\n' ∷ []))), record s { rest = rest })
unfolding read_line
read_line-lf s l rest h m e =
    rw (read_until-line 1026 s l rest e h (omega arith)) (rw (judge_line-concat l))

-- A line of the framing is read whole, and the stream stands behind its terminator.
pub read_line-IsLine :
    (s : Source) (l e rest : Bytes)
    → IsLine l
    → Eol e
    → s.rest ≡ l ++ (e ++ rest)
    → read_line s ≡ (ok (some l), record s { rest = rest })
read_line-IsLine s l e rest i (crlf p) h =
    read_line-lf s (l ++ b'\r' ∷ []) rest
      (all-append no_break l (b'\r' ∷ []) (plain-no_break l i.plain) refl)
      (omega (arith, i.fits, length-append l (b'\r' ∷ [])))
      (h ∙ rw p (sym (append_assoc l (b'\r' ∷ []) (b'\n' ∷ rest))))
    ∙ rw strip_line-crlf
read_line-IsLine s l e rest i (lf p) h =
    read_line-lf s l rest (plain-no_break l i.plain) (omega (arith, i.fits)) (h ∙ rw p)
    ∙ rw (strip_line-lf l i.plain)

read_until-nil :
    (k : ℕ) (s : Source)
    → s.rest ≡ []
    → s.fault ≡ none
    → read_until (suc k) s ≡ (ok [], record s { rest = [] })
unfolding read_until
read_until-nil k s h f = rw h (rw f (ground arith))

-- A stream that has closed gives no line.
pub read_line-nil :
    (s : Source) → s.rest ≡ [] → s.fault ≡ none → read_line s ≡ (ok none, record s { rest = [] })
unfolding read_line judge_line
read_line-nil s h f = rw (read_until-nil 1025 s h f)
