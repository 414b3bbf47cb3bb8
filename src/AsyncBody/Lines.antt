-- ===== src/AsyncBody/Lines.antt =====
-- Polling for a line of the framing, which may arrive in pieces.
use lager_rs.Prelude.{
  ℕ, ◌≤◌, ◌<◌, ◌≡◌, refl, sym, ap, subst, ◌∙◌, true, none, some, List, [], ◌∷◌, ◌++◌, append_assoc,
  Bytes, ok, length, length-append, all, all-append, arith,
}
use lager_rs.Chunked.Reader.{strip_line}
use lager_rs.Chunked.Lines.{no_break, plain-no_break, strip_line-lf, strip_line-crlf}
use lager_rs.Chunked.Framing.{Eol, crlf, lf, IsLine}
use lager_rs.AsyncBody.Source.{ready, pending, Arrival, piece, nothing_yet, broken, Source}
use lager_rs.AsyncBody.Body.{LinePoll, line_coming, line_held, poll_line, bytes_in, stream}
use lager_rs.AsyncBody.Pieces.{delays, IsSound, got, waits, line_held-Gives}

-- What is read of a line begins it, when it has no newline.
begins :
    (line w whole rest : Bytes)
    → all no_break line ≡ true
    → all no_break whole ≡ true
    → line ++ w ≡ whole ++ b'\n' ∷ rest
    → (m : Bytes) × (whole ≡ line ++ m) × (all no_break m ≡ true) × (w ≡ m ++ b'\n' ∷ rest)
begins [] w whole rest h k e = (whole, refl, k, e)
begins (c ∷ line) w [] rest h k e = absurd (let first : c ≡ b'\n' = cc in ground arith)
begins (c ∷ line) w (d ∷ whole) rest h k e =
    let first : c ≡ d = cc in
    let later : line ++ w ≡ whole ++ b'\n' ∷ rest = cc in
    let (m, split, plain, l) = begins line w whole rest (ground arith) (ground arith) later in
    (m, cc, plain, l)

all_front : (xs ys : Bytes) → all no_break (xs ++ ys) ≡ true → all no_break xs ≡ true
all_front [] ys h = refl
all_front (x ∷ xs) ys h = ground (arith, all_front xs ys)

-- What a poll makes of a line `l` before `rest`, in a stream of `long` bytes: the line, or
-- nothing yet, with all kept.
pub data LineAnswer (l w rest : Bytes) (n long : ℕ) (r : LinePoll) : Type 0 where
  read :
      (s : Source)
      → r ≡ (ready (ok (some l)), s, [])
      → stream s ≡ rest
      → IsSound s.coming
      → delays s.coming ≤ n
      → length rest < long
      → LineAnswer l w rest n long r
  delayed :
      (s : Source) (line : Bytes)
      → r ≡ (pending, s, line)
      → line ++ stream s ≡ w
      → all no_break line ≡ true
      → IsSound s.coming
      → delays s.coming < n
      → LineAnswer l w rest n long r

poll_line-whole :
    (s : Source) (line whole l rest : Bytes)
    → length whole ≤ 1025
    → all no_break whole ≡ true
    → strip_line (whole ++ b'\n' ∷ []) ≡ l
    → all no_break line ≡ true
    → IsSound s.coming
    → line ++ stream s ≡ whole ++ b'\n' ∷ rest
    → LineAnswer l (line ++ stream s) rest (delays s.coming) (length (stream s)) (poll_line s line)
unfolding poll_line line_coming
poll_line-whole s line whole l rest short plain stripped h sound e =
    let (m, split, plain', l') = begins line (stream s) whole rest h plain e in
    elim (line_held-Gives whole rest short s.held s.coming line m sound split plain' l') [
      | got s' r k sound' fewer ↦
          read s' (r ∙ ap (λ l. (ready (ok (some l)), s', [])) stripped) k sound' fewer
            (omega (arith, ap (length {A = ℕ}) l', length-append m (b'\n' ∷ rest)))
      | waits s' line' m' r k _ k' sound' fewer ↦
          delayed s' line' r
            (ap (◌++◌ line') k'
              ∙ sym (append_assoc line' m' (b'\n' ∷ rest))
              ∙ ap (λ w. w ++ b'\n' ∷ rest) (sym k)
              ∙ sym e)
            (all_front line' m' (subst (λ w. all no_break w ≡ true) k plain)) sound' fewer
    ]

-- A line of the framing is read whole, however it arrives.
pub poll_line-IsLine :
    (s : Source) (line l e rest : Bytes)
    → IsLine l
    → Eol e
    → all no_break line ≡ true
    → IsSound s.coming
    → line ++ stream s ≡ l ++ (e ++ rest)
    → LineAnswer l (line ++ stream s) rest (delays s.coming) (length (stream s)) (poll_line s line)
poll_line-IsLine s line l e rest i (crlf p) h sound k =
    poll_line-whole s line (l ++ b'\r' ∷ []) l rest
      (omega (arith, i.fits, length-append l (b'\r' ∷ [])))
      (all-append no_break l (b'\r' ∷ []) (plain-no_break l i.plain) refl) (strip_line-crlf l) h
      sound (k ∙ rw p (sym (append_assoc l (b'\r' ∷ []) (b'\n' ∷ rest))))
poll_line-IsLine s line l e rest i (lf p) h sound k =
    poll_line-whole s line l l rest (omega (arith, i.fits)) (plain-no_break l i.plain)
      (strip_line-lf l i.plain) h sound (k ∙ rw p)

-- What a poll makes of a stream that is over.
pub data EndAnswer (n : ℕ) (r : LinePoll) : Type 0 where
  over :
      (s : Source)
      → r ≡ (ready (ok none), s, [])
      → stream s ≡ []
      → IsSound s.coming
      → delays s.coming ≤ n
      → EndAnswer n r
  not_over :
      (s : Source)
      → r ≡ (pending, s, [])
      → stream s ≡ []
      → IsSound s.coming
      → delays s.coming < n
      → EndAnswer n r

line_coming-over :
    (coming : List Arrival)
    → IsSound coming
    → bytes_in coming ≡ []
    → EndAnswer (delays coming) (line_coming coming [])
unfolding line_coming IsSound
line_coming-over [] sound h = over (record { held = []; coming = [] }) refl refl tt (omega arith)
line_coming-over (nothing_yet ∷ coming) sound h =
    not_over (record { held = []; coming = coming }) refl h sound (omega arith)
line_coming-over (broken e ∷ coming) sound h = absurd sound
line_coming-over (piece [] ∷ coming) (k, sound) h =
    over (record { held = []; coming = coming }) refl k sound (omega arith)
line_coming-over (piece (b ∷ p) ∷ coming) sound h = absurd cc

line_held-over :
    (held : Bytes) (coming : List Arrival)
    → IsSound coming
    → held ++ bytes_in coming ≡ []
    → EndAnswer (delays coming) (line_held held coming [])
unfolding line_coming
line_held-over [] coming sound h = line_coming-over coming sound h
line_held-over (b ∷ held) coming sound h = absurd cc

pub poll_line-over :
    (s : Source) → IsSound s.coming → stream s ≡ [] → EndAnswer (delays s.coming) (poll_line s [])
unfolding poll_line line_coming
poll_line-over s sound h = line_held-over s.held s.coming sound h
