-- ===== src/AsyncBody/Pieces.antt =====
-- Polling for a line up to its newline, which may arrive in pieces.
use lager_rs.Prelude.{
  ℕ, suc, ◌≤◌, ◌<◌, ◌≡◌, refl, sym, ap, subst, ◌∙◌, true, false, some, List, [], ◌∷◌, ◌++◌,
  append_assoc, Bytes, ok, length, length-append, all, ltb, ◌==◌, arith,
}
use lager_rs.Chunked.Reader.{strip_line}
use lager_rs.Chunked.Lines.{no_break}
use lager_rs.AsyncBody.Source.{ready, pending, Arrival, piece, nothing_yet, broken, Source}
use lager_rs.AsyncBody.Body.{
  up_to_newline, LinePoll, line_turn, line_coming, line_held, bytes_in, stream,
}

-- How often the connection has nothing yet.
abbrev pub delays : List Arrival → ℕ
delays [] = 0
delays (piece p ∷ rest) = delays rest
delays (nothing_yet ∷ rest) = suc (delays rest)
delays (broken e ∷ rest) = delays rest

-- The connection does not fail, and only its end gives no bytes.
unfoldable pub IsSound : List Arrival → Type 0
IsSound [] = Unit
IsSound (piece [] ∷ rest) = (bytes_in rest ≡ []) × IsSound rest
IsSound (piece (b ∷ p) ∷ rest) = IsSound rest
IsSound (nothing_yet ∷ rest) = IsSound rest
IsSound (broken e ∷ rest) = ⊥

-- Where the first newline of some bytes is, when a line without newlines and a newline begin them
-- and the bytes behind them.
data Cut (avail more m rest : Bytes) : Type 0 where
  within :
      (after : Bytes)
      → up_to_newline avail ≡ ((m ++ b'\n' ∷ [], after), true)
      → after ++ more ≡ rest
      → Cut avail more m rest
  beyond :
      (m' : Bytes)
      → up_to_newline avail ≡ ((avail, []), false)
      → m ≡ avail ++ m'
      → all no_break m' ≡ true
      → more ≡ m' ++ b'\n' ∷ rest
      → Cut avail more m rest

Cut-cons :
    (c : ℕ) (avail more m rest : Bytes)
    → (c == b'\n') ≡ false
    → Cut avail more m rest
    → Cut (c ∷ avail) more (c ∷ m) rest
unfolding up_to_newline
Cut-cons c avail more m rest h (within after e k) = within after (rw h (rw e refl)) k
Cut-cons c avail more m rest h (beyond m' e k n l) = beyond m' (rw h (rw e refl)) (ap (◌∷◌ c) k) n l

cut :
    (avail more m rest : Bytes)
    → all no_break m ≡ true
    → avail ++ more ≡ m ++ b'\n' ∷ rest
    → Cut avail more m rest
unfolding up_to_newline
cut [] more m rest h e = beyond m refl refl h e
cut (c ∷ avail) more [] rest h e =
    let first : b'\n' ≡ c = cc in
    let later : avail ++ more ≡ rest = cc in
    subst (λ c. Cut (c ∷ avail) more [] rest) first (within avail refl later)
cut (c ∷ avail) more (d ∷ m) rest h e =
    let first : c ≡ d = cc in
    let later : avail ++ more ≡ m ++ b'\n' ∷ rest = cc in
    let plain : (c == b'\n') ≡ false = ground arith in
    subst (λ d. Cut (c ∷ avail) more (d ∷ m) rest) first
      (Cut-cons c avail more m rest plain (cut avail more m rest (ground arith) later))

never_over : (m rest : Bytes) → [] ≡ m ++ b'\n' ∷ rest → ⊥
never_over [] rest h = cc
never_over (c ∷ m) rest h = cc

-- Of a line up to its newline, without the newline: what a poll gives when `n` delays may come.
pub data LineGives (whole rest : Bytes) (n : ℕ) (r : LinePoll) : Type 0 where
  got :
      (s : Source)
      → r ≡ (ready (ok (some (strip_line (whole ++ b'\n' ∷ [])))), s, [])
      → stream s ≡ rest
      → IsSound s.coming
      → delays s.coming ≤ n
      → LineGives whole rest n r
  waits :
      (s : Source) (line m : Bytes)
      → r ≡ (pending, s, line)
      → whole ≡ line ++ m
      → all no_break m ≡ true
      → stream s ≡ m ++ b'\n' ∷ rest
      → IsSound s.coming
      → delays s.coming < n
      → LineGives whole rest n r

module _ (whole rest : Bytes) (short : length whole ≤ 1025) where
  Continues : List Arrival → (Bytes → LinePoll) → Type 0
  Continues coming go_on =
      (line m : Bytes)
      → whole ≡ line ++ m
      → all no_break m ≡ true
      → bytes_in coming ≡ m ++ b'\n' ∷ rest
      → LineGives whole rest (delays coming) (go_on line)

  line_turn-Gives :
      (coming : List Arrival) (go_on : Bytes → LinePoll) (avail line m : Bytes)
      → IsSound coming
      → Continues coming go_on
      → whole ≡ line ++ m
      → all no_break m ≡ true
      → avail ++ bytes_in coming ≡ m ++ b'\n' ∷ rest
      → LineGives whole rest (delays coming) (line_turn coming go_on (up_to_newline avail) line)
  unfolding Continues
  line_turn-Gives coming go_on avail line m sound go e plain h =
      elim (cut avail (bytes_in coming) m rest plain h) [
        | within after found k ↦ rw found (
            got (record { held = after; coming = coming })
              (ap
                (λ w.
                  (ready (ok (some (strip_line w))), record { held = after; coming = coming }, []))
                (sym (append_assoc line m (b'\n' ∷ [])) ∙ ap (λ w. w ++ b'\n' ∷ []) (sym e)))
              k sound (omega arith))
        | beyond m' missing k plain' l ↦
            let longer : whole ≡ (line ++ avail) ++ m' =
              e ∙ ap (◌++◌ line) k ∙ sym (append_assoc line avail m') in
            let fits : ltb 1025 (length (line ++ avail)) ≡ false =
              ground (arith, ap (length {A = ℕ}) longer, length-append (line ++ avail) m') in
            rw missing (rw fits (go (line ++ avail) m' longer plain' l))
      ]

  line_coming-Gives :
      (coming : List Arrival) → IsSound coming → Continues coming (line_coming coming)
  unfolding Continues line_coming IsSound
  line_coming-Gives [] sound line m e plain h = absurd (never_over m rest h)
  line_coming-Gives (nothing_yet ∷ coming) sound line m e plain h =
      waits (record { held = []; coming = coming }) line m refl e plain h sound (omega arith)
  line_coming-Gives (piece [] ∷ coming) (over, sound) line m e plain h =
      absurd (never_over m rest (sym over ∙ h))
  line_coming-Gives (broken x ∷ coming) sound line m e plain h = absurd sound
  line_coming-Gives (piece (b ∷ p) ∷ coming) sound line m e plain h =
      line_turn-Gives coming (line_coming coming) (b ∷ p) line m sound
        (line_coming-Gives coming sound) e plain h

  pub line_held-Gives :
      (held : Bytes) (coming : List Arrival) (line m : Bytes)
      → IsSound coming
      → whole ≡ line ++ m
      → all no_break m ≡ true
      → held ++ bytes_in coming ≡ m ++ b'\n' ∷ rest
      → LineGives whole rest (delays coming) (line_held held coming line)
  unfolding line_coming Continues
  line_held-Gives [] coming line m sound e plain h = line_coming-Gives coming sound line m e plain h
  line_held-Gives (b ∷ held) coming line m sound e plain h =
      line_turn-Gives coming (line_coming coming) (b ∷ held) line m sound
        (line_coming-Gives coming sound) e plain h
