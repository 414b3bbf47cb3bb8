-- ===== src/AsyncBody/Turns.antt =====
-- The loop of `poll_read` on the lines of the framing, and on all of it.
use lager_rs.Prelude.{
  ℕ, zero, suc, ◌+◌, ◌≤◌, ◌<◌, ◌≡◌, refl, sym, ap, subst, ◌∙◌, false, true, [], ◌∷◌, ◌++◌, Bytes,
  ok, length, all, ◌==◌, arith,
}
use lager_rs.Chunked.Reader.{State, size, in_data, data_end, trailers, done}
use lager_rs.Chunked.Framing as Wire
use lager_rs.Chunked.Framing.{Eol, Trailers, Framed, IsLine}
use lager_rs.Chunked.Lines.{no_break}
use lager_rs.Chunked.Decode.{Holds, at_size, inside, at_end, in_trailers, finished}
use lager_rs.AsyncBody.Source.{Source}
use lager_rs.AsyncBody.Body.{
  Framing, chunked, of_length, until_close, AsyncBody, body_at, again, after_size, turn_in,
  poll_loop, poll_read, stream,
}
use lager_rs.AsyncBody.Pieces.{delays, IsSound}
use lager_rs.AsyncBody.Lines.{read, delayed, over, not_over, poll_line-IsLine, poll_line-over}
use lager_rs.AsyncBody.Decode.{
  LineFits, Carries, BodyCarries, Answer, waits, Reads, Reads-finished, Reads-inside, Reads-length,
  Reads-close,
}

front_nil : (line w : Bytes) → line ++ w ≡ [] → line ≡ []
front_nil [] w h = refl
front_nil (c ∷ line) w h = absurd cc

back_nil : (line w : Bytes) → line ++ w ≡ [] → w ≡ []
back_nil [] w h = h
back_nil (c ∷ line) w h = absurd cc

blank_line : IsLine []
blank_line = record { plain = refl; fits = omega arith }

after_size_pos :
    (k : ℕ) (s : Source) (line : Bytes)
    → 0 < k
    → after_size (ok k) s line ≡ again (body_at (chunked (in_data k)) s line)
after_size_pos zero s line h = absurd (omega arith)
after_size_pos (suc k) s line h = refl

-- The fuel for a loop before `w`.
abbrev Enough : ℕ → Source → Type 0
Enough fuel s = 2 + length (stream s) ≤ fuel

module _ (want n : ℕ) (pos : 0 < want) where
  Reads-trailers :
      (fuel : ℕ) (s : Source) (line : Bytes) {w p : Bytes}
      → Trailers w
      → line ++ stream s ≡ w
      → all no_break line ≡ true
      → p ≡ []
      → IsSound s.coming
      → delays s.coming ≤ n
      → Enough fuel s
      → Reads fuel want n (chunked trailers) s line p
  unfolding poll_loop turn_in Carries LineFits
  Reads-trailers zero s line t e plain none_left sound few enough = absurd (omega arith)
  Reads-trailers (suc zero) s line t e plain none_left sound few enough = absurd (omega arith)
  Reads-trailers (suc (suc fuel)) s line (Wire.closed h) e plain none_left sound few enough =
      rw (front_nil line (stream s) (e ∙ h))
        (elim (poll_line-over s sound (back_nil line (stream s) (e ∙ h))) [
          | over s' r k sound' fewer ↦
              rw (r, poll_loop) (Reads-finished want n pos fuel s' none_left sound' (omega arith))
          | not_over s' r k sound' fewer ↦
              rw (r, poll_loop)
                (waits (body_at (chunked trailers) s' []) refl
                  ((in_trailers (Wire.closed k) none_left, refl), sound') (omega arith))
        ])
  Reads-trailers (suc (suc fuel)) s line (Wire.blank eol after x h) e plain none_left sound few
        enough =
      elim (poll_line-IsLine s line [] eol after blank_line x plain sound (e ∙ h)) [
        | read s' r k sound' fewer shorter ↦
            rw (r, poll_loop) (Reads-finished want n pos fuel s' none_left sound' (omega arith))
        | delayed s' line' r k plain' sound' fewer ↦
            rw (r, poll_loop)
              (waits (body_at (chunked trailers) s' line') refl
                ((in_trailers (Wire.blank eol after x (k ∙ e ∙ h)) none_left, plain'), sound')
                (omega arith))
      ]
  Reads-trailers (suc (suc fuel)) s line (Wire.line c l eol t i x more h) e plain none_left sound
        few enough =
      elim (poll_line-IsLine s line (c ∷ l) eol t i x plain sound (e ∙ h)) [
        | read s' r k sound' fewer shorter ↦
            rw (r, poll_loop)
              (Reads-trailers (suc fuel) s' [] more k refl none_left sound' (omega arith)
                (omega (arith, ap (length {A = ℕ}) k)))
        | delayed s' line' r k plain' sound' fewer ↦
            rw (r, poll_loop)
              (waits (body_at (chunked trailers) s' line') refl
                ((in_trailers (Wire.line c l eol t i x more (k ∙ e ∙ h)) none_left, plain'), sound')
                (omega arith))
      ]

  Reads-size :
      (fuel : ℕ) (s : Source) (line : Bytes) {w p : Bytes}
      → Framed w p
      → line ++ stream s ≡ w
      → all no_break line ≡ true
      → IsSound s.coming
      → delays s.coming ≤ n
      → Enough fuel s
      → Reads fuel want n (chunked size) s line p
  unfolding poll_loop turn_in Carries LineFits
  Reads-size zero s line f e plain sound few enough = absurd (omega arith)
  Reads-size (suc zero) s line f e plain sound few enough = absurd (omega arith)
  Reads-size (suc (suc fuel)) s line (Wire.closed h none_left) e plain sound few enough =
      rw (front_nil line (stream s) (e ∙ h))
        (elim (poll_line-over s sound (back_nil line (stream s) (e ∙ h))) [
          | over s' r k sound' fewer ↦
              rw (r, poll_loop) (Reads-finished want n pos fuel s' none_left sound' (omega arith))
          | not_over s' r k sound' fewer ↦
              rw (r, poll_loop)
                (waits (body_at (chunked size) s' []) refl
                  ((at_size (Wire.closed k none_left), refl), sound') (omega arith))
        ])
  Reads-size (suc (suc fuel)) s line (Wire.final l eol t i x tr h none_left) e plain sound few
        enough =
      elim (poll_line-IsLine s line l eol t i.line_ok x plain sound (e ∙ h)) [
        | read s' r k sound' fewer shorter ↦
            rw (r, poll_loop)
              (rw (i.value, poll_loop)
                (Reads-trailers (suc fuel) s' [] tr k refl none_left sound' (omega arith)
                  (omega (arith, ap (length {A = ℕ}) k))))
        | delayed s' line' r k plain' sound' fewer ↦
            rw (r, poll_loop)
              (waits (body_at (chunked size) s' line') refl
                ((at_size (Wire.final l eol t i x tr (k ∙ e ∙ h) none_left), plain'), sound')
                (omega arith))
      ]
  Reads-size (suc (suc fuel)) s line (Wire.chunk l eol d eol' t q i h x x' f k m) e plain sound few
        enough =
      elim (poll_line-IsLine s line l eol (d ++ (eol' ++ t)) i.line_ok x plain sound (e ∙ k)) [
        | read s' r k' sound' fewer shorter ↦
            rw (r, poll_loop)
              (rw
                (
                  ap (λ v. after_size v s' []) i.value ∙ after_size_pos (length d) s' [] h,
                  poll_loop,
                )
                (Reads-inside want n pos fuel s' d eol' t q h x' f k' m sound' (omega arith)))
        | delayed s' line' r k' plain' sound' fewer ↦
            rw (r, poll_loop)
              (waits (body_at (chunked size) s' line') refl
                ((at_size (Wire.chunk l eol d eol' t q i h x x' f (k' ∙ e ∙ k) m), plain'), sound')
                (omega arith))
      ]

  Reads-end :
      (fuel : ℕ) (s : Source) (line e t : Bytes) {p : Bytes}
      → Eol e
      → Framed t p
      → line ++ stream s ≡ e ++ t
      → all no_break line ≡ true
      → IsSound s.coming
      → delays s.coming ≤ n
      → Enough fuel s
      → Reads fuel want n (chunked data_end) s line p
  unfolding poll_loop turn_in Carries LineFits
  Reads-end zero s line e t x f h plain sound few enough = absurd (omega arith)
  Reads-end (suc fuel) s line e t x f h plain sound few enough =
      elim (poll_line-IsLine s line [] e t blank_line x plain sound h) [
        | read s' r k sound' fewer shorter ↦
            rw (r, poll_loop)
              (Reads-size fuel s' [] f k refl sound' (omega arith)
                (omega (arith, ap (length {A = ℕ}) k)))
        | delayed s' line' r k plain' sound' fewer ↦
            rw (r, poll_loop)
              (waits (body_at (chunked data_end) s' line') refl
                ((at_end e t x f (k ∙ h), plain'), sound') (omega arith))
      ]

  Reads-chunked :
      (fuel : ℕ) (st : State) (s : Source) (line : Bytes) {w p : Bytes}
      → Holds st w p
      → line ++ stream s ≡ w
      → LineFits st line
      → IsSound s.coming
      → delays s.coming ≤ n
      → Enough (suc fuel) s
      → Reads (suc fuel) want n (chunked st) s line p
  unfolding LineFits
  Reads-chunked fuel size s line (at_size f) e fit sound few enough =
      Reads-size (suc fuel) s line f e fit sound few enough
  Reads-chunked fuel (in_data k) s line (inside d eol t q long h x f e' m) e fit sound few enough =
      rw (← long) (
        rw fit (
          Reads-inside want n pos fuel s d eol t q (omega arith) x f
            (ap (λ line. line ++ stream s) (sym fit) ∙ e ∙ e') m sound few))
  Reads-chunked fuel data_end s line (at_end eol t x f e') e fit sound few enough =
      Reads-end (suc fuel) s line eol t x f (e ∙ e') fit sound few enough
  Reads-chunked fuel trailers s line (in_trailers t none_left) e fit sound few enough =
      Reads-trailers (suc fuel) s line t e fit none_left sound few enough
  Reads-chunked fuel done s line (finished none_left) e fit sound few enough =
      rw fit (Reads-finished want n pos fuel s none_left sound few)

  Reads-body :
      (fuel : ℕ) (f : Framing) (s : Source) (line p : Bytes)
      → Carries f line (stream s) p
      → IsSound s.coming
      → delays s.coming ≤ n
      → Enough (suc fuel) s
      → Reads (suc fuel) want n f s line p
  unfolding Carries
  Reads-body fuel (chunked st) s line p (holds, fit) sound few enough =
      Reads-chunked fuel st s line holds refl fit sound few enough
  Reads-body fuel (of_length k) s line p (bare, long, after, e) sound few enough =
      subst (λ line. Reads (suc fuel) want n (of_length k) s line p) (sym bare)
        (Reads-length want n pos fuel k s p after long e sound few)
  Reads-body fuel until_close s line p (bare, e) sound few enough =
      subst (λ p. Reads (suc fuel) want n until_close s line p) (sym e)
        (subst (λ line. Reads (suc fuel) want n until_close s line (stream s)) (sym bare)
          (Reads-close want n pos fuel s sound few))

-- A poll into a buffer with room, of a body that carries a payload over a sound connection,
-- gives the next piece of it, not more than fits and nothing only when it is used up, and the
-- rest is still to come, or it is pending, all is still to come, and fewer delays are.
pub poll_read-Answer :
    (want : ℕ) (b : AsyncBody) (p : Bytes)
    → 0 < want
    → BodyCarries b p
    → Answer want (delays b.inner.coming) p (poll_read want b)
unfolding poll_read
poll_read-Answer want b p h (carries, sound) =
    let room : (want == 0) ≡ false = ground arith in
    let fuel : suc (2 + length (stream b.inner)) ≡ 3 + length (stream b.inner) = omega arith in
    rw room (
      subst (λ fuel. Answer want (delays b.inner.coming) p (poll_loop fuel want b)) fuel
        (Reads-body want (delays b.inner.coming) h (2 + length (stream b.inner)) b.framing b.inner
          b.line p carries sound (omega arith) (omega arith)))
