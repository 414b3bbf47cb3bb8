-- ===== src/AsyncBody/Decode.antt =====
-- What polling a body gives: the payload, in order and no more, in each of its framings.
use lager_rs.Prelude.{
  ℕ, zero, suc, ◌-◌, ◌≤◌, ◌<◌, min, ◌≡◌, refl, sym, ap, subst, ◌∙◌, true, [], ◌∷◌, ◌++◌,
  append_assoc, Bytes, Result, ok, length, length-append, all, arith,
}
use lager_rs.Io.{IoError}
use lager_rs.Chunked.Reader.{State, size, in_data, data_end, trailers, done}
use lager_rs.Chunked.Framing.{Eol, Framed}
use lager_rs.Chunked.Lines.{no_break}
use lager_rs.Chunked.Decode.{Holds, inside, at_end, finished}
use lager_rs.AsyncBody.Source.{Poll, ready, pending, Source}
use lager_rs.AsyncBody.Body.{
  Framing, chunked, of_length, until_close, AsyncBody, body_at, in_chunk, turn_in, poll_loop,
  stream,
}
use lager_rs.AsyncBody.Pieces.{delays, IsSound}
use lager_rs.AsyncBody.Payload.{bytes, no_more, later, poll_payload-answer}

-- A line that is read in part has no newline, and outside the lines nothing is kept.
unfoldable pub LineFits : State → Bytes → Type 0
LineFits (in_data n) line = line ≡ []
LineFits done line = line ≡ []
LineFits size line = all no_break line ≡ true
LineFits data_end line = all no_break line ≡ true
LineFits trailers line = all no_break line ≡ true

-- `Carries f line w p`: a body in framing `f` that has read `line`, before the bytes `w`, has
-- the payload `p` to give yet.
unfoldable pub Carries : Framing → Bytes → Bytes → Bytes → Type 0
Carries (chunked st) line w p = Holds st (line ++ w) p × LineFits st line
Carries (of_length n) line w p = (line ≡ []) × (length p ≡ n) × (after : Bytes) × (w ≡ p ++ after)
Carries until_close line w p = (line ≡ []) × (p ≡ w)

abbrev pub BodyCarries : AsyncBody → Bytes → Type 0
BodyCarries b p = Carries b.framing b.line (stream b.inner) p × IsSound b.inner.coming

-- The answer to a poll, when `n` delays may come: a piece of the payload, and the rest of it is
-- still to come, or nothing yet.
pub data Answer (want n : ℕ) (p : Bytes) (r : Poll (Result IoError Bytes) × AsyncBody)
    : Type 0 where
  gives :
      (out rest : Bytes) (b : AsyncBody)
      → r ≡ (ready (ok out), b)
      → p ≡ out ++ rest
      → length out ≤ want
      → (out ≡ [] → p ≡ [])
      → BodyCarries b rest
      → delays b.inner.coming ≤ n
      → Answer want n p r
  waits :
      (b : AsyncBody)
      → r ≡ (pending, b)
      → BodyCarries b p
      → delays b.inner.coming < n
      → Answer want n p r

-- A piece that is not longer than some bytes, at their front, is the front of them.
fronts :
    (out rest d more : Bytes)
    → out ++ rest ≡ d ++ more
    → length out ≤ length d
    → (d' : Bytes) × (d ≡ out ++ d') × (rest ≡ d' ++ more)
fronts [] rest d more e h = (d, refl, e)
fronts (b ∷ out) rest [] more e h = absurd (omega arith)
fronts (b ∷ out) rest (c ∷ d) more e h =
    let first : b ≡ c = cc in
    let later : out ++ rest ≡ d ++ more = cc in
    let (d', k, l) = fronts out rest d more later (omega arith) in (d', cc, l)

nothing : (p : Bytes) → length p ≡ 0 → p ≡ []
nothing [] h = refl
nothing (b ∷ p) h = absurd (omega arith)

cut_short : (p after : Bytes) (k : ℕ) → length p ≡ k → p ++ after ≡ [] → 0 < k → ⊥
cut_short [] after k h e pos = omega arith
cut_short (b ∷ p) after k h e pos = cc

-- Behind a piece of a chunk, `d` is left of it.
in_chunk-Carries :
    (left : ℕ) (s : Source) (d e t q : Bytes)
    → length d ≡ left
    → Eol e
    → Framed t q
    → stream s ≡ d ++ (e ++ t)
    → Carries (in_chunk left) [] (stream s) (d ++ q)
unfolding Carries LineFits
in_chunk-Carries zero s d e t q h eol f k =
    let full = nothing d h in
    (
      at_end e t eol (subst (Framed t) (ap (λ d. d ++ q) (sym full)) f)
          (k ∙ ap (λ d. d ++ (e ++ t)) full),
      refl,
    )
in_chunk-Carries (suc left) s d e t q h eol f k =
    (inside d e t q h (omega arith) eol f k refl, refl)

abbrev pub Reads : ℕ → ℕ → ℕ → Framing → Source → Bytes → Bytes → Type 0
Reads fuel want n f s line p = Answer want n p (poll_loop fuel want (body_at f s line))

module _ (want n : ℕ) (pos : 0 < want) where
  pub Reads-finished :
      (fuel : ℕ) (s : Source) {p : Bytes}
      → p ≡ []
      → IsSound s.coming
      → delays s.coming ≤ n
      → Reads (suc fuel) want n (chunked done) s [] p
  unfolding poll_loop turn_in Carries LineFits
  Reads-finished fuel s h sound few =
      gives [] [] (body_at (chunked done) s []) refl h (omega arith) (λ _. h)
        ((finished refl, refl), sound) few

  pub Reads-close :
      (fuel : ℕ) (s : Source)
      → IsSound s.coming
      → delays s.coming ≤ n
      → Reads (suc fuel) want n until_close s [] (stream s)
  unfolding poll_loop turn_in Carries
  Reads-close fuel s sound few = elim (poll_payload-answer want s pos sound) [
    | bytes b out s' r e short sound' fewer ↦
        rw (r, poll_loop)
          (gives (b ∷ out) (stream s') (body_at until_close s' []) refl e short (λ x. absurd cc)
            ((refl, refl), sound') (omega arith))
    | no_more s' r e e' sound' fewer ↦
        rw (r, poll_loop)
          (gives [] [] (body_at until_close s' []) refl e (omega arith) (λ _. e)
            ((refl, sym e'), sound') (omega arith))
    | later s' r e sound' fewer ↦
        rw (r, poll_loop)
          (waits (body_at until_close s' []) refl ((refl, sym e), sound') (omega arith))
  ]

  pub Reads-length :
      (fuel k : ℕ) (s : Source) (p after : Bytes)
      → length p ≡ k
      → stream s ≡ p ++ after
      → IsSound s.coming
      → delays s.coming ≤ n
      → Reads (suc fuel) want n (of_length k) s [] p
  unfolding poll_loop turn_in Carries
  Reads-length fuel zero s p after long e sound few =
      gives [] p (body_at (of_length 0) s []) refl refl (omega arith) (λ _. nothing p long)
        ((refl, long, after, e), sound) few
  Reads-length fuel (suc k) s p after long e sound few =
      elim (poll_payload-answer (min want (suc k)) s (omega arith) sound) [
        | bytes b out s' r split short sound' fewer ↦
            let (p', front, back) =
              fronts (b ∷ out) (stream s') p after (sym split ∙ e) (omega arith) in
            rw (r, poll_loop)
              (gives (b ∷ out) p' (body_at (of_length (suc k - length (b ∷ out))) s' []) refl front
                (omega arith) (λ x. absurd cc)
                (
                  (
                    refl,
                    omega (arith, ap (length {A = ℕ}) front, length-append (b ∷ out) p'),
                    after,
                    back,
                  ),
                  sound',
                )
                (omega arith))
        | no_more s' r none_left e' sound' fewer ↦
            absurd (cut_short p after (suc k) long (sym e ∙ none_left) (omega arith))
        | later s' r e' sound' fewer ↦
            rw (r, poll_loop)
              (waits (body_at (of_length (suc k)) s' []) refl ((refl, long, after, e' ∙ e), sound')
                (omega arith))
      ]

  pub Reads-inside :
      (fuel : ℕ) (s : Source) (d e t q : Bytes) {p : Bytes}
      → 0 < length d
      → Eol e
      → Framed t q
      → stream s ≡ d ++ (e ++ t)
      → p ≡ d ++ q
      → IsSound s.coming
      → delays s.coming ≤ n
      → Reads (suc fuel) want n (chunked (in_data (length d))) s [] p
  unfolding poll_loop turn_in Carries LineFits
  Reads-inside fuel s d e t q h eol f k m sound few =
      elim (poll_payload-answer (min want (length d)) s (omega arith) sound) [
        | bytes b out s' r split short sound' fewer ↦
            let (d', front, back) =
              fronts (b ∷ out) (stream s') d (e ++ t) (sym split ∙ k) (omega arith) in
            rw (r, poll_loop)
              (gives (b ∷ out) (d' ++ q) (body_at (in_chunk (length d - length (b ∷ out))) s' [])
                refl (m ∙ ap (λ d. d ++ q) front ∙ append_assoc (b ∷ out) d' q) (omega arith)
                (λ x. absurd cc)
                (
                  in_chunk-Carries (length d - length (b ∷ out)) s' d' e t q
                      (omega (arith, ap (length {A = ℕ}) front, length-append (b ∷ out) d')) eol f
                      back,
                  sound',
                )
                (omega arith))
        | no_more s' r none_left e' sound' fewer ↦
            absurd (cut_short d (e ++ t) (length d) refl (sym k ∙ none_left) h)
        | later s' r e' sound' fewer ↦
            rw (r, poll_loop)
              (waits (body_at (chunked (in_data (length d))) s' []) refl
                ((inside d e t q refl h eol f (e' ∙ k) m, refl), sound') (omega arith))
      ]
