-- ===== src/Chunked/Trailer.antt =====
-- The loop of `skip_trailers`: the fuel is enough, and well-formed trailers are skipped.
use lager_rs.Prelude.{
  ℕ, zero, suc, ◌+◌, ◌<◌, ◌≡◌, ◌⊎◌, refl, ◌∙◌, Option, none, some, ◌||◌, [], ◌∷◌, Bytes, Result, ok,
  err, length, last, ◌==◌, Bool-cases, inl, inr, arith,
}
use lager_rs.Io.{IoError}
use lager_rs.Chunked.Source.{Source, ends_line, cut_line, read_until}
use lager_rs.Chunked.Reader.{
  judge_line, judge_read, read_line, Skip, stop, again, judge_trailer, skip_turn, skip_loop,
  skip_trailers,
}
use lager_rs.Chunked.Framing.{Trailers, closed, blank, line}
use lager_rs.Chunked.Lines.{read_line-IsLine, read_line-nil}

length-cut_line :
    (k : ℕ) (bs : Bytes) → length (cut_line k bs).0 + length (cut_line k bs).1 ≡ length bs
unfolding cut_line
length-cut_line zero bs = omega arith
length-cut_line (suc k) [] = omega arith
length-cut_line (suc k) (b ∷ bs) = ground (arith, length-cut_line k bs)

abbrev Measured : ℕ → Result IoError Bytes × Source → Type 0
Measured n (ok l, s) = length l + length s.rest ≡ n
Measured n (err e, s) = Unit

read_until-Measured : (k : ℕ) (s : Source) → Measured (length s.rest) (read_until k s)
unfolding read_until
read_until-Measured k s =
    elim (Bool-cases
      (ends_line (last (cut_line k s.rest).0) || length (cut_line k s.rest).0 == k)) [
        | inl full ↦ rw full (length-cut_line k s.rest)
        | inr short ↦
            rw short
              (elim s.fault
                as (λ o. Measured (length s.rest) (
                  elim o [ none ↦ ok (cut_line k s.rest).0 | some e ↦ err e ],
                  record s { rest = (cut_line k s.rest).1 },
                )) [ none ↦ length-cut_line k s.rest | some e ↦ tt ])
      ]

judge_read_shorter :
    (n : ℕ) (r : Result IoError Bytes × Source) {s' : Source} {l : Bytes}
    → Measured n r
    → judge_read r ≡ (ok (some l), s')
    → length s'.rest < n
unfolding judge_line
judge_read_shorter n (ok l, s) m h = ground arith
judge_read_shorter n (err e, s) m h = cc

-- A line that is read takes at least one byte from the stream.
pub read_line_shorter :
    (s : Source) {s' : Source} {l : Bytes}
    → read_line s ≡ (ok (some l), s')
    → length s'.rest < length s.rest
unfolding read_line
read_line_shorter s h = judge_read_shorter (length s.rest) _ (read_until-Measured 1026 s) h

judge_trailer-again :
    (r : Result IoError (Option Bytes) × Source) {s' : Source}
    → judge_trailer r ≡ again s'
    → (l : Bytes) × (r ≡ (ok (some l), s'))
judge_trailer-again (err e, s) h = cc
judge_trailer-again (ok none, s) h = cc
judge_trailer-again (ok (some []), s) h = cc
judge_trailer-again (ok (some (c ∷ l)), s) h = (c ∷ l, cc)

skip_turn_shorter :
    (s : Source) {s' : Source} → skip_turn s ≡ again s' → length s'.rest < length s.rest
unfolding skip_turn
skip_turn_shorter s h = let (l, e) = judge_trailer-again (read_line s) h in read_line_shorter s e

pub Skip-cases :
    (t : Skip)
    → ((r : Result IoError (Unit {0})) × (s : Source) × (t ≡ stop r s))
      ⊎ ((s : Source) × (t ≡ again s))
Skip-cases (stop r s) = inl (r, s, refl)
Skip-cases (again s) = inr (s, refl)

-- Fuel above the length of the stream changes nothing.
skip_loop_fuel :
    (f g : ℕ) (s : Source) → length s.rest < f → length s.rest < g → skip_loop f s ≡ skip_loop g s
unfolding skip_loop
skip_loop_fuel zero g s h k = absurd (omega arith)
skip_loop_fuel (suc f) zero s h k = absurd (omega arith)
skip_loop_fuel (suc f) (suc g) s h k = elim (Skip-cases (skip_turn s)) [
  | inl (r, s', e) ↦ rw (e, skip_loop)
  | inr (s', e) ↦
      let m = skip_turn_shorter s e in
      rw (e, skip_loop) (skip_loop_fuel f g s' (omega arith) (omega arith))
]

abbrev pub skip_on : Skip → Result IoError (Unit {0}) × Source
skip_on (stop r s) = (r, s)
skip_on (again s) = skip_trailers s

-- `skip_trailers` is its loop: a turn, and then itself again unless the turn left the loop.
pub skip_trailers_lem : (s : Source) → skip_trailers s ≡ skip_on (skip_turn s)
unfolding skip_trailers skip_loop
skip_trailers_lem s = elim (Skip-cases (skip_turn s)) [
  | inl (r, s', e) ↦ rw (e, skip_loop)
  | inr (s', e) ↦
      let m = skip_turn_shorter s e in
      rw (e, skip_loop)
        (skip_loop_fuel (length s.rest) (suc (length s'.rest)) s' (omega arith) (omega arith))
]

-- Well-formed trailers are skipped without an error.
pub skip_trailers-Trailers :
    {w : Bytes} (s : Source)
    → Trailers w
    → s.rest ≡ w
    → s.fault ≡ none
    → (s' : Source) × (skip_trailers s ≡ (ok tt, s')) × (s'.fault ≡ none)
unfolding skip_turn
skip_trailers-Trailers s (closed p) h f =
    (record s { rest = [] }, skip_trailers_lem s ∙ rw (read_line-nil s (h ∙ p) f), f)
skip_trailers-Trailers s (blank e after x p) h f = (
  record s { rest = after },
  skip_trailers_lem s
      ∙ rw (read_line-IsLine s [] e after (record { plain = refl; fits = omega arith }) x (h ∙ p)),
  f,
)
skip_trailers-Trailers s (line c l e t i x later p) h f =
    let (s', q, c') = skip_trailers-Trailers (record s { rest = t }) later refl f in
    (s', skip_trailers_lem s ∙ rw (read_line-IsLine s (c ∷ l) e t i x (h ∙ p)) q, c')
