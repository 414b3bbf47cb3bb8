-- ===== src/Chunked/Decode.antt =====
-- What reading from a well-formed chunked stream gives: the payload, in order, and no more.
use lager_rs.Prelude.{
  ℕ, zero, suc, ◌-◌, ◌≤◌, ◌<◌, min, ◌≡◌, refl, sym, ap, subst, ◌∙◌, false, none, [], ◌∷◌, ◌++◌,
  append_assoc, Bytes, Result, ok, length, take, drop, take-append-drop, take-append, drop-append,
  length-take, length-drop, ◌==◌, if◌then◌else◌, Bool-cases, inl, inr, arith,
}
use lager_rs.Io.{IoError}
use lager_rs.Chunked.Source.{Source, next_grant, later_grants, granted, hand_out, read_some}
use lager_rs.Chunked.Reader.{
  State, size, in_data, data_end, trailers, done, ChunkedReader, give, again, at_state, after_size,
  turn_in, read_loop, read,
}
use lager_rs.Chunked.Framing.{Eol, Trailers, Framed, closed, final, chunk}
use lager_rs.Chunked.Lines.{read_line-IsLine, read_line-nil}
use lager_rs.Chunked.Trailer.{skip_trailers-Trailers}

-- `Holds st w p`: a decoder in state `st` before the bytes `w` has the payload `p` to give yet.
pub data Holds : State → Bytes → Bytes → Type 0 where
  at_size : {w p : Bytes} → Framed w p → Holds size w p
  inside :
      {n : ℕ} {w p : Bytes} (d e t q : Bytes)
      → length d ≡ n
      → 0 < n
      → Eol e
      → Framed t q
      → w ≡ d ++ (e ++ t)
      → p ≡ d ++ q
      → Holds (in_data n) w p
  at_end : {w p : Bytes} (e t : Bytes) → Eol e → Framed t p → w ≡ e ++ t → Holds data_end w p
  in_trailers : {w p : Bytes} → Trailers w → p ≡ [] → Holds trailers w p
  finished : {w p : Bytes} → p ≡ [] → Holds done w p

-- One answer of `read`: a piece of the payload, and the rest of it is still to come.
pub record Gives (want : ℕ) (p : Bytes) (answer : Result IoError Bytes × ChunkedReader)
    : Type 0 where
  pub out : Bytes
  pub later : Bytes
  pub answered : answer.0 ≡ ok out
  pub splits : p ≡ out ++ later
  pub at_most : length out ≤ want
  pub progress : out ≡ [] → p ≡ []
  pub holds : Holds answer.1.state answer.1.inner.rest later
  pub clean : answer.1.inner.fault ≡ none

granted_bounds :
    (want : ℕ) (s : Source)
    → 0 < want
    → 0 < length s.rest
    → (0 < granted s want) × (granted s want ≤ want)
granted_bounds want s h k =
    elim s.grants
      as (λ g.
        (0 < min (min want (length s.rest)) (next_grant g (length s.rest)))
        × (min (min want (length s.rest)) (next_grant g (length s.rest)) ≤ want)) [
          | [] ↦ omega arith
          | g ∷ gs ↦ omega arith
        ]

hand_out-append :
    (n : ℕ) (s : Source) (b : ℕ) (d t : Bytes)
    → n ≤ length d
    → hand_out (suc n) s ((b ∷ d) ++ t)
      ≡ (ok (b ∷ take n d), record s { rest = drop n d ++ t; grants = later_grants s.grants })
hand_out-append n s b d t h = rw (take-append n d t h) (rw (drop-append n d t h))

-- A read inside a chunk hands out a piece of it that is not empty.
read_some-append :
    (want : ℕ) (s : Source) (b : ℕ) (d t : Bytes)
    → s.rest ≡ (b ∷ d) ++ t
    → 0 < want
    → want ≤ length (b ∷ d)
    → (n : ℕ) × (n < want)
      × (read_some want s
          ≡ (ok (b ∷ take n d), record s { rest = drop n d ++ t; grants = later_grants s.grants }))
unfolding read_some
read_some-append want s b d t e h k =
    let bounds = granted_bounds want s h (rw e (omega arith)) in
    let n = granted s want - 1 in
    let eq : granted s want ≡ suc n = omega (arith, bounds) in
    (
      n,
      omega (arith, bounds),
      ap (hand_out (granted s want) s) e
          ∙ ap (λ m. hand_out m s ((b ∷ d) ++ t)) eq
          ∙ hand_out-append n s b d t (omega (arith, bounds)),
    )

drop_all : (n : ℕ) (d : Bytes) → length d ≤ n → drop n d ≡ []
drop_all zero [] h = refl
drop_all zero (x ∷ d) h = absurd (omega arith)
drop_all (suc n) [] h = refl
drop_all (suc n) (x ∷ d) h = drop_all n d (omega arith)

-- The state behind a piece of `suc n` bytes of a chunk's payload.
abbrev state_behind : ℕ → ℕ → Bytes → State
state_behind n b d =
    let left = length (b ∷ d) - length (b ∷ take n d) in
    if left == 0 then data_end else in_data left

behind_piece :
    (n b : ℕ) (d e t q : Bytes)
    → n ≤ length d
    → Eol e
    → Framed t q
    → Holds (state_behind n b d) (drop n d ++ (e ++ t)) (drop n d ++ q)
behind_piece n b d e t q h x f = elim (Bool-cases (length (b ∷ d) - length (b ∷ take n d) == 0)) [
  | inl full ↦ rw full (rw (drop_all n d (ground (arith, length-take n d))) (at_end e t x f refl))
  | inr part ↦ rw part (
      inside (drop n d) e t q (omega (arith, length-take n d, length-drop n d))
        (ground (arith, length-take n d)) x f refl refl)
]

data_turn-Gives :
    (want : ℕ) (s : Source) (b : ℕ) (d e t q : Bytes)
    → 0 < want
    → s.rest ≡ (b ∷ d) ++ (e ++ t)
    → s.fault ≡ none
    → Eol e
    → Framed t q
    → (a : Result IoError Bytes × ChunkedReader) × (turn_in (in_data (length (b ∷ d))) want s
        ≡ give a.0 a.1)
      × Gives want ((b ∷ d) ++ q) a
unfolding turn_in
data_turn-Gives want s b d e t q pos h f x g =
    let (n, small, eq) =
      read_some-append (min want (length (b ∷ d))) s b d (e ++ t) h (omega arith) (omega arith) in
    let s' = record s { rest = drop n d ++ (e ++ t); grants = later_grants s.grants } in
    (
      (ok (b ∷ take n d), at_state (state_behind n b d) s'),
      rw eq,
      record {
        out = b ∷ take n d;
        later = drop n d ++ q;
        answered = refl;
        splits =
            ap (◌∷◌ b) (
              sym (ap (λ l. l ++ q) (take-append-drop n d)) ∙ append_assoc (take n d) (drop n d) q);
        at_most = omega (arith, length-take n d);
        progress = λ p. cc;
        holds = behind_piece n b d e t q (omega arith) x g;
        clean = f;
      },
    )

after_size_pos : (n : ℕ) (s : Source) → 0 < n → after_size (ok n) s ≡ again (at_state (in_data n) s)
after_size_pos zero s h = absurd (omega arith)
after_size_pos (suc n) s h = refl

-- A well-formed reader gives a piece of the payload, whatever its state.
abbrev Reads : ℕ → ℕ → State → Source → Bytes → Type 0
Reads fuel want st s p = Gives want p (read_loop fuel want (at_state st s))

module _ (want : ℕ) (pos : 0 < want) where
  Reads-finished :
      (f : ℕ) (s : Source) {p : Bytes} → p ≡ [] → s.fault ≡ none → Reads (suc f) want done s p
  unfolding read_loop
  Reads-finished f s h c = record {
    out = [];
    later = [];
    answered = refl;
    splits = h;
    at_most = omega arith;
    progress = λ _. h;
    holds = finished refl;
    clean = c;
  }

  Reads-inside :
      (f : ℕ) (s : Source) (d e t q : Bytes) {p : Bytes}
      → 0 < length d
      → Eol e
      → Framed t q
      → s.rest ≡ d ++ (e ++ t)
      → p ≡ d ++ q
      → s.fault ≡ none
      → Reads (suc f) want (in_data (length d)) s p
  unfolding read_loop
  Reads-inside f s [] e t q h x g k l c = absurd (omega arith)
  Reads-inside f s (b ∷ d) e t q h x g k l c =
      let (a, turned, gives) = data_turn-Gives want s b d e t q pos k c x g in
      rw l (rw (turned, read_loop) gives)

  Reads-trailers :
      (f : ℕ) (s : Source) {p : Bytes}
      → Trailers s.rest
      → p ≡ []
      → s.fault ≡ none
      → Reads (suc (suc f)) want trailers s p
  unfolding read_loop
  Reads-trailers f s t h c =
      let (s', e, c') = skip_trailers-Trailers s t refl c in
      rw (e, read_loop) (Reads-finished f s' h c')

  Reads-size :
      (f : ℕ) (s : Source) {w p : Bytes}
      → Framed w p
      → s.rest ≡ w
      → s.fault ≡ none
      → Reads (suc (suc f)) want size s p
  unfolding read_loop
  Reads-size f s (closed h k) e c =
      rw (read_line-nil s (e ∙ h) c, read_loop)
        (record {
          out = [];
          later = [];
          answered = refl;
          splits = k;
          at_most = omega arith;
          progress = λ _. k;
          holds = finished refl;
          clean = c;
        })
  Reads-size f s (final l eol t i x tr h k) e c =
      let s' = record s { rest = t } in
      let (s'', skipped, c') = skip_trailers-Trailers s' tr refl c in
      rw (read_line-IsLine s l eol t i.line_ok x (e ∙ h), read_loop)
        (rw (i.value, skipped, read_loop) (Reads-finished f s'' k c'))
  Reads-size f s (chunk l eol d eol' t q i h x x' fr k m) e c =
      let s' = record s { rest = d ++ (eol' ++ t) } in
      rw (read_line-IsLine s l eol (d ++ (eol' ++ t)) i.line_ok x (e ∙ k), read_loop)
        (rw (ap (λ v. after_size v s') i.value ∙ after_size_pos (length d) s' h)
          (Reads-inside f s' d eol' t q h x' fr refl m c))

  Reads-end :
      (f : ℕ) (s : Source) (e t : Bytes) {p : Bytes}
      → Eol e
      → Framed t p
      → s.rest ≡ e ++ t
      → s.fault ≡ none
      → Reads (suc (suc (suc f))) want data_end s p
  unfolding read_loop
  Reads-end f s e t x fr h c =
      rw (read_line-IsLine s [] e t (record { plain = refl; fits = omega arith }) x h, read_loop)
        (Reads-size f (record s { rest = t }) fr refl c)

  read_loop-Gives :
      {st : State} {w p : Bytes} (s : Source)
      → Holds st w p
      → s.rest ≡ w
      → s.fault ≡ none
      → Reads 4 want st s p
  read_loop-Gives s (at_size f) e c = Reads-size 2 s f e c
  read_loop-Gives s (inside d eol t q len h x f k m) e c =
      rw (← len) (Reads-inside 3 s d eol t q (omega arith) x f (e ∙ k) m c)
  read_loop-Gives s (at_end eol t x f k) e c = Reads-end 1 s eol t x f (e ∙ k) c
  read_loop-Gives s (in_trailers t k) e c = Reads-trailers 2 s (subst Trailers (sym e) t) k c
  read_loop-Gives s (finished k) e c = Reads-finished 3 s k c

-- A read into a buffer with room, at any point of a well-formed stream and however the network
-- cuts it, gives the next piece of the payload with no error: not more than fits, and nothing only
-- when the payload is used up. The rest of the payload is still to come.
pub read-Gives :
    (want : ℕ) (r : ChunkedReader) {p : Bytes}
    → 0 < want
    → Holds r.state r.inner.rest p
    → r.inner.fault ≡ none
    → Gives want p (read want r)
unfolding read
read-Gives want r h k c =
    let e : (want == 0) ≡ false = ground arith in rw e (read_loop-Gives want h r.inner k refl c)
