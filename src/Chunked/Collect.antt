-- ===== src/Chunked/Collect.antt =====
-- Reading a decoder to its end, as `read_to_end` and the callers' loops do: with a buffer of
-- `room k + 1` bytes in round `k`, until a read gives nothing or fails.
use lager_rs.Prelude.{
  ℕ, zero, suc, ◌<◌, ◌≡◌, refl, ap, ◌∙◌, sym, Option, none, some, [], ◌∷◌, ◌++◌, Bytes, Result, ok,
  err, length, length-append, arith,
}
use lager_rs.Io.{IoError}
use lager_rs.Chunked.Source.{Source}
use lager_rs.Chunked.Reader.{ChunkedReader, new, read}
use lager_rs.Chunked.Framing.{Framed}
use lager_rs.Chunked.Decode.{Holds, at_size, read-Gives}

-- `none`: the fuel ran out before the end.
abbrev Collected : Type 0
Collected = Option (Result IoError Bytes)

abbrev prepend : Bytes → Collected → Collected
prepend out none = none
prepend out (some (ok more)) = some (ok (out ++ more))
prepend out (some (err e)) = some (err e)

abbrev after_read : Result IoError Bytes → Collected → Collected
after_read (ok []) later = some (ok [])
after_read (ok (b ∷ out)) later = prepend (b ∷ out) later
after_read (err e) later = some (err e)

unfoldable pub collect : ℕ → (ℕ → ℕ) → ℕ → ChunkedReader → Collected
collect zero room k r = none
collect (suc fuel) room k r =
    let (a, r') = read (suc (room k)) r in
    let later = collect fuel room (suc k) r' in after_read a later

after_read-out :
    (out later : Bytes) (rest : Collected)
    → (out ≡ [] → later ≡ [])
    → (0 < length out → rest ≡ some (ok later))
    → after_read (ok out) rest ≡ some (ok (out ++ later))
after_read-out [] later rest h k = rw (h refl)
after_read-out (b ∷ out) later rest h k = rw (k (omega arith))

append_nil_right : (out later : Bytes) → (out ≡ [] → out ++ later ≡ []) → out ≡ [] → later ≡ []
append_nil_right [] later h e = h e
append_nil_right (b ∷ out) later h e = cc

collect-Holds :
    (fuel : ℕ) (room : ℕ → ℕ) (k : ℕ) (r : ChunkedReader) {p : Bytes}
    → length p < fuel
    → Holds r.state r.inner.rest p
    → r.inner.fault ≡ none
    → collect fuel room k r ≡ some (ok p)
unfolding collect
collect-Holds zero room k r h m c = absurd (omega arith)
collect-Holds (suc fuel) room k r h m c =
    let g = read-Gives (suc (room k)) r (omega arith) m c in
    let r' = (read (suc (room k)) r).1 in
    rw g.answered (
      after_read-out g.out g.later (collect fuel room (suc k) r')
        (append_nil_right g.out g.later λ e. sym g.splits ∙ g.progress e)
        (λ more.
          collect-Holds fuel room (suc k) r'
            (omega (arith, ap (length {A = ℕ}) g.splits, length-append g.out g.later)) g.holds
            g.clean)
      ∙ ap (λ l. some (ok l)) (sym g.splits))

-- Read to its end, a decoder on a well-formed stream gives exactly the payload, for every choice
-- of buffer sizes and every way in which the network cuts the stream. One round more than there
-- are payload bytes is enough.
pub collect-Framed :
    (fuel : ℕ) (room : ℕ → ℕ) (s : Source) {p : Bytes}
    → length p < fuel
    → Framed s.rest p
    → s.fault ≡ none
    → collect fuel room 0 (new s) ≡ some (ok p)
unfolding new
collect-Framed fuel room s h f c = collect-Holds fuel room 0 (new s) h (at_size f) c
