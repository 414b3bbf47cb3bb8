-- ===== src/AsyncBody/Collect.antt =====
-- Reading a body to its end, as its callers do: poll, with a buffer of `room k + 1` bytes in round
-- `k`, again when nothing is there yet, until a read gives nothing or fails.
use lager_rs.Prelude.{
  ℕ, zero, suc, ◌+◌, ◌<◌, ◌≡◌, refl, sym, ap, ◌∙◌, Option, none, some, [], ◌∷◌, ◌++◌, Bytes, Result,
  ok, err, length, length-append, arith,
}
use lager_rs.Io.{IoError}
use lager_rs.AsyncBody.Source.{Poll, ready, pending}
use lager_rs.AsyncBody.Body.{AsyncBody, poll_read}
use lager_rs.AsyncBody.Pieces.{delays}
use lager_rs.AsyncBody.Decode.{BodyCarries, gives, waits}
use lager_rs.AsyncBody.Turns.{poll_read-Answer}

-- `none`: the fuel ran out before the end.
abbrev pub prepend : Bytes → Option (Result IoError Bytes) → Option (Result IoError Bytes)
prepend out none = none
prepend out (some (ok more)) = some (ok (out ++ more))
prepend out (some (err e)) = some (err e)

abbrev pub after_poll :
    Poll (Result IoError Bytes) → Option (Result IoError Bytes) → Option (Result IoError Bytes)
after_poll pending rest = rest
after_poll (ready (err e)) rest = some (err e)
after_poll (ready (ok [])) rest = some (ok [])
after_poll (ready (ok (b ∷ out))) rest = prepend (b ∷ out) rest

unfoldable pub collect : ℕ → (ℕ → ℕ) → ℕ → AsyncBody → Option (Result IoError Bytes)
unfolding poll_read
collect zero room k b = none
collect (suc fuel) room k b =
    let (a, b') = poll_read (suc (room k)) b in
    let rest = collect fuel room (suc k) b' in after_poll a rest

-- However a sound connection cuts and delays the bytes of a body, and whatever the buffers,
-- polling comes to the end and gives exactly the payload, in each of the three framings. One poll
-- more than there are payload bytes and delays is enough.
pub collect-payload :
    (fuel : ℕ) (room : ℕ → ℕ) (k : ℕ) (b : AsyncBody) (p : Bytes)
    → length p + delays b.inner.coming < fuel
    → BodyCarries b p
    → collect fuel room k b ≡ some (ok p)
unfolding collect
collect-payload zero room k b p h c = absurd (omega arith)
collect-payload (suc fuel) room k b p h c =
    elim (poll_read-Answer (suc (room k)) b p (omega arith) c) [
      | gives [] rest b' r e short over c' few ↦
          rw (r, collect) (ap (λ p. some (ok p)) (sym (over refl)))
      | gives (x ∷ out) rest b' r e short over c' few ↦
          rw (r, collect)
            (ap (prepend (x ∷ out)) (
                collect-payload fuel room (suc k) b' rest
                  (omega (arith, ap (length {A = ℕ}) e, length-append (x ∷ out) rest)) c')
              ∙ ap (λ p. some (ok p)) (sym e))
      | waits b' r c' fewer ↦
          rw (r, collect) (collect-payload fuel room (suc k) b' p (omega arith) c')
    ]
