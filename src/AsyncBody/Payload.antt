-- ===== src/AsyncBody/Payload.antt =====
-- Polling for payload.
use lager_rs.Prelude.{
  ℕ, zero, suc, ◌≤◌, ◌<◌, min, ◌≡◌, refl, sym, ap, ◌∙◌, List, [], ◌∷◌, ◌++◌, append_assoc, Bytes,
  Result, ok, length, take, drop, take-append-drop, length-take, arith,
}
use lager_rs.Io.{IoError}
use lager_rs.AsyncBody.Source.{
  Poll, ready, pending, Arrival, piece, nothing_yet, broken, Source, poll_held, poll_fill_buf,
}
use lager_rs.AsyncBody.Body.{copied, poll_payload, bytes_in, stream}
use lager_rs.AsyncBody.Pieces.{delays, IsSound}

-- What a poll makes of payload, when `n` delays may come.
pub data PayloadAnswer (limit : ℕ) (w : Bytes) (n : ℕ) (r : Poll (Result IoError Bytes) × Source)
    : Type 0 where
  bytes :
      (b : ℕ) (out : Bytes) (s : Source)
      → r ≡ (ready (ok (b ∷ out)), s)
      → w ≡ (b ∷ out) ++ stream s
      → length (b ∷ out) ≤ limit
      → IsSound s.coming
      → delays s.coming ≤ n
      → PayloadAnswer limit w n r
  no_more :
      (s : Source)
      → r ≡ (ready (ok []), s)
      → w ≡ []
      → stream s ≡ []
      → IsSound s.coming
      → delays s.coming ≤ n
      → PayloadAnswer limit w n r
  later :
      (s : Source)
      → r ≡ (pending, s)
      → stream s ≡ w
      → IsSound s.coming
      → delays s.coming < n
      → PayloadAnswer limit w n r

copied-bytes :
    (limit b : ℕ) (held : Bytes) (coming : List Arrival)
    → 0 < limit
    → IsSound coming
    → PayloadAnswer limit
        ((b ∷ held) ++ bytes_in coming)
        (delays coming)
        (copied limit (ready (ok (b ∷ held)), record { held = b ∷ held; coming = coming }))
copied-bytes zero b held coming h sound = absurd (omega arith)
copied-bytes (suc limit) b held coming h sound =
    let n = min (length held) limit in
    let e : min (length (b ∷ held)) (suc limit) ≡ suc n = omega arith in
    bytes b (take n held) (record { held = drop n held; coming = coming })
      (ap
        (λ n.
          (ready (ok (take n (b ∷ held))), record { held = drop n (b ∷ held); coming = coming }))
        e)
      (ap (λ d. b ∷ (d ++ bytes_in coming)) (sym (take-append-drop n held))
        ∙ ap (◌∷◌ b) (append_assoc (take n held) (drop n held) (bytes_in coming)))
      (omega (arith, length-take n held)) sound (omega arith)

copied-nil :
    (limit : ℕ) (coming : List Arrival)
    → copied limit (ready (ok []), record { held = []; coming = coming })
      ≡ (ready (ok []), record { held = []; coming = coming })
copied-nil limit coming =
    let none_left : min 0 limit ≡ 0 = omega arith in
    ap (λ n. (ready (ok (take n [])), record { held = drop n []; coming = coming })) none_left

poll_held-answer :
    (limit : ℕ) (held : Bytes) (coming : List Arrival)
    → 0 < limit
    → IsSound coming
    → PayloadAnswer limit
        (held ++ bytes_in coming)
        (delays coming)
        (copied limit (poll_held held coming))
unfolding IsSound
poll_held-answer limit [] [] h sound =
    no_more (record { held = []; coming = [] }) (copied-nil limit []) refl refl tt (omega arith)
poll_held-answer limit [] (piece [] ∷ rest) h (last, sound) =
    no_more (record { held = []; coming = rest }) (copied-nil limit rest) last last sound
      (omega arith)
poll_held-answer limit [] (piece (b ∷ p) ∷ rest) h sound = copied-bytes limit b p rest h sound
poll_held-answer limit [] (nothing_yet ∷ rest) h sound =
    later (record { held = []; coming = rest }) refl refl sound (omega arith)
poll_held-answer limit [] (broken e ∷ rest) h sound = absurd sound
poll_held-answer limit (b ∷ held) coming h sound = copied-bytes limit b held coming h sound

pub poll_payload-answer :
    (limit : ℕ) (s : Source)
    → 0 < limit
    → IsSound s.coming
    → PayloadAnswer limit (stream s) (delays s.coming) (poll_payload limit s)
unfolding poll_payload poll_fill_buf
poll_payload-answer limit s h sound = poll_held-answer limit s.held s.coming h sound
