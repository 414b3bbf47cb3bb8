-- ===== src/ScopeTrace/RoundTrip.antt =====
-- Reading back a frame that is laid out as the box writes it.
use lager_rs.Prelude.{
  ℕ, zero, suc, ◌+◌, ◌*◌, ◌-◌, ◌<◌, ◌^◌, ◌≡◌, refl, ap, subst, ◌∙◌, true, false, Option, some, List,
  [], ◌∷◌, ◌++◌, append_assoc, Bytes, ok, get_elem?, drop, length, length-append, leb, ltb, ◌==◌,
  ==_iff, ◌>>=?◌, arith,
}
use lager_rs.ScopeTrace.Frame.{bytes_at, from_le_bytes, number_at, slice_from}
use lager_rs.ScopeTrace.Capture.{
  TraceCoupling, dc, ac, gnd, TraceChannel, ScopeCapture, header_size, channel_desc_size,
  coupling_of, channel_at, channels_loop, capture_of, decode_payload, decode_body, decode_frame,
}
use lager_rs.ScopeTrace.Safety.{IsLetter}
use lager_rs.ScopeTrace.Layout.{
  from_le_bytes-to_le, coupling_code, descriptor, descriptors, payload, header, frame, ChannelFits,
  ChannelsFit, SamplesFit, counts_of-payload, length-payload, length-descriptors,
}

module _ {ℓ κ} {A : Type ℓ} {B : Type κ} where
  then_some :
      (f : A → Option B) {o : Option A} {a : A} {r : Option B}
      → o ≡ some a
      → f a ≡ r
      → (o >>=? f) ≡ r
  then_some f e h = ap (λ o. o >>=? f) e ∙ h

-- Behind a front, the places are those of the rest.
get_elem?-front :
    (front rest : Bytes) (n k : ℕ)
    → n ≡ length front + k
    → get_elem? (front ++ rest) n ≡ get_elem? rest k
get_elem?-front [] rest n k h = ap (get_elem? rest) (omega arith)
get_elem?-front (b ∷ front) rest zero k h = absurd (omega arith)
get_elem?-front (b ∷ front) rest (suc n) k h = get_elem?-front front rest n k (omega arith)

bytes_at-front :
    (width : ℕ) (front rest : Bytes) (n k : ℕ)
    → n ≡ length front + k
    → bytes_at width (front ++ rest) n ≡ bytes_at width rest k
unfolding bytes_at
bytes_at-front zero front rest n k h = refl
bytes_at-front (suc width) front rest n k h =
    rw (get_elem?-front front rest n k h)
      (rw (bytes_at-front width front rest (suc n) (suc k) (omega arith)) refl)

number_at-front :
    (width : ℕ) (front rest : Bytes) (n k : ℕ)
    → n ≡ length front + k
    → number_at width (front ++ rest) n ≡ number_at width rest k
unfolding number_at
number_at-front width front rest n k h =
    ap (λ o. o >>=? λ bs. some (from_le_bytes bs)) (bytes_at-front width front rest n k h)

drop-front : (front rest : Bytes) (n : ℕ) → n ≡ length front → drop n (front ++ rest) ≡ rest
drop-front [] rest n h = ap (λ n. drop n rest) h
drop-front (b ∷ front) rest zero h = absurd (omega arith)
drop-front (b ∷ front) rest (suc n) h = drop-front front rest n (omega arith)

coupling_of-coupling_code : (c : TraceCoupling) → coupling_of (coupling_code c) ≡ c
coupling_of-coupling_code dc = refl
coupling_of-coupling_code ac = refl
coupling_of-coupling_code gnd = refl

channel_at-descriptor :
    (front : Bytes) (ch : TraceChannel) (more : Bytes) (at : ℕ)
    → at ≡ length front
    → ChannelFits ch
    → channel_at (front ++ (descriptor ch ++ more)) at (ch.label - 65) ≡ some ch
unfolding channel_at ChannelFits IsLetter number_at bytes_at
channel_at-descriptor front ch more at h ((low, high), scale, offset) =
    let rest = descriptor ch ++ more in
    then_some _ (get_elem?-front front rest (at + 1) 1 (omega arith)) (
      then_some _ (get_elem?-front front rest (at + 2) 2 (omega arith)) (
        then_some _
          (number_at-front 4 front rest (at + 4) 4 (omega arith)
            ∙ ap some (from_le_bytes-to_le 4 ch.scale_v_per_count (omega arith)))
          (then_some _
            (number_at-front 4 front rest (at + 8) 8 (omega arith)
              ∙ ap some (from_le_bytes-to_le 4 ch.offset_v (omega arith)))
            (ap some (
              ap (λ l. record ch { label = l; coupling = coupling_of (coupling_code ch.coupling) })
                (omega arith)
              ∙ ap (λ c. record ch { coupling = c }) (coupling_of-coupling_code ch.coupling))))))

channels_loop-descriptors :
    (cs : List TraceChannel) (front more : Bytes) (i : ℕ)
    → header_size + i * channel_desc_size ≡ length front
    → ChannelsFit cs
    → channels_loop (front ++ (descriptors cs ++ more)) (length cs) i ≡ some (ok cs)
unfolding channels_loop ChannelsFit ChannelFits IsLetter
channels_loop-descriptors [] front more i h fits = refl
channels_loop-descriptors (ch ∷ cs) front more i h (((low, high), scale, offset), fits) =
    let behind = descriptors cs ++ more in
    let buf = front ++ (descriptor ch ++ behind) in
    let at = 64 + i * 16 in
    let known : ltb 25 (ch.label - 65) ≡ false = ground arith in
    let next : channels_loop buf (length cs) (suc i) ≡ some (ok cs) =
      subst (λ b. channels_loop b (length cs) (suc i) ≡ some (ok cs))
        (append_assoc front (descriptor ch) behind)
        (channels_loop-descriptors cs (front ++ descriptor ch) more (suc i)
          (omega (arith, length-append front (descriptor ch))) fits) in
    then_some _ (get_elem?-front front (descriptor ch ++ behind) at 0 (omega arith)) (
      rw known (
        then_some _ (channel_at-descriptor front ch behind at h ((low, high), scale, offset))
          (then_some _ next refl)))

-- What the fields of a capture can hold.
unfoldable pub CaptureFits : ScopeCapture → Type 0
CaptureFits c =
    (c.seq < 2 ^ 64)
    × (c.capture_mono_ns < 2 ^ 64)
    × (c.sample_interval_ns < 2 ^ 64)
    × (c.pre_trigger_samples < 2 ^ 32)
    × (c.post_trigger_samples < 2 ^ 32)
    × (c.samples_per_channel < 2 ^ 32)
    × (c.overflow_mask < 2 ^ 16)
    × (c.flags < 2 ^ 16)
    × (c.screen_samples < 2 ^ 32)
    × ChannelsFit c.channels
    × SamplesFit c.samples
    × (length c.samples ≡ c.samples_per_channel * length c.channels)

capture_of-frame :
    (c : ScopeCapture)
    → CaptureFits c
    → capture_of (frame c) c.samples_per_channel c.channels (payload c.samples) ≡ some c
unfolding capture_of CaptureFits number_at bytes_at
capture_of-frame c
      (seq, mono, interval, pre, post, per, overflow, flags, screen, channels, samples, whole) =
    rw (from_le_bytes-to_le 8 c.seq (omega arith)) (
      rw (from_le_bytes-to_le 8 c.capture_mono_ns (omega arith)) (
        rw (from_le_bytes-to_le 8 c.sample_interval_ns (omega arith)) (
          rw (from_le_bytes-to_le 4 c.pre_trigger_samples (omega arith)) (
            rw (from_le_bytes-to_le 4 c.post_trigger_samples (omega arith)) (
              rw (from_le_bytes-to_le 2 c.overflow_mask (omega arith)) (
                rw (from_le_bytes-to_le 2 c.flags (omega arith)) (
                  rw (from_le_bytes-to_le 4 c.screen_samples (omega arith))
                    (rw (counts_of-payload c.samples samples) refl))))))))

slice_from-front :
    (front rest : Bytes) (n : ℕ) → n ≡ length front → slice_from (front ++ rest) n ≡ some rest
slice_from-front front rest n h =
    let there : leb n (length (front ++ rest)) ≡ true = ground (arith, length-append front rest) in
    rw there (ap some (drop-front front rest n h))

decode_payload-frame :
    (c : ScopeCapture)
    → CaptureFits c
    → decode_payload
        (frame c)
        (length c.channels)
        (header_size + length c.channels * channel_desc_size)
        c.channels
      ≡ some (ok c)
unfolding decode_payload CaptureFits number_at bytes_at
decode_payload-frame c fits =
    let (seq, mono, interval, pre, post, per, overflow, flags, screen, channels, samples, whole) =
      fits in
    let front = header c ++ descriptors c.channels in
    let n = length c.channels in
    let cut : slice_from (frame c) (64 + n * 16) ≡ some (payload c.samples) =
      subst (λ b. slice_from b (64 + n * 16) ≡ some (payload c.samples))
        (append_assoc (header c) (descriptors c.channels) (payload c.samples))
        (slice_from-front front (payload c.samples) (64 + n * 16)
          (omega (arith, length-descriptors c.channels))) in
    let exact : (length (payload c.samples) == c.samples_per_channel * n * 2) ≡ true =
      (==_iff _ _).1 (length-payload c.samples ∙ ap (λ n. n * 2) whole) in
    rw (from_le_bytes-to_le 4 c.samples_per_channel (omega arith))
      (then_some _ cut (rw exact (ap (λ o. o >>=? λ c. some (ok c)) (capture_of-frame c fits))))

-- Every capture whose fields fit their widths, and whose channels are labelled by capital
-- letters and have their samples, is read back from its frame.
pub decode_frame-frame : (c : ScopeCapture) → CaptureFits c → decode_frame (frame c) ≡ some (ok c)
unfolding decode_frame decode_body CaptureFits number_at bytes_at from_le_bytes
decode_frame-frame c fits =
    let (seq, mono, interval, pre, post, per, overflow, flags, screen, channels, samples, whole) =
      fits in
    let n = length c.channels in
    let behind = descriptors c.channels ++ payload c.samples in
    let size : length behind ≡ n * 16 + length (payload c.samples) =
      length-append (descriptors c.channels) (payload c.samples)
      ∙ ap (λ k. k + length (payload c.samples)) (length-descriptors c.channels) in
    let long : ltb (length (frame c)) 64 ≡ false = ground arith in
    let room : ltb (length (frame c)) (64 + n * 16) ≡ false = ground arith in
    rw long (
      rw room (
        then_some _
          (channels_loop-descriptors c.channels (header c) (payload c.samples) 0 (omega arith)
            channels)
          (decode_payload-frame c fits)))
