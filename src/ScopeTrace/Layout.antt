-- ===== src/ScopeTrace/Layout.antt =====
-- The layout of a frame, as the box writes it: a header of 64 bytes, 16 bytes for each channel,
-- and the counts of one channel behind those of the other.
use lager_rs.Prelude.{
  ℕ, zero, suc, ◌*◌, ◌-◌, ◌/◌, ◌%◌, ◌<◌, ◌^◌, ◌≡◌, refl, ap, ◌∙◌, List, [], ◌∷◌, ◌++◌, Bytes,
  length, arith,
}
use lager_rs.ScopeTrace.Frame.{from_le_bytes, counts_of}
use lager_rs.ScopeTrace.Capture.{
  TraceCoupling, dc, ac, gnd, TraceChannel, ScopeCapture, magic_number, version_number,
}
use lager_rs.ScopeTrace.Safety.{IsLetter}

abbrev pub to_le : ℕ → ℕ → Bytes
to_le zero n = []
to_le (suc k) n = n % 256 ∷ to_le k (n / 256)

abbrev pub limit : ℕ → ℕ
limit zero = 1
limit (suc k) = 256 * limit k

pub from_le_bytes-to_le : (k n : ℕ) → n < limit k → from_le_bytes (to_le k n) ≡ n
unfolding from_le_bytes
from_le_bytes-to_le zero n h = omega arith
from_le_bytes-to_le (suc k) n h = omega (arith, from_le_bytes-to_le k (n / 256) (omega arith))

abbrev pub coupling_code : TraceCoupling → ℕ
coupling_code dc = 0
coupling_code ac = 1
coupling_code gnd = 2

abbrev pub descriptor : TraceChannel → Bytes
descriptor ch =
    ((ch.label - 65) ∷ ch.range_code ∷ coupling_code ch.coupling ∷ 0 ∷ [])
    ++ (to_le 4 ch.scale_v_per_count ++ (to_le 4 ch.offset_v ++ to_le 4 0))

abbrev pub descriptors : List TraceChannel → Bytes
descriptors [] = []
descriptors (ch ∷ cs) = descriptor ch ++ descriptors cs

abbrev pub payload : List ℕ → Bytes
payload [] = []
payload (s ∷ ss) = to_le 2 s ++ payload ss

abbrev pub header : ScopeCapture → Bytes
header c =
    to_le 4 magic_number
    ++ (to_le 2 version_number
        ++ (to_le 2 c.flags
            ++ (to_le 8 c.seq
                ++ (to_le 8 c.capture_mono_ns
                    ++ (to_le 8 c.sample_interval_ns
                        ++ (to_le 4 c.pre_trigger_samples
                            ++ (to_le 4 c.post_trigger_samples
                                ++ (to_le 4 c.samples_per_channel
                                    ++ ((length c.channels ∷ c.resolution_bits ∷ [])
                                        ++ (to_le 2 c.overflow_mask
                                            ++ (to_le 4 c.screen_samples ++ to_le 12 0)))))))))))

abbrev pub frame : ScopeCapture → Bytes
frame c = header c ++ (descriptors c.channels ++ payload c.samples)

-- What the fields of a descriptor can hold.
unfoldable pub ChannelFits : TraceChannel → Type 0
ChannelFits ch = IsLetter ch × (ch.scale_v_per_count < 2 ^ 32) × (ch.offset_v < 2 ^ 32)

unfoldable pub ChannelsFit : List TraceChannel → Type 0
ChannelsFit [] = Unit
ChannelsFit (ch ∷ cs) = ChannelFits ch × ChannelsFit cs

unfoldable pub SamplesFit : List ℕ → Type 0
SamplesFit [] = Unit
SamplesFit (s ∷ ss) = (s < 2 ^ 16) × SamplesFit ss

pub counts_of-payload : (ss : List ℕ) → SamplesFit ss → counts_of (payload ss) ≡ ss
unfolding counts_of SamplesFit
counts_of-payload [] h = refl
counts_of-payload (s ∷ ss) (h, more) =
    ap (λ n. n ∷ counts_of (payload ss)) (from_le_bytes-to_le 2 s h)
    ∙ ap (◌∷◌ s) (counts_of-payload ss more)

pub length-payload : (ss : List ℕ) → length (payload ss) ≡ length ss * 2
length-payload [] = refl
length-payload (s ∷ ss) = omega (arith, length-payload ss)

pub length-descriptors : (cs : List TraceChannel) → length (descriptors cs) ≡ length cs * 16
length-descriptors [] = refl
length-descriptors (ch ∷ cs) = omega (arith, length-descriptors cs)
