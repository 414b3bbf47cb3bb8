-- ===== src/ScopeTrace/Axes.antt =====
-- The axes of a capture, in volts and in seconds. Floating-point numbers are their bits, and
-- the arithmetic on them is a parameter.
use lager_rs.Prelude.{
  ℕ, zero, suc, Bool, Option, none, some, List, [], ◌∷◌, get_elem?, ◌==◌, ◌>>=?◌, if◌then◌else◌,
  map,
}
use lager_rs.ScopeTrace.Capture.{ScopeCapture}
use lager_rs.ScopeTrace.Reading.{channel_index, counts}

-- `f64` with what it takes from other types
pub record FloatOps : Type 0 where
  pub from_i16 : ℕ → ℕ
  pub from_u32 : ℕ → ℕ
  pub from_f32 : ℕ → ℕ
  pub add : ℕ → ℕ → ℕ
  pub mul : ℕ → ℕ → ℕ
  pub div : ℕ → ℕ → ℕ
  pub neg : ℕ → ℕ
  pub le : ℕ → ℕ → Bool
  pub nan : ℕ
  pub nought : ℕ
  pub billion : ℕ

-- `i16::MIN`
abbrev pub no_sample : ℕ
no_sample = 32768

module _ (float : FloatOps) where
  abbrev pub volt : ℕ → ℕ → ℕ → ℕ
  volt scale offset count =
      if count == no_sample
      then float.nan
      else float.add (float.mul (float.from_i16 count) scale) offset

  -- The outer `none` is a panic, of an index behind the channels.
  unfoldable pub volts : ScopeCapture → ℕ → Option (Option (List ℕ))
  unfolding channel_index counts
  volts c label = elim (channel_index c label) [
    | none ↦ some none
    | some i ↦ get_elem? c.channels i >>=? λ channel. some (
        counts c label >>=? λ counts. some (
          map (volt (float.from_f32 channel.scale_v_per_count) (float.from_f32 channel.offset_v))
            counts))
  ]

  unfoldable pub sample_rate_hz : ScopeCapture → ℕ
  sample_rate_hz c =
      if float.le c.sample_interval_ns float.nought
      then float.nought
      else float.div float.billion c.sample_interval_ns

  unfoldable pub duration_s : ScopeCapture → ℕ
  duration_s c =
      float.div (float.mul (float.from_u32 c.samples_per_channel) c.sample_interval_ns)
        float.billion

  unfoldable pub times_from : ℕ → ℕ → ℕ → ℕ → List ℕ
  times_from start interval zero i = []
  times_from start interval (suc left) i =
      float.add start (float.mul (float.from_u32 i) interval)
      ∷ times_from start interval left (suc i)

  unfoldable pub time_axis : ScopeCapture → List ℕ
  unfolding times_from
  time_axis c =
      let interval_s = float.div c.sample_interval_ns float.billion in
      let start = float.mul (float.neg (float.from_u32 c.pre_trigger_samples)) interval_s in
      times_from start interval_s c.samples_per_channel 0
