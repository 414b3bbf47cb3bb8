-- ===== src/ScopeTrace/Reading.antt =====
-- What a `ScopeCapture` says of itself and of a channel.
use lager_rs.Prelude.{
  ℕ, suc, ◌+◌, ◌*◌, ◌/◌, ◌%◌, ◌-◌, ◌^◌, Bool, false, Option, none, some, List, [], ◌∷◌, take, drop,
  length, leb, ltb, within, ◌==◌, ◌>>=?◌, if◌then◌else◌,
}
use lager_rs.ScopeTrace.Capture.{TraceChannel, ScopeCapture}

-- `n & (1 << i) != 0`
abbrev pub bit : ℕ → ℕ → Bool
bit i n = n / 2 ^ i % 2 == 1

unfoldable pub triggered : ScopeCapture → Bool
triggered c = bit 0 c.flags

unfoldable pub streaming : ScopeCapture → Bool
streaming c = bit 1 c.flags

unfoldable pub is_envelope : ScopeCapture → Bool
is_envelope c = bit 2 c.flags

abbrev pub to_ascii_uppercase : ℕ → ℕ
to_ascii_uppercase c = if within b'a' b'z' c then c - 32 else c

-- `Iterator::position` of a label
unfoldable pub position : ℕ → List TraceChannel → Option ℕ
position label [] = none
position label (c ∷ cs) =
    let rest = position label cs in if c.label == label then some 0 else rest >>=? λ i. some (suc i)

unfoldable pub channel_index : ScopeCapture → ℕ → Option ℕ
unfolding position
channel_index c label = position (to_ascii_uppercase label) c.channels

-- `[T]::get` of a range
abbrev pub get_range {ℓ} : {A : Type ℓ} → List A → ℕ → ℕ → Option (List A)
get_range xs from to =
    if leb from to
    then (if leb to (length xs) then some (take (to - from) (drop from xs)) else none)
    else none

unfoldable pub counts : ScopeCapture → ℕ → Option (List ℕ)
unfolding channel_index
counts c label = channel_index c label >>=? λ i.
    get_range c.samples (i * c.samples_per_channel) ((i + 1) * c.samples_per_channel)

abbrev pub overflow_at : ℕ → Option ℕ → Bool
overflow_at mask none = false
overflow_at mask (some i) = if ltb i 16 then bit i mask else false

unfoldable pub overflowed : ScopeCapture → ℕ → Bool
unfolding channel_index
overflowed c label = overflow_at c.overflow_mask (channel_index c label)
