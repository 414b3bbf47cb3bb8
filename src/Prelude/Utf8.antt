-- ===== src/Prelude/Utf8.antt =====
-- `str::from_utf8` and `str::as_bytes`: UTF-8 with no overlong form and no surrogate.
use Prim.Native.Nat.{ℕ, zero, suc, ◌+◌, ◌-◌, ◌*◌, ◌/◌, ◌%◌}
use mathlib.Core.Path.{◌≡◌, refl}
use mathlib.Core.Bool.{Bool, true, ◌||◌}
use mathlib.Core.Option
use mathlib.Core.Option.{Option, none, some}
use mathlib.Core.List.{[], ◌∷◌, ◌++◌}
use native.Mathlib.Omega.{arith}
use lager_rs.Prelude.Tests.{ltb, ◌==◌, if◌then◌else◌}
use lager_rs.Prelude.Lists.{all}
use lager_rs.Prelude.Strings.{Bytes, Text, within}

-- Inside a character: how many bytes follow the next one, its range, and the bits read so far.
pub data Pending : Type 0 where
  start : Pending
  more : ℕ → ℕ → ℕ → ℕ → Pending

lead : ℕ → Option Pending
lead b =
    if within 0xC2 0xDF b
    then some (more 0 0x80 0xBF (b - 0xC0))
    else if b == 0xE0
    then some (more 1 0xA0 0xBF 0)
    else if within 0xE1 0xEC b || within 0xEE 0xEF b
    then some (more 1 0x80 0xBF (b - 0xE0))
    else if b == 0xED
    then some (more 1 0x80 0x9F 0x0D)
    else if b == 0xF0
    then some (more 2 0x90 0xBF 0)
    else if within 0xF1 0xF3 b
    then some (more 2 0x80 0xBF (b - 0xF0))
    else if b == 0xF4
    then some (more 2 0x80 0x8F 4)
    else none

decode : Pending → Bytes → Option Text
decode start [] = some []
decode (more k lo hi acc) [] = none
decode start (b ∷ s) =
    let plain = Option.map (λ t. b ∷ t) (decode start s) in
    let wide : Option Text = elim (lead b) [ none ↦ none | some p ↦ decode p s ] in
    if ltb b 0x80 then plain else wide
decode (more zero lo hi acc) (b ∷ s) =
    let done = Option.map (λ t. (acc * 64 + (b - 0x80)) ∷ t) (decode start s) in
    if within lo hi b then done else none
decode (more (suc k) lo hi acc) (b ∷ s) =
    let next = decode (more k 0x80 0xBF (acc * 64 + (b - 0x80))) s in
    if within lo hi b then next else none

unfoldable pub from_utf8 : Bytes → Option Text
unfolding decode lead
from_utf8 s = decode start s

abbrev pub is_ascii : ℕ → Bool
is_ascii c = ltb c 0x80

-- Text of ASCII characters is its own encoding.
pub from_utf8_ascii : (s : Bytes) → all is_ascii s ≡ true → from_utf8 s ≡ some s
unfolding from_utf8
from_utf8_ascii [] h = refl
from_utf8_ascii (c ∷ s) h = ground (arith, from_utf8_ascii s)

unfoldable pub char_bytes : ℕ → Bytes
char_bytes c =
    if ltb c 0x80
    then c ∷ []
    else if ltb c 0x800
    then (0xC0 + c / 64) ∷ (0x80 + c % 64) ∷ []
    else if ltb c 0x10000
    then (0xE0 + c / 4096) ∷ (0x80 + c / 64 % 64) ∷ (0x80 + c % 64) ∷ []
    else (0xF0 + c / 262144) ∷ (0x80 + c / 4096 % 64) ∷ (0x80 + c / 64 % 64) ∷ (0x80 + c % 64) ∷ []

-- `str::as_bytes`
unfoldable pub utf8 : Text → Bytes
unfolding char_bytes
utf8 [] = []
utf8 (c ∷ s) = char_bytes c ++ utf8 s

-- ASCII text is its own encoding.
pub utf8_ascii : (s : Text) → all is_ascii s ≡ true → utf8 s ≡ s
unfolding utf8
utf8_ascii [] h = refl
utf8_ascii (c ∷ s) h = ground (arith, utf8_ascii s)
