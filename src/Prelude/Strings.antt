-- ===== src/Prelude/Strings.antt =====
-- Text as the list of its characters' code points, bytes as numbers below 256, and the operations
-- of Rust's `str` that the sources use.
use Prim.Native.Char.{code}
use Prim.Native.Nat.{ℕ, ◌+◌}
use Prim.Native.String.{String}
use mathlib.Core.Path.{◌≡◌, refl}
use mathlib.Core.Logic.{◌↔◌, inl, inr}
use mathlib.Core.Bool.{Bool, true, false, not, false≢true, ◌&&◌, ◌||◌}
use mathlib.Core.Option.{Option, none, some}
use mathlib.Core.List.{List, [], ◌∷◌, ◌++◌, map}
use native.Mathlib.Omega.{arith}
use lager_rs.Prelude.Tests.{leb, ◌==◌, ==_iff, if◌then◌else◌, Bool-cases}
use lager_rs.Prelude.Lists.{all}

abbrev pub Bytes : Type 0
Bytes = List ℕ

abbrev pub Text : Type 0
Text = List ℕ

-- A literal of the source as text.
abbrev pub str : String → Text
str String.[] = []
str (String.◌∷◌ c s) = code c ∷ str s

abbrev pub text_eq : Text → Text → Bool
text_eq [] [] = true
text_eq (x ∷ xs) (y ∷ ys) = x == y && text_eq xs ys
text_eq _ _ = false

pub text_eq_iff : (s t : Text) → (text_eq s t ≡ true) ↔ (s ≡ t)
text_eq_iff (x ∷ s) (y ∷ t) = ground (arith, text_eq_iff s t)
text_eq_iff _ _ = ground arith

pub text_eq_refl : (s : Text) → text_eq s s ≡ true
text_eq_refl s = (text_eq_iff s s).1 refl

abbrev pub within : ℕ → ℕ → ℕ → Bool
within lo hi c = leb lo c && leb c hi

-- `char::is_whitespace`: the Unicode property White_Space.
abbrev pub is_whitespace : ℕ → Bool
is_whitespace c =
    within 9 13 c
    || c == 32
    || c == 0x85
    || c == 0xA0
    || c == 0x1680
    || within 0x2000 0x200A c
    || c == 0x2028
    || c == 0x2029
    || c == 0x202F
    || c == 0x205F
    || c == 0x3000

-- Drops the characters that pass `p` from the front, from the back, from both ends.
abbrev pub trim_start_by : (ℕ → Bool) → Text → Text
trim_start_by p [] = []
trim_start_by p (c ∷ s) = let rest = trim_start_by p s in if p c then rest else c ∷ s

abbrev pub keep_end : (ℕ → Bool) → ℕ → Text → Text
keep_end p c [] = if p c then [] else c ∷ []
keep_end p c (d ∷ s) = c ∷ d ∷ s

abbrev pub trim_end_by : (ℕ → Bool) → Text → Text
trim_end_by p [] = []
trim_end_by p (c ∷ s) = keep_end p c (trim_end_by p s)

unfoldable pub trim : Text → Text
trim s = trim_end_by is_whitespace (trim_start_by is_whitespace s)

-- `str::strip_prefix`
abbrev pub strip_prefix : Text → Text → Option Text
strip_prefix [] s = some s
strip_prefix (p ∷ ps) [] = none
strip_prefix (p ∷ ps) (c ∷ s) = if p == c then strip_prefix ps s else none

abbrev pub is_some {ℓ} : {A : Type ℓ} → Option A → Bool
is_some none = false
is_some (some a) = true

abbrev pub starts_with : Text → Text → Bool
starts_with p s = is_some (strip_prefix p s)

-- `str::split_once`: at the first occurrence of `p`.
abbrev pub cut_here : Option Text → ℕ → Option (Text × Text) → Option (Text × Text)
cut_here (some after) c later = some ([], after)
cut_here none c (some (before, after)) = some (c ∷ before, after)
cut_here none c none = none

unfoldable pub split_once : Text → Text → Option (Text × Text)
split_once p [] = elim (strip_prefix p []) [ none ↦ none | some after ↦ some ([], after) ]
split_once p (c ∷ s) = cut_here (strip_prefix p (c ∷ s)) c (split_once p s)

-- `str::rsplit_once` at one character: at its last occurrence.
abbrev cut_last : ℕ → ℕ → Text → Option (Text × Text) → Option (Text × Text)
cut_last sep c s (some (before, after)) = some (c ∷ before, after)
cut_last sep c s none = if c == sep then some ([], s) else none

unfoldable pub rsplit_once : ℕ → Text → Option (Text × Text)
rsplit_once sep [] = none
rsplit_once sep (c ∷ s) = cut_last sep c s (rsplit_once sep s)

-- The first piece of `str::split` at one character.
abbrev pub first_piece : ℕ → Text → Text
first_piece sep [] = []
first_piece sep (c ∷ s) = let rest = first_piece sep s in if c == sep then [] else c ∷ rest

abbrev add_piece : ℕ → ℕ → List Text → List Text
add_piece sep c [] = (c ∷ []) ∷ []
add_piece sep c (p ∷ ps) = if c == sep then [] ∷ p ∷ ps else (c ∷ p) ∷ ps

-- `str::split` at one character.
unfoldable pub split : ℕ → Text → List Text
split sep [] = [] ∷ []
split sep (c ∷ s) = add_piece sep c (split sep s)

-- `str::contains` with text
unfoldable pub contains : Text → Text → Bool
contains p [] = starts_with p []
contains p (c ∷ s) = starts_with p (c ∷ s) || contains p s

abbrev pub contains_char : ℕ → Text → Bool
contains_char sep [] = false
contains_char sep (c ∷ s) = c == sep || contains_char sep s

abbrev pub ascii_lower : ℕ → ℕ
ascii_lower c = if within b'A' b'Z' c then c + 32 else c

unfoldable pub eq_ignore_ascii_case : Text → Text → Bool
eq_ignore_ascii_case s t = text_eq (map ascii_lower s) (map ascii_lower t)

abbrev pub no_space : ℕ → Bool
no_space c = not (is_whitespace c)

space_clash : (c : ℕ) (s : Text) → is_whitespace c ≡ true → all no_space (c ∷ s) ≡ true → ⊥
space_clash c s space h = false≢true (rw space at h)

all_tail : (c : ℕ) (s : Text) → all no_space (c ∷ s) ≡ true → all no_space s ≡ true
all_tail c s h =
    elim (is_whitespace c) as (λ b. (not b && all no_space s) ≡ true → all no_space s ≡ true) [
      | true ↦ λ e. cc
      | false ↦ λ e. e
    ]
      h

trim_start_by-plain : (s : Text) → all no_space s ≡ true → trim_start_by is_whitespace s ≡ s
trim_start_by-plain [] h = refl
trim_start_by-plain (c ∷ s) h = elim (Bool-cases (is_whitespace c)) [
  | inl space ↦ absurd (space_clash c s space h)
  | inr other ↦ rw other
]

trim_end_by-plain : (s : Text) → all no_space s ≡ true → trim_end_by is_whitespace s ≡ s
trim_end_by-plain [] h = refl
trim_end_by-plain (c ∷ []) h = elim (Bool-cases (is_whitespace c)) [
  | inl space ↦ absurd (space_clash c [] space h)
  | inr other ↦ rw other
]
trim_end_by-plain (c ∷ d ∷ s) h = rw (trim_end_by-plain (d ∷ s) (all_tail c (d ∷ s) h))

-- Text with no white space is its own trim.
pub trim-plain : (s : Text) → all no_space s ≡ true → trim s ≡ s
unfolding trim
trim-plain s h = rw (trim_start_by-plain s h) (trim_end_by-plain s h)

-- A piece that does not hold the separator is cut off whole.
pub first_piece-append :
    (sep : ℕ) (s t : Text) → all (λ c. not (c == sep)) s ≡ true → first_piece sep (s ++ sep ∷ t) ≡ s
first_piece-append sep [] t h = rw ((==_iff sep sep).1 refl)
first_piece-append sep (c ∷ s) t h = ground (arith, first_piece-append sep s t)

pub first_piece-plain :
    (sep : ℕ) (s : Text) → all (λ c. not (c == sep)) s ≡ true → first_piece sep s ≡ s
first_piece-plain sep [] h = refl
first_piece-plain sep (c ∷ s) h = ground (arith, first_piece-plain sep s)
