-- ===== src/ScopeTrace/Frame.antt =====
-- The numbers of a frame. Reading a byte that is not there panics, which is `none`.
use lager_rs.Prelude.{
  ℕ, zero, suc, ◌+◌, ◌*◌, ◌/◌, ◌%◌, Option, none, some, List, [], ◌∷◌, ◌++◌, Bytes, Text, get_elem?,
  drop, length, leb, hex_byte, ◌>>=?◌, if◌then◌else◌,
}

-- `bytes4` for 4 and `bytes8` for 8
unfoldable pub bytes_at : ℕ → Bytes → ℕ → Option Bytes
bytes_at zero buf at = some []
bytes_at (suc n) buf at =
    get_elem? buf at >>=? λ b. bytes_at n buf (suc at) >>=? λ bs. some (b ∷ bs)

-- `from_le_bytes`
unfoldable pub from_le_bytes : Bytes → ℕ
from_le_bytes [] = 0
from_le_bytes (b ∷ bs) = b + 256 * from_le_bytes bs

unfoldable pub number_at : ℕ → Bytes → ℕ → Option ℕ
unfolding bytes_at from_le_bytes
number_at width buf at = bytes_at width buf at >>=? λ bs. some (from_le_bytes bs)

abbrev pub u16_at : Bytes → ℕ → Option ℕ
u16_at = number_at 2

abbrev pub u32_at : Bytes → ℕ → Option ℕ
u32_at = number_at 4

abbrev pub u64_at : Bytes → ℕ → Option ℕ
u64_at = number_at 8

-- `&buf[at..]`
abbrev pub slice_from : Bytes → ℕ → Option Bytes
slice_from buf at = if leb at (length buf) then some (drop at buf) else none

-- The counts of `chunks_exact(2)`, each as its 16 bits.
unfoldable pub counts_of : Bytes → List ℕ
unfolding from_le_bytes
counts_of [] = []
counts_of (a ∷ []) = []
counts_of (a ∷ b ∷ s) = from_le_bytes (a ∷ b ∷ []) ∷ counts_of s

-- `{:08x}` of a `u32`
unfoldable pub print_u32 : ℕ → Text
unfolding hex_byte
print_u32 n =
    hex_byte (n / 16777216 % 256)
    ++ (hex_byte (n / 65536 % 256) ++ (hex_byte (n / 256 % 256) ++ hex_byte (n % 256)))
