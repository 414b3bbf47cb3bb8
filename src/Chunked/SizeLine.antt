-- ===== src/Chunked/SizeLine.antt =====
-- `parse_size` reads what the box writes: the size in hex, with or without extensions.
use lager_rs.Prelude.{
  ℕ, ◌≤◌, ◌≡◌, Bool, true, not, ◌∷◌, ◌++◌, Bytes, Text, ok, all, all_mono, first_piece,
  first_piece-append, first_piece-plain, from_utf8_ascii, is_ascii, trim-plain, no_space,
  parse_radix-print_radix, print_radix, print_radix-digits, is_digit_char, ◌==◌, arith,
}
use lager_rs.Chunked.Size.{u64_max, parse_size}

abbrev pub hex : ℕ → Text
hex = print_radix 16

hex-all :
    (n : ℕ) (q : ℕ → Bool) → ((c : ℕ) → is_digit_char c ≡ true → q c ≡ true) → all q (hex n) ≡ true
hex-all n q h =
    all_mono is_digit_char q (hex n) h (print_radix-digits 16 n (omega arith) (omega arith))

parse_size-first_piece :
    (n : ℕ) (line : Bytes) → n ≤ u64_max → first_piece b';' line ≡ hex n → parse_size line ≡ ok n
unfolding parse_size
parse_size-first_piece n line h e = rw e (
    rw (from_utf8_ascii (hex n) (hex-all n is_ascii (λ c d. ground arith))) (
      rw (trim-plain (hex n) (hex-all n no_space (λ c d. ground arith)))
        (rw (parse_radix-print_radix 16 n u64_max h (omega arith) (omega arith)))))

-- The hex digits of a 64-bit size are read as that size, and so are they in front of `;` and
-- extensions, whatever bytes those are.
pub parse_size-hex :
    (n : ℕ) (ext : Bytes)
    → n ≤ u64_max
    → (parse_size (hex n) ≡ ok n) × (parse_size (hex n ++ b';' ∷ ext) ≡ ok n)
parse_size-hex n ext h =
    let free = hex-all n (λ c. not (c == b';')) (λ c d. ground arith) in
    (
      parse_size-first_piece n (hex n) h (first_piece-plain b';' (hex n) free),
      parse_size-first_piece n (hex n ++ b';' ∷ ext) h (first_piece-append b';' (hex n) ext free),
    )
