-- ===== src/Chunked/Size.antt =====
-- `parse_size` of chunked.rs, and the errors of the decoders.
use lager_rs.Prelude.{
  ℕ, ◌-◌, ◌^◌, Bytes, String, str, Result, ok_or, ◌>>=◌, from_utf8, parse_radix, trim, first_piece,
}
use lager_rs.Io.{IoError, ErrorKind}

abbrev pub u64_max : ℕ
u64_max = 2 ^ 64 - 1

abbrev pub max_size_line : ℕ
max_size_line = 1024

pub invalid : String → IoError
invalid msg = record { kind = ErrorKind.invalid_data; message = str msg }

pub unexpected_eof : String → IoError
unexpected_eof msg = record { kind = ErrorKind.unexpected_eof; message = str msg }

-- Hex digits, optionally followed by `;extension`s, which are ignored.
unfoldable pub parse_size : Bytes → Result IoError ℕ
parse_size line = do
  digits ← ok_or (invalid "chunk size is not ASCII") (from_utf8 (first_piece b';' line))
  ok_or (invalid "chunk size is not hex") (parse_radix 16 u64_max (trim digits))
