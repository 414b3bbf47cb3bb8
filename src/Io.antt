-- ===== src/Io.antt =====
-- `std::io::Error`, as far as the sources look into it.
use lager_rs.Prelude.{Text}

pub data ErrorKind : Type 0 where
  invalid_data unexpected_eof timed_out would_block interrupted other : ErrorKind

pub record IoError : Type 0 where
  pub kind : ErrorKind
  pub message : Text
