-- ===== src/Wire/WireErr.antt =====
-- wire_format/wire_err.rs: errors of the codec and of the transport below it.
use thespis_impl_remote.Common.{ℕ, String}

-- The kinds of `std::io::Error` that the code names; any other carries a number.
pub data ErrorKind : Type 0 where
  unexpected_eof connection_aborted : ErrorKind
  other_kind : ℕ → ErrorKind

pub data WireErr : Type 0 where
  message_size_exceeded : String → ℕ → ℕ → WireErr
  deserialize : String → WireErr
  io : ErrorKind → WireErr

-- `From<std::io::Error>`
abbrev pub from_io : ErrorKind → WireErr
from_io kind = io kind
