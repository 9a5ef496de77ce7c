-- ===== src/Frame/Cursor.antt =====
-- `std::io::Cursor<Vec<u8>>`: a vector of bytes with a position. A write overwrites from the
-- position on, after filling a gap past the end with zeros, and moves the position behind it.
use thespis_impl_remote.Common.{ℕ, ◌+◌, ◌-◌, List, ◌++◌, length, take, drop, replicate}

pub record Cursor : Type 0 where
  pub inner : List ℕ
  pub pos : ℕ

abbrev pub new : List ℕ → Cursor
new bytes = record { inner = bytes; pos = 0 }

abbrev pub write : Cursor → List ℕ → Cursor
write c buf = record {
  inner =
      take c.pos c.inner
      ++ (replicate (c.pos - length c.inner) 0 ++ (buf ++ drop (c.pos + length buf) c.inner));
  pos = c.pos + length buf;
}

-- `seek(SeekFrom::End(0))`
abbrev pub seek_end : Cursor → Cursor
seek_end c = record c { pos = length c.inner }
