-- ===== src/Frame/ThesWf.antt =====
-- thes_wf.rs: `ThesWF` and its methods. The source indexes the header without a check; every value
-- holds a whole header (`Frame.Build`), so the ranges read here are never cut short. Capacity is
-- not modelled. `read_u64` and `write_u64` are the byteorder crate's.
use thespis_impl_remote.Common.{
  ℕ, ◌+◌, ◌%◌, List, [], length, drop, replicate, slice, splice, ltb, Result, ok, err,
  if◌then◌else◌,
}
use thespis_impl_remote.Wire.UniqueId.{u64_mod}
use thespis_impl_remote.Wire.ServiceId.{ServiceId}
use thespis_impl_remote.Wire.ConnId.{ConnId}
use thespis_impl_remote.Wire.WireErr.{WireErr, deserialize}
use thespis_impl_remote.Wire.WireType.{WireType, kind_of}
use thespis_impl_remote.Frame.ByteOrder.{ByteOrder}
use thespis_impl_remote.Frame.Cursor.{Cursor}
use thespis_impl_remote.Frame.Cursor

abbrev pub len_len : ℕ
len_len = 8

abbrev pub len_sid : ℕ
len_sid = 8

abbrev pub len_cid : ℕ
len_cid = 8

abbrev pub idx_len : ℕ
idx_len = 0

abbrev pub idx_sid : ℕ
idx_sid = len_len

abbrev pub idx_cid : ℕ
idx_cid = idx_sid + len_sid

abbrev pub idx_msg : ℕ
idx_msg = idx_cid + len_cid

abbrev pub len_header : ℕ
len_header = idx_msg

pub record ThesWf : Type 0 where
  pub cursor : Cursor

abbrev pub as_buf : ThesWf → List ℕ
as_buf wf = wf.cursor.inner

abbrev put : ThesWf → ℕ → List ℕ → ThesWf
put wf idx bytes = record {
  cursor = record { inner = splice wf.cursor.inner idx bytes; pos = wf.cursor.pos };
}

module _ ⦃bo : ByteOrder⦄ where
  unfoldable pub set_len : ThesWf → ℕ → ThesWf
  set_len wf len = put wf idx_len (bo.write_u64 len)

  unfoldable pub sid : ThesWf → ServiceId
  sid wf = bo.read_u64 (slice (as_buf wf) idx_sid len_sid)

  unfoldable pub set_sid : ThesWf → ServiceId → ThesWf
  set_sid wf id = put wf idx_sid (bo.write_u64 id)

  unfoldable pub cid : ThesWf → ConnId
  cid wf = bo.read_u64 (slice (as_buf wf) idx_cid len_cid)

  unfoldable pub set_cid : ThesWf → ConnId → ThesWf
  set_cid wf id = put wf idx_cid (bo.write_u64 id)

  unfoldable pub len : ThesWf → ℕ
  len wf = bo.read_u64 (slice (as_buf wf) idx_len len_len)

  unfoldable pub kind : ThesWf → WireType
  kind wf = kind_of (sid wf) (cid wf)

unfoldable pub msg : ThesWf → List ℕ
msg wf = drop idx_msg (as_buf wf)

module _ ⦃bo : ByteOrder⦄ where
  unfoldable pub with_capacity : ℕ → ThesWf
  with_capacity size =
      set_len (record { cursor = Cursor.write (Cursor.new []) (replicate len_header 0) }) len_header

  -- `io::Write::write`, which appends whatever the position is; the length field follows.
  unfoldable pub write : ThesWf → List ℕ → ThesWf
  write wf buf =
      let written : ThesWf = record { cursor = Cursor.write (Cursor.seek_end wf.cursor) buf } in
      set_len written ((len written + length buf) % u64_mod)

  unfoldable pub default : ThesWf
  default = write (record { cursor = Cursor.new [] }) (replicate len_header 0)

unfoldable pub try_from : List ℕ → Result ThesWf WireErr
try_from bytes =
    if ltb (length bytes) len_header
    then err (deserialize "ThesWF: not enough bytes even for the header.")
    else ok (record { cursor = Cursor.new bytes })
