-- ===== src/Wire/ConnId.antt =====
-- wire_format/conn_id.rs: the identifier that ties a response to its call.
use thespis_impl_remote.Common.{Bool}
use thespis_impl_remote.Wire.UniqueId.{UniqueId}
use thespis_impl_remote.Wire.UniqueId

abbrev pub ConnId : Type 0
ConnId = UniqueId

abbrev pub null : ConnId
null = UniqueId.null

abbrev pub is_null : ConnId → Bool
is_null cid = UniqueId.is_null cid
