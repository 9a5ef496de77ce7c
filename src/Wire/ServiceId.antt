-- ===== src/Wire/ServiceId.antt =====
-- wire_format/service_id.rs: the identifier of a service. `from_seed` answers `none` where the
-- source's debug assertion fails.
use thespis_impl_remote.Common.{ℕ, Bool, List, Option, none, some, if◌then◌else◌}
use thespis_impl_remote.Wire.UniqueId.{UniqueId}
use thespis_impl_remote.Wire.UniqueId

abbrev pub ServiceId : Type 0
ServiceId = UniqueId

abbrev pub from_seed : (List ℕ → ℕ) → List ℕ → Option ServiceId
from_seed hash seed =
    let inner = UniqueId.from_seed hash seed in if UniqueId.is_null inner then none else some inner

abbrev pub null : ServiceId
null = UniqueId.null

abbrev pub is_null : ServiceId → Bool
is_null sid = UniqueId.is_null sid

abbrev pub full : ServiceId
full = UniqueId.full

abbrev pub is_full : ServiceId → Bool
is_full sid = UniqueId.is_full sid
