-- ===== src/Wire/UniqueId.antt =====
-- wire_format/unique_id.rs: a newtype over u64 is its number, below `u64_mod`. `random` is not
-- modelled; the hash that seeds an identifier (xxhash) is a parameter.
use thespis_impl_remote.Common.{ℕ, ◌-◌, ◌^◌, Bool, List, ◌==◌}

abbrev pub u64_mod : ℕ
u64_mod = 2 ^ 64

abbrev pub u64_max : ℕ
u64_max = u64_mod - 1

abbrev pub UniqueId : Type 0
UniqueId = ℕ

abbrev pub from_seed : (List ℕ → ℕ) → List ℕ → UniqueId
from_seed hash seed = hash seed

abbrev pub null : UniqueId
null = 0

abbrev pub full : UniqueId
full = u64_max

abbrev pub is_null : UniqueId → Bool
is_null id = id == 0

abbrev pub is_full : UniqueId → Bool
is_full id = id == u64_max
