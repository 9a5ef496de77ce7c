-- ===== src/Frame/ByteOrder.antt =====
-- What the code takes from the byteorder crate: reading and writing a u64 as eight bytes in little
-- endian order. The laws state what the crate documents; `little_endian` meets them.
use thespis_impl_remote.Common.{
  ℕ, zero, suc, ◌+◌, ◌*◌, ◌/◌, ◌%◌, ◌<◌, ◌≡◌, refl, ap, List, [], ◌∷◌, arith, length, replicate,
}
use thespis_impl_remote.Wire.UniqueId.{u64_mod}

pub record ByteOrder : Type 0 where
  pub read_u64 : List ℕ → ℕ
  pub write_u64 : ℕ → List ℕ
  pub length-write : (n : ℕ) → length (write_u64 n) ≡ 8
  pub read-write : (n : ℕ) → n < u64_mod → read_u64 (write_u64 n) ≡ n
  pub read_zeros : read_u64 (replicate 8 0) ≡ 0

-- `k` bytes of a number, the lowest first, and back.
unfoldable pub to_bytes : ℕ → ℕ → List ℕ
to_bytes zero n = []
to_bytes (suc k) n = n % 256 ∷ to_bytes k (n / 256)

unfoldable pub of_bytes : List ℕ → ℕ
of_bytes [] = 0
of_bytes (b ∷ bs) = b + 256 * of_bytes bs

pub length-to_bytes : (k n : ℕ) → length (to_bytes k n) ≡ k
unfolding to_bytes
length-to_bytes zero n = refl
length-to_bytes (suc k) n = ap suc (length-to_bytes k (n / 256))

pub of_bytes-to_bytes : (n : ℕ) → n < u64_mod → of_bytes (to_bytes 8 n) ≡ n
unfolding to_bytes of_bytes
of_bytes-to_bytes n h = omega arith

pub zeros : of_bytes (replicate 8 0) ≡ 0
unfolding of_bytes
zeros = refl

abbrev pub little_endian : ByteOrder
little_endian = record {
  read_u64 = of_bytes;
  write_u64 = to_bytes 8;
  length-write = length-to_bytes 8;
  read-write = of_bytes-to_bytes;
  read_zeros = zeros;
}
