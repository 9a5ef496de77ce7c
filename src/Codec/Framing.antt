-- ===== src/Codec/Framing.antt =====
-- The bytes of one frame within a stream.
use thespis_impl_remote.Common.{
  ℕ, ◌≤◌, ◌≡◌, refl, sym, ap, ◌∙◌, List, ◌++◌, arith, length, take, drop, take-append, drop-append,
  ok,
}
use thespis_impl_remote.Frame.ByteOrder.{ByteOrder}
use thespis_impl_remote.Frame.ThesWf.{ThesWf, as_buf, len_header, try_from}

-- Bytes that make up one frame: a whole header, whose length field tells their number.
pub record IsFrame ⦃bo : ByteOrder⦄ (bytes : List ℕ) : Type 0 where
  pub header : len_header ≤ length bytes
  pub size : bo.read_u64 (take 8 bytes) ≡ length bytes

-- Two ways to cut the same bytes, the first parts as long.
pub same_front :
    (xs ys us vs : List ℕ) → xs ++ us ≡ ys ++ vs → length xs ≡ length ys → (xs ≡ ys) × (us ≡ vs)
same_front xs ys us vs e l = (
  sym (take-append (length ys) xs us l)
      ∙ ap (take (length ys)) e
      ∙ take-append (length ys) ys vs refl,
  sym (drop-append (length ys) xs us l)
      ∙ ap (drop (length ys)) e
      ∙ drop-append (length ys) ys vs refl,
)

-- A buffer with a whole header is accepted as it is.
pub whole_frame :
    (bytes : List ℕ)
    → len_header ≤ length bytes
    → (wf : ThesWf) × (try_from bytes ≡ ok wf) × (as_buf wf ≡ bytes)
unfolding try_from
whole_frame bytes h = (record { cursor = record { inner = bytes; pos = 0 } }, ground arith, refl)
