-- ===== src/Frame/Fields.antt =====
-- The header fields are independent: each setter is read back, and leaves the rest as it was.
use thespis_impl_remote.Common.{
  ℕ, ◌+◌, ◌≤◌, ◌<◌, ◌≡◌, refl, ap, ◌∙◌, List, arith, length, take, drop, slice, splice,
}
use thespis_impl_remote.Wire.UniqueId.{u64_mod}
use thespis_impl_remote.Frame.ByteOrder.{ByteOrder}
use thespis_impl_remote.Frame.Ranges.{
  length-splice, slice-splice_self, slice-splice_below, drop-splice_above,
}
use thespis_impl_remote.Frame.ThesWf.{
  ThesWf, as_buf, len_header, sid, cid, len, msg, set_len, set_sid, set_cid,
}

-- The whole header is there.
abbrev pub IsFramed : ThesWf → Type 0
IsFramed wf = len_header ≤ length (as_buf wf)

-- The length field tells the number of bytes.
abbrev pub IsConsistent : ⦃bo : ByteOrder⦄ → ThesWf → Type 0
IsConsistent wf = len wf ≡ length (as_buf wf)

-- Overwriting eight bytes of the header at `i`: the other words and the message stay.
record Rewritten (xs ys : List ℕ) (i : ℕ) (w : List ℕ) : Type 0 where
  size : length ys ≡ length xs
  self : slice ys i 8 ≡ w
  below : (j : ℕ) → j + 8 ≤ i → slice ys j 8 ≡ slice xs j 8
  above : (j : ℕ) → i + 8 ≤ j → drop j ys ≡ drop j xs

splice-Rewritten :
    (xs w : List ℕ) (i : ℕ) → length w ≡ 8 → i + 8 ≤ length xs → Rewritten xs (splice xs i w) i w
splice-Rewritten xs w i e h = record {
  size = length-splice xs i w (omega arith);
  self = slice-splice_self xs i 8 w (omega arith) e;
  below = λ j k. slice-splice_below xs i j 8 _ k (omega arith);
  above = λ j k. drop-splice_above xs i j (i + length w) w refl (omega arith) (omega arith);
}

module _ ⦃bo : ByteOrder⦄ where
  -- On a frame with a whole header, a service id that fits a u64 and is set by `set_sid` is read
  -- back by `sid`; the length field, the connection id, the message and the number of bytes stay.
  pub set_sid_lem :
      (wf : ThesWf) (s : ℕ)
      → IsFramed wf
      → s < u64_mod
      → (sid (set_sid wf s) ≡ s)
        × (cid (set_sid wf s) ≡ cid wf)
        × (len (set_sid wf s) ≡ len wf)
        × (msg (set_sid wf s) ≡ msg wf)
        × (length (as_buf (set_sid wf s)) ≡ length (as_buf wf))
  unfolding set_sid sid cid len msg
  set_sid_lem wf s f h = (
    ap bo.read_u64 r.self ∙ bo.read-write s h,
    ap (λ l. bo.read_u64 (take 8 l)) (r.above 16 (omega arith)),
    ap bo.read_u64 (r.below 0 (omega arith)),
    r.above 24 (omega arith),
    r.size,
  )
    where
      r : Rewritten (as_buf wf) (as_buf (set_sid wf s)) 8 (bo.write_u64 s)
      r = splice-Rewritten (as_buf wf) (bo.write_u64 s) 8 (bo.length-write s) (omega arith)

  -- On a frame with a whole header, a connection id that fits a u64 and is set by `set_cid` is read
  -- back by `cid`; the length field, the service id, the message and the number of bytes stay.
  pub set_cid_lem :
      (wf : ThesWf) (c : ℕ)
      → IsFramed wf
      → c < u64_mod
      → (cid (set_cid wf c) ≡ c)
        × (sid (set_cid wf c) ≡ sid wf)
        × (len (set_cid wf c) ≡ len wf)
        × (msg (set_cid wf c) ≡ msg wf)
        × (length (as_buf (set_cid wf c)) ≡ length (as_buf wf))
  unfolding set_cid sid cid len msg
  set_cid_lem wf c f h = (
    ap bo.read_u64 r.self ∙ bo.read-write c h,
    ap bo.read_u64 (r.below 8 (omega arith)),
    ap bo.read_u64 (r.below 0 (omega arith)),
    r.above 24 (omega arith),
    r.size,
  )
    where
      r : Rewritten (as_buf wf) (as_buf (set_cid wf c)) 16 (bo.write_u64 c)
      r = splice-Rewritten (as_buf wf) (bo.write_u64 c) 16 (bo.length-write c) (omega arith)

  -- On a frame with a whole header, a length that fits a u64 and is set by `set_len` is read back
  -- by `len`; both identifiers, the message and the number of bytes stay.
  pub set_len_lem :
      (wf : ThesWf) (n : ℕ)
      → IsFramed wf
      → n < u64_mod
      → (len (set_len wf n) ≡ n)
        × (sid (set_len wf n) ≡ sid wf)
        × (cid (set_len wf n) ≡ cid wf)
        × (msg (set_len wf n) ≡ msg wf)
        × (length (as_buf (set_len wf n)) ≡ length (as_buf wf))
  unfolding set_len sid cid len msg
  set_len_lem wf n f h = (
    ap bo.read_u64 r.self ∙ bo.read-write n h,
    ap (λ l. bo.read_u64 (take 8 l)) (r.above 8 (omega arith)),
    ap (λ l. bo.read_u64 (take 8 l)) (r.above 16 (omega arith)),
    r.above 24 (omega arith),
    r.size,
  )
    where
      r : Rewritten (as_buf wf) (as_buf (set_len wf n)) 0 (bo.write_u64 n)
      r = splice-Rewritten (as_buf wf) (bo.write_u64 n) 0 (bo.length-write n) (omega arith)
