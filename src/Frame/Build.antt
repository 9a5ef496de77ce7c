-- ===== src/Frame/Build.antt =====
-- How a frame comes about: `default`, `with_capacity`, `write` and `try_from`.
use thespis_impl_remote.Common.{
  ℕ, ◌+◌, ◌-◌, ◌%◌, ◌≤◌, ◌<◌, ◌≡◌, refl, ap, ◌∙◌, List, [], ◌++◌, ◌⊎◌, inl, inr, arith, length,
  drop, replicate, slice, length-append, slice-append, drop-append_below, append-nil, take_all,
  drop_all, ok, err, ltb, Bool-cases,
}
use native.Mathlib.Nat.{mod-eq_of_lt}
use thespis_impl_remote.Wire.UniqueId.{u64_mod}
use thespis_impl_remote.Wire.WireErr.{deserialize}
use thespis_impl_remote.Frame.Cursor
use thespis_impl_remote.Frame.Cursor.{Cursor}
use thespis_impl_remote.Frame.ByteOrder.{ByteOrder}
use thespis_impl_remote.Frame.ThesWf.{
  ThesWf, as_buf, len_header, sid, cid, len, msg, set_len, write, with_capacity, default, try_from,
}
use thespis_impl_remote.Frame.Fields.{IsFramed, IsConsistent, set_len_lem}

-- A write at the end appends.
write_at_end :
    (c : Cursor) (buf : List ℕ) → (Cursor.write (Cursor.seek_end c) buf).inner ≡ c.inner ++ buf
write_at_end c buf = rw (
  take_all (length c.inner) c.inner (omega arith),
  drop_all (length c.inner + length buf) c.inner (omega arith),
  append-nil buf,
  no_gap,
)
  where
    no_gap : length c.inner - length c.inner ≡ 0
    no_gap = omega arith

module _ ⦃bo : ByteOrder⦄ where
  -- Frame `wf` is one that holds header and length right.
  pub record IsWhole (wf : ThesWf) : Type 0 where
    pub framed : IsFramed wf
    pub consistent : IsConsistent wf

  appended : ThesWf → List ℕ → ThesWf
  appended wf buf = record { cursor = Cursor.write (Cursor.seek_end wf.cursor) buf }

  appended_bytes : (wf : ThesWf) (buf : List ℕ) → as_buf (appended wf buf) ≡ as_buf wf ++ buf
  unfolding appended
  appended_bytes wf buf = write_at_end wf.cursor buf

  appended_size :
      (wf : ThesWf) (buf : List ℕ)
      → length (as_buf (appended wf buf)) ≡ length (as_buf wf) + length buf
  appended_size wf buf = ap length (appended_bytes wf buf) ∙ length-append (as_buf wf) buf

  appended_word :
      (wf : ThesWf) (buf : List ℕ) (i : ℕ)
      → IsFramed wf
      → i + 8 ≤ 24
      → bo.read_u64 (slice (as_buf (appended wf buf)) i 8) ≡ bo.read_u64 (slice (as_buf wf) i 8)
  appended_word wf buf i f h =
      ap (λ l. bo.read_u64 (slice l i 8)) (appended_bytes wf buf)
      ∙ ap bo.read_u64 (slice-append (as_buf wf) buf i 8 (omega arith))

  write-set_len :
      (wf : ThesWf) (buf : List ℕ)
      → IsWhole wf
      → length (as_buf wf) + length buf < u64_mod
      → write wf buf ≡ set_len (appended wf buf) (length (as_buf wf) + length buf)
  unfolding write appended len
  write-set_len wf buf w fits = ap (set_len (appended wf buf)) (
      ap (λ n. (n + length buf) % u64_mod)
        (appended_word wf buf 0 w.framed (omega arith) ∙ w.consistent)
      ∙ mod-eq_of_lt fits)

  -- Writing bytes to a frame with a whole header and a right length field, as long as the new size
  -- fits a u64, gives such a frame again, longer by these bytes, with the same identifiers, whose
  -- message is the old one with the bytes behind it.
  pub write_lem :
      (wf : ThesWf) (buf : List ℕ)
      → IsWhole wf
      → length (as_buf wf) + length buf < u64_mod
      → IsWhole (write wf buf)
        × (sid (write wf buf) ≡ sid wf)
        × (cid (write wf buf) ≡ cid wf)
        × (msg (write wf buf) ≡ msg wf ++ buf)
        × (length (as_buf (write wf buf)) ≡ length (as_buf wf) + length buf)
  unfolding sid cid msg
  write_lem wf buf w fits =
      let grown : IsFramed (appended wf buf) = omega (arith, appended_size wf buf, w.framed) in
      let set = set_len_lem (appended wf buf) (length (as_buf wf) + length buf) grown fits in
      rw (write-set_len wf buf w fits) (
        record {
          framed = omega (arith, set.4, grown);
          consistent = omega (arith, set.0, set.4, appended_size wf buf);
        },
        set.1 ∙ appended_word wf buf 8 w.framed (omega arith),
        set.2 ∙ appended_word wf buf 16 w.framed (omega arith),
        set.3
            ∙ ap (drop 24) (appended_bytes wf buf)
            ∙ drop-append_below 24 (as_buf wf) buf w.framed,
        omega (arith, set.4, appended_size wf buf),
      )

  zeros_frame : ThesWf
  zeros_frame = record { cursor = Cursor.write (Cursor.new []) (replicate len_header 0) }

  -- What a new frame is: a header alone, whole and with null identifiers.
  abbrev pub IsFresh : ThesWf → Type 0
  IsFresh wf =
      IsWhole wf × (sid wf ≡ 0) × (cid wf ≡ 0) × (msg wf ≡ []) × (length (as_buf wf) ≡ len_header)

  -- A frame made by `with_capacity`, whatever the size asked for, is whole, has null identifiers
  -- and no message.
  pub with_capacity_lem : (size : ℕ) → IsFresh (with_capacity size)
  unfolding with_capacity sid cid msg
  with_capacity_lem size =
      let set = set_len_lem zeros_frame 24 (unfold zeros_frame in omega arith) (omega arith) in
      unfold zeros_frame in
      (
        record { framed = omega (arith, set.4); consistent = omega (arith, set.0, set.4) },
        set.1 ∙ bo.read_zeros,
        set.2 ∙ bo.read_zeros,
        set.3,
        omega (arith, set.4),
      )

  default-set_len : default ≡ set_len zeros_frame 24
  unfolding default write zeros_frame len
  default-set_len = ap (λ n. set_len zeros_frame ((n + 24) % u64_mod)) bo.read_zeros

  -- The frame that `default` makes by writing a header of zeros to an empty buffer is whole, has
  -- null identifiers and no message.
  pub default_lem : IsFresh default
  unfolding with_capacity zeros_frame
  default_lem = rw default-set_len (with_capacity_lem 0)

  -- Bytes that make up a header at least become a frame of exactly those bytes, with a whole
  -- header; fewer are refused with a deserialization error.
  pub try_from_lem :
      (bytes : List ℕ)
      → ((len_header ≤ length bytes)
          × ((wf : ThesWf) × (try_from bytes ≡ ok wf) × (as_buf wf ≡ bytes) × IsFramed wf))
        ⊎ ((length bytes < len_header)
            × (try_from bytes ≡ err (deserialize "ThesWF: not enough bytes even for the header.")))
  unfolding try_from
  try_from_lem bytes = elim (Bool-cases (ltb (length bytes) len_header)) [
    | inl short ↦ inr (ground arith, rw short)
    | inr long ↦
        inl (ground arith, (record { cursor = Cursor.new bytes }, rw long, refl, ground arith))
  ]
