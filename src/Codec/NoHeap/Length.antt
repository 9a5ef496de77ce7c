-- ===== src/Codec/NoHeap/Length.antt =====
-- The first half of a poll: the decoder reads the length field and makes room for the message.
use thespis_impl_remote.Common.{
  ℕ, zero, suc, ◌+◌, ◌-◌, ◌≤◌, ◌<◌, ◌≡◌, inl, inr, refl, sym, ap, ◌∙◌, true, List, ◌++◌, none, some,
  arith, length, take, drop, replicate, append_assoc, take-append, length-append, length-drop,
  length-replicate, length-take, Bool-cases, err, pending, ready, ltb,
}
use thespis_impl_remote.Wire.WireErr.{from_io}
use thespis_impl_remote.Frame.Cursor.{Cursor}
use thespis_impl_remote.Frame.Cursor
use thespis_impl_remote.Frame.Ranges.{length-splice}
use thespis_impl_remote.Frame.ByteOrder.{ByteOrder}
use thespis_impl_remote.Frame.ThesWf.{len_len}
use thespis_impl_remote.Codec.Transport.{Read, wait, got, fail, Reader}
use thespis_impl_remote.Codec.Framing.{IsFrame}
use thespis_impl_remote.Codec.NoHeap.Poll.{
  DecoderNoHeap, on_len, allocate, frame_len, poll_loop, filled,
}
use thespis_impl_remote.Codec.NoHeap.Message.{
  take-filled, later, broken, Polls, Ready, known_len, some_bytes, more_bytes, loop_msg,
}

module _ ⦃bo : ByteOrder⦄ (R : Reader) where
  open R use {T, unread, poll_read, read_wait, read_got, read_none}

  -- The buffer of the message, of which the length field is filled in.
  allocated :
      (n : ℕ) (w : List ℕ)
      → length w ≡ len_len
      → len_len ≤ n
      → (length (Cursor.write (Cursor.new (replicate n 0)) w).inner ≡ n)
        × (take len_len (Cursor.write (Cursor.new (replicate n 0)) w).inner ≡ w)
  allocated n w h k = (
    omega (
      arith,
      length-append w (drop (0 + length w) (replicate n 0)),
      length-drop (0 + length w) (replicate {A = ℕ} n 0),
      length-replicate {A = ℕ} n 0,
      ap length gap,
    ),
    ap (take len_len) gap ∙ take-append len_len w _ h,
  )
    where
      gap :
          (Cursor.write (Cursor.new (replicate n 0)) w).inner
          ≡ w ++ drop (0 + length w) (replicate n 0)
      gap =
          ap (λ k. replicate k 0 ++ (w ++ drop (0 + length w) (replicate n 0))) {y = 0}
            (omega arith)

  pub loop_allocate :
      (bytes more : List ℕ) (m fuel : ℕ) (d : DecoderNoHeap T) (c : Cursor)
      → IsFrame bytes
      → length bytes ≤ m
      → Ready R m d
      → length c.inner ≡ len_len
      → c.pos ≡ len_len
      → take c.pos c.inner ++ unread d.byte_stream ≡ bytes ++ more
      → length bytes - len_len < fuel
      → Polls R bytes more m (poll_loop R (suc fuel) d c)
  unfolding poll_loop allocate
  loop_allocate bytes more m fuel d c fr fits r sz at_len cut k =
      let known =
        known_len R bytes more (unread d.byte_stream) c fr cut (omega arith) (omega arith) in
      let w = take len_len c.inner in
      let made =
        allocated (frame_len c) w (length-take len_len c.inner (omega arith))
          (omega (arith, known.1, fr.header)) in
      let c' = Cursor.write (Cursor.new (replicate (frame_len c) 0)) w in
      let width : c'.pos ≡ len_len = omega (arith, length-take len_len c.inner) in
      let cut' : take c'.pos c'.inner ++ unread d.byte_stream ≡ bytes ++ more =
        ap (λ k. take k c'.inner ++ unread d.byte_stream) width
        ∙ ap (λ l. l ++ unread d.byte_stream) made.1
        ∙ ap (λ k. take k c.inner ++ unread d.byte_stream) (sym at_len)
        ∙ cut in
      let next =
        loop_msg R bytes more m fuel (record d { in_progress = none }) c'
          (poll_read (frame_len c' - c'.pos) d.byte_stream) refl fr
          (record { is_open = r.is_open; limit = r.limit; idle = refl }) (made.0 ∙ known.1)
          (omega (arith, width)) (omega (arith, width, fr.header)) cut' (omega (arith, width)) in
      (next.0, ground (arith, next.1, known.1, fits, r.limit, fr.header), next.2)

  pub loop_len :
      (bytes more : List ℕ) (m fuel : ℕ) (d : DecoderNoHeap T) (c : Cursor) (x : Read T)
      → poll_read (length c.inner - c.pos) d.byte_stream ≡ x
      → IsFrame bytes
      → length bytes ≤ m
      → Ready R m d
      → length c.inner ≡ len_len
      → c.pos < len_len
      → take c.pos c.inner ++ unread d.byte_stream ≡ bytes ++ more
      → suc (length bytes) - c.pos < fuel
      → Polls R bytes more m (poll_loop R fuel d c)
  unfolding poll_loop on_len
  loop_len bytes more m zero d c x e fr fits r sz lo cut k = absurd (omega arith)
  loop_len bytes more m (suc zero) d c x e fr fits r sz lo cut k = absurd (omega (arith, fr.header))
  loop_len bytes more m (suc (suc fuel)) d c (wait t) e fr fits r sz lo cut k = (
    (pending, record d { byte_stream = t; in_progress = some c }),
    ground arith,
    later c (length c.inner - c.pos) d.byte_stream t (omega arith)
        (more_bytes R bytes more c.inner (unread d.byte_stream) c.pos cut (omega arith)
          (omega (arith, fr.header)))
        e refl refl
        (record {
          front = ap (◌++◌ (take c.pos c.inner)) (read_wait _ d.byte_stream t e) ∙ cut;
          phase = inl (sz, omega arith);
        })
        r.is_open r.limit,
  )
  loop_len bytes more m (suc (suc fuel)) d c (fail t kind) e fr fits r sz lo cut k = (
    (
      ready (some (err (from_io kind))),
      record d { byte_stream = t; in_progress = none; closed = true },
    ),
    ground arith,
    broken (length c.inner - c.pos) d.byte_stream t kind (take c.pos c.inner) (omega arith)
        (more_bytes R bytes more c.inner (unread d.byte_stream) c.pos cut (omega arith)
          (omega (arith, fr.header)))
        e cut refl (inl (refl, refl)),
  )
  loop_len bytes more m (suc (suc fuel)) d c (got t w) e fr fits r sz lo cut k =
      let read = read_got (length c.inner - c.pos) d.byte_stream t w e in
      let grown = take-filled c.inner w c.pos (omega (arith, read.0)) in
      let cut' : take (c.pos + length w) (filled c w).inner ++ unread t ≡ bytes ++ more =
        ap (λ l. l ++ unread t) grown
        ∙ append_assoc (take c.pos c.inner) w (unread t)
        ∙ sym (ap (◌++◌ (take c.pos c.inner)) read.1)
        ∙ cut in
      let sz' = length-splice c.inner c.pos w (omega (arith, read.0)) ∙ sz in
      let d' : DecoderNoHeap T = record d { byte_stream = t; in_progress = none } in
      let ready_d' : Ready R m d' = record { is_open = r.is_open; limit = r.limit; idle = refl } in
      let taken =
        some_bytes R bytes more (take c.pos c.inner) (length c.inner - c.pos) d.byte_stream t w cut
          (omega (arith, length-take c.pos c.inner, fr.header)) (omega arith) e in
      elim (Bool-cases (ltb (c.pos + length w) len_len)) [
        | inl below ↦
            let next =
              loop_len bytes more m (suc fuel) d' (filled c w)
                (poll_read (length (filled c w).inner - (c.pos + length w)) t) refl fr fits ready_d'
                sz' (ground arith) cut' (omega (arith, fr.header)) in
            (next.0, ground (arith, next.1), next.2)
        | inr there ↦
            let next =
              loop_allocate bytes more m fuel d' (filled c w) fr fits ready_d' sz'
                (ground (arith, read.0)) cut' (ground (arith, fr.header)) in
            (next.0, ground (arith, next.1), next.2)
      ]
