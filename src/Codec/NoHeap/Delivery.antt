-- ===== src/Codec/NoHeap/Delivery.antt =====
-- The decoder finds each frame in the bytes of the stream, however the reader hands them over.
use thespis_impl_remote.Common.{
  ℕ, zero, suc, ◌+◌, ◌-◌, ◌≤◌, ◌≡◌, inl, inr, refl, false, List, none, some, arith, length,
  Bool-cases, Poll, ltb,
}
use thespis_impl_remote.Frame.ByteOrder.{ByteOrder}
use thespis_impl_remote.Frame.ThesWf.{len_len}
use thespis_impl_remote.Codec.Transport.{Reader}
use thespis_impl_remote.Codec.Framing.{IsFrame}
use thespis_impl_remote.Codec.NoHeap.Poll.{DecoderNoHeap, Item, frame_len, poll_next, resume}
use thespis_impl_remote.Codec.NoHeap.Message.{Holds, Outcome, Ready, loop_msg}
use thespis_impl_remote.Codec.NoHeap.Length.{loop_allocate, loop_len}

module _ ⦃bo : ByteOrder⦄ (R : Reader) where
  open R use {T, unread, poll_read, read_wait, read_got, read_none}

  -- Where the decoder stands before a poll: it is open, and what it holds of the frame, with the
  -- stream behind it, is the frame and `more`.
  pub record Expects (bytes more : List ℕ) (m : ℕ) (d : DecoderNoHeap T) : Type 0 where
    pub is_open : d.closed ≡ false
    pub limit : d.max_size ≡ m
    pub holds : Holds R bytes more d.byte_stream (resume R d.in_progress)

  -- While an open decoder and its stream hold the bytes of a frame within the limit, a poll with
  -- two more rounds than the frame has bytes returns: it waits for its reader, having lost nothing,
  -- or yields that very frame and leaves the stream right behind it, or, after a read of the
  -- frame's bytes that failed, yields that error and is closed, or panics.
  pub poll_next-Fetches :
      (bytes more : List ℕ) (m fuel : ℕ) (d : DecoderNoHeap T)
      → IsFrame bytes
      → length bytes ≤ m
      → Expects bytes more m d
      → length bytes + 2 ≤ fuel
      → (p : Poll Item × DecoderNoHeap T) × (poll_next R fuel d ≡ some p) × Outcome R bytes more m p
  unfolding poll_next
  poll_next-Fetches bytes more m zero d fr fits x k = absurd (omega arith)
  poll_next-Fetches bytes more m (suc fuel) d fr fits x k =
      let d' : DecoderNoHeap T = record d { in_progress = none } in
      let c = resume R d.in_progress in
      let r : Ready R m d' = record { is_open = x.is_open; limit = x.limit; idle = refl } in
      elim x.holds.phase [
        | inl (sz, at_most) ↦ elim (Bool-cases (ltb c.pos len_len)) [
          | inl below ↦
              let next =
                loop_len R bytes more m (suc fuel) d' c
                  (poll_read (length c.inner - c.pos) d.byte_stream) refl fr fits r sz
                  (ground arith) x.holds.front (omega arith) in
              (next.0, ground (arith, x.is_open, next.1), next.2)
          | inr there ↦
              let next =
                loop_allocate R bytes more m fuel d' c fr fits r sz (ground arith) x.holds.front
                  (omega arith) in
              (next.0, ground (arith, x.is_open, next.1), next.2)
        ]
        | inr (sz, lo, hi) ↦
            let next =
              loop_msg R bytes more m (suc fuel) d' c
                (poll_read (frame_len c - c.pos) d.byte_stream) refl fr r sz lo hi x.holds.front
                (omega arith) in
            (next.0, ground (arith, x.is_open, next.1), next.2)
      ]
