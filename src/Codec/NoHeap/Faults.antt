-- ===== src/Codec/NoHeap/Faults.antt =====
-- What the decoder does at the end of the stream, and when the reader fails inside a message.
use thespis_impl_remote.Common.{
  ℕ, zero, suc, ◌-◌, ◌<◌, ◌≡◌, refl, false, [], none, some, arith, length, panicked, ◌∙◌,
}
use thespis_impl_remote.Wire.WireErr.{ErrorKind}
use thespis_impl_remote.Frame.Cursor.{Cursor}
use thespis_impl_remote.Frame.Ranges.{length-splice}
use thespis_impl_remote.Frame.ByteOrder.{ByteOrder}
use thespis_impl_remote.Frame.ThesWf.{len_len}
use thespis_impl_remote.Codec.Transport.{got, fail, Reader}
use thespis_impl_remote.Codec.NoHeap.Poll.{
  DecoderNoHeap, new, on_len, on_msg, frame_len, poll_loop, poll_next, filled,
}

module _ ⦃bo : ByteOrder⦄ (R : Reader) where
  open R use {T, poll_read}

  stuck :
      (t : T) (d : DecoderNoHeap T) (c : Cursor) (fuel : ℕ)
      → ((n : ℕ) → poll_read n t ≡ got t [])
      → d.byte_stream ≡ t
      → d.in_progress ≡ none
      → c.pos < len_len
      → length c.inner ≡ len_len
      → poll_loop R fuel d c ≡ none
  unfolding poll_loop on_len
  stuck t d c zero eof s p h l = refl
  stuck t d c (suc fuel) eof s p h l =
      let size : length (filled c []).inner ≡ len_len =
        length-splice c.inner c.pos [] (omega arith) ∙ l in
      ground (
        arith,
        s,
        eof (length c.inner - c.pos),
        stuck t (record d { byte_stream = t; in_progress = none }) (filled c []) fuel eof refl refl
            (omega arith) size,
      )

  -- A new decoder whose reader hands over no bytes any more, and stays as it is, never returns from
  -- its poll: no number of rounds suffices.
  pub poll_next-eof :
      (t : T) (max_size fuel : ℕ)
      → ((n : ℕ) → poll_read n t ≡ got t [])
      → poll_next R fuel (new t max_size) ≡ none
  unfolding poll_next new
  poll_next-eof t max_size fuel eof = stuck t _ _ fuel eof refl refl (omega arith) refl

  -- When the reader of an open decoder fails inside a message, behind the length field, the poll
  -- panics.
  pub poll_next-fail :
      (d : DecoderNoHeap T) (c : Cursor) (t : T) (kind : ErrorKind) (fuel : ℕ)
      → d.closed ≡ false
      → d.in_progress ≡ some c
      → len_len < c.pos
      → poll_read (frame_len c - c.pos) d.byte_stream ≡ fail t kind
      → (d' : DecoderNoHeap T) × (poll_next R (suc fuel) d ≡ some (panicked, d'))
  unfolding poll_next on_msg
  poll_next-fail d c t kind fuel open_ held inside broken =
      (record d { byte_stream = t; in_progress = none }, ground arith)
