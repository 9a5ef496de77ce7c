-- ===== src/Codec/NoHeap/Poll.antt =====
-- The decoder's state and `poll_next`.
use thespis_impl_remote.Common.{
  ℕ, zero, suc, ◌+◌, ◌-◌, Bool, true, false, List, Option, none, some, Result, err, Poll, pending,
  ready, panicked, length, take, replicate, splice, ltb, ◌==◌, ◌&&◌, if◌then◌else◌,
}
use thespis_impl_remote.Wire.WireErr.{WireErr, message_size_exceeded, from_io}
use thespis_impl_remote.Frame.Cursor.{Cursor}
use thespis_impl_remote.Frame.Cursor
use thespis_impl_remote.Frame.ByteOrder.{ByteOrder}
use thespis_impl_remote.Frame.ThesWf.{ThesWf, try_from, len_len, len_header}
use thespis_impl_remote.Codec.Transport.{Read, wait, got, fail, Reader}

pub record DecoderNoHeap (T : Type 0) : Type 0 where
  pub byte_stream : T
  pub in_progress : Option Cursor
  pub closed : Bool
  pub max_size : ℕ

unfoldable pub new : {T : Type 0} → T → ℕ → DecoderNoHeap T
new byte_stream max_size = record {
  byte_stream = byte_stream;
  in_progress = none;
  closed = false;
  max_size = max_size;
}

abbrev pub Item : Type 0
Item = Option (Result ThesWf WireErr)

-- One round of the loop returns, or goes on with the local `in_progress`.
pub data Round (T : Type 0) : Type 0 where
  returns : Poll Item → DecoderNoHeap T → Round T
  continues : DecoderNoHeap T → Cursor → Round T

-- The buffer with the bytes that the reader put in it, and the position behind them.
abbrev pub filled : Cursor → List ℕ → Cursor
filled c bytes = record { inner = splice c.inner c.pos bytes; pos = c.pos + length bytes }

-- While `poll_next` runs, the buffer is not in the state.
abbrev taken : {T : Type 0} → DecoderNoHeap T → T → DecoderNoHeap T
taken d t = record d { byte_stream = t; in_progress = none }

-- The length field is being read.
unfoldable pub on_len : {T : Type 0} → DecoderNoHeap T → Cursor → Read T → Round T
on_len d c (wait t) = returns pending (record d { byte_stream = t; in_progress = some c })
on_len d c (got t bytes) = continues (taken d t) (filled c bytes)
on_len d c (fail t kind) =
    returns (ready (some (err (from_io kind)))) (record (taken d t) { closed = true })

module _ ⦃bo : ByteOrder⦄ where
  abbrev pub frame_len : Cursor → ℕ
  frame_len c = bo.read_u64 (take len_len c.inner)

  -- The length field is there, and the message has no buffer yet.
  unfoldable pub allocate : {T : Type 0} → DecoderNoHeap T → Cursor → Round T
  allocate d c =
      let len = frame_len c in
      if ltb d.max_size len
      then returns (ready (some (err (message_size_exceeded "ThesWF Decoder" len d.max_size))))
          (record d { in_progress = none })
      else if ltb len len_header
      then returns panicked (record d { in_progress = none })
      else continues (record d { in_progress = none })
          (Cursor.write (Cursor.new (replicate len 0)) (take len_len c.inner))

  -- The message is being read. An error of the reader meets the arm for "read more bytes than
  -- buffer size", which panics.
  unfoldable pub on_msg : {T : Type 0} → DecoderNoHeap T → Cursor → Read T → Round T
  on_msg d c (wait t) = returns pending (record d { byte_stream = t; in_progress = some c })
  on_msg d c (got t bytes) =
      let to_read = frame_len c - c.pos in
      if ltb (length bytes) to_read
      then continues (taken d t) (filled c bytes)
      else if length bytes == to_read
      then returns (ready (some (try_from (filled c bytes).inner))) (taken d t)
      else returns panicked (taken d t)
  on_msg d c (fail t kind) = returns panicked (taken d t)

  module _ (R : Reader) where
    open R use {T, poll_read}

    -- The match on the position.
    unfoldable pub round : DecoderNoHeap T → Cursor → Round T
    unfolding on_len allocate on_msg
    round d c =
        if ltb c.pos len_len
        then on_len d c (poll_read (length c.inner - c.pos) d.byte_stream)
        else if (c.pos == len_len) && (length c.inner == len_len)
        then allocate d c
        else on_msg d c (poll_read (frame_len c - c.pos) d.byte_stream)

    -- The loop, with as many rounds as `fuel`; `none` if they do not suffice.
    unfoldable pub poll_loop : ℕ → DecoderNoHeap T → Cursor → Option (Poll Item × DecoderNoHeap T)
    unfolding round
    poll_loop zero d c = none
    poll_loop (suc fuel) d c = elim (round d c) [
      | returns r d' ↦ some (r, d')
      | continues d' c' ↦ poll_loop fuel d' c'
    ]

    abbrev pub resume : Option Cursor → Cursor
    resume (some c) = c
    resume none = Cursor.new (replicate len_len 0)

    unfoldable pub poll_next : ℕ → DecoderNoHeap T → Option (Poll Item × DecoderNoHeap T)
    unfolding poll_loop
    poll_next fuel d =
        if d.closed
        then some (ready none, d)
        else poll_loop fuel (record d { in_progress = none }) (resume d.in_progress)
