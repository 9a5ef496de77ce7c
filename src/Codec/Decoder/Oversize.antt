-- ===== src/Codec/Decoder/Oversize.antt =====
-- What becomes of the decoder after a message over the size limit.
use thespis_impl_remote.Common.{
  ℕ, ◌≤◌, ◌<◌, ◌≡◌, ◌≢◌, refl, Bool, false, List, none, some, arith, err, ready, panicked,
}
use thespis_impl_remote.Wire.WireErr.{message_size_exceeded}
use thespis_impl_remote.Frame.ByteOrder.{ByteOrder}
use thespis_impl_remote.Frame.ThesWf.{len_len, len_header}
use thespis_impl_remote.Codec.Transport.{got, ExactReader}
use thespis_impl_remote.Codec.Decoder.Poll.{Decoder, on_msg, on_len, new, poll_loop, poll_next}

module _ ⦃bo : ByteOrder⦄ (debug : Bool) (R : ExactReader) where
  open R use {T, poll_exact}

  loop_any : (d : Decoder T) → poll_loop debug R 3 d ≢ none
  unfolding poll_loop on_len on_msg
  loop_any d = ground arith

  -- The loop of `poll_next` ends: three rounds always return, whatever the state and the reader.
  pub poll_next-ne-none : (d : Decoder T) → poll_next debug R d ≢ none
  unfolding poll_next
  poll_next-ne-none d = ground (arith, loop_any d)

  -- When a new decoder reads a length field that is over the limit, and tells a header at least,
  -- the poll answers an error with the size and the limit, the decoder does not count as closed,
  -- and the poll after that panics.
  pub poll_next-oversize :
      (max_size : ℕ) (t t' : T) (buf : List ℕ)
      → poll_exact len_len t ≡ got t' buf
      → max_size < bo.read_u64 buf
      → len_header ≤ bo.read_u64 buf
      → (d : Decoder T) × (poll_next debug R (new t max_size)
          ≡ some (
            ready (some (err (message_size_exceeded "ThesWF Decoder" (bo.read_u64 buf) max_size))),
            d,
          ))
        × (d.closed ≡ false)
        × ((e : Decoder T) × (poll_next debug R d ≡ some (panicked, e)))
  unfolding poll_next new
  poll_next-oversize max_size t t' buf read over whole = (
    record {
      byte_stream = none;
      get_len = none;
      get_msg = none;
      closed = false;
      max_size = max_size;
    },
    ground arith,
    refl,
    (
      record {
        byte_stream = none;
        get_len = none;
        get_msg = none;
        closed = false;
        max_size = max_size;
      },
      ground arith,
    ),
  )
