-- ===== src/Codec/Decoder/Poll.antt =====
-- The decoder's state and `poll_next`. A future that reads is the reader that it owns, with what it
-- was started for. `debug` tells whether debug assertions are compiled in.
use thespis_impl_remote.Common.{
  ℕ, zero, suc, ◌-◌, Bool, true, false, List, ◌++◌, Option, none, some, Result, err, Poll, pending,
  ready, panicked, ltb, ◌&&◌, if◌then◌else◌,
}
use thespis_impl_remote.Wire.WireErr.{
  WireErr, ErrorKind, unexpected_eof, connection_aborted, other_kind, message_size_exceeded,
  from_io,
}
use thespis_impl_remote.Frame.ByteOrder.{ByteOrder}
use thespis_impl_remote.Frame.ThesWf.{ThesWf, try_from, len_len, len_header}
use thespis_impl_remote.Codec.Transport.{Read, wait, got, fail, ExactReader}

-- The future that reads the rest of a message into a buffer that starts with the length field.
pub record GetMsg (T : Type 0) : Type 0 where
  pub transport : T
  pub head : List ℕ
  pub to_read : ℕ

pub record Decoder (T : Type 0) : Type 0 where
  pub byte_stream : Option T
  pub get_len : Option T
  pub get_msg : Option (GetMsg T)
  pub closed : Bool
  pub max_size : ℕ

unfoldable pub new : {T : Type 0} → T → ℕ → Decoder T
new byte_stream max_size = record {
  byte_stream = some byte_stream;
  get_len = none;
  get_msg = none;
  closed = false;
  max_size = max_size;
}

abbrev pub Item : Type 0
Item = Option (Result ThesWf WireErr)

-- One round of the loop returns, or goes on.
pub data Round (T : Type 0) : Type 0 where
  returns : Poll Item → Decoder T → Round T
  continues : Decoder T → Round T

-- The end of the stream is no error.
abbrev pub read_failed : ErrorKind → Item
read_failed unexpected_eof = none
read_failed connection_aborted = some (err (from_io connection_aborted))
read_failed (other_kind k) = some (err (from_io (other_kind k)))

-- The future of the message was polled.
unfoldable pub on_msg : {T : Type 0} → Decoder T → GetMsg T → Read T → Round T
on_msg d f (wait t) = returns pending (record d { get_msg = some (record f { transport = t }) })
on_msg d f (fail t kind) =
    returns (ready (read_failed kind))
      (record d { byte_stream = some t; get_msg = none; closed = true })
on_msg d f (got t bytes) =
    returns (ready (some (try_from (f.head ++ bytes))))
      (record d { byte_stream = some t; get_msg = none })

module _ ⦃bo : ByteOrder⦄ (debug : Bool) where
  -- The future of the length field was polled. A message over the limit drops the reader.
  unfoldable pub on_len : {T : Type 0} → Decoder T → Read T → Round T
  on_len d (wait t) = returns pending (record d { get_len = some t })
  on_len d (fail t kind) =
      returns (ready (read_failed kind))
        (record d { byte_stream = some t; get_len = none; closed = true })
  on_len d (got t buf) =
      let len = bo.read_u64 buf in
      if debug && ltb len len_header
      then returns panicked (record d { get_len = none })
      else if ltb d.max_size len
      then returns (ready (some (err (message_size_exceeded "ThesWF Decoder" len d.max_size))))
          (record d { get_len = none })
      else if ltb len len_len
      then returns panicked (record d { get_len = none })
      else continues (record d {
        get_len = none;
        get_msg = some (record { transport = t; head = buf; to_read = len - len_len });
      })

  module _ (R : ExactReader) where
    open R use {T, poll_exact}

    -- What the round does, by the fields `get_msg`, `get_len` and `byte_stream`.
    unfoldable pub dispatch : Decoder T → Option (GetMsg T) → Option T → Option T → Round T
    unfolding on_msg on_len
    dispatch d (some f) get_len byte_stream = on_msg d f (poll_exact f.to_read f.transport)
    dispatch d none (some t) byte_stream = on_len d (poll_exact len_len t)
    dispatch d none none (some t) = continues (record d { byte_stream = none; get_len = some t })
    dispatch d none none none = returns panicked d

    unfoldable pub round : Decoder T → Round T
    unfolding dispatch
    round d = dispatch d d.get_msg d.get_len d.byte_stream

    -- The loop, with as many rounds as `fuel`; `none` if they do not suffice.
    unfoldable pub poll_loop : ℕ → Decoder T → Option (Poll Item × Decoder T)
    unfolding round
    poll_loop zero d = none
    poll_loop (suc fuel) d = elim (round d) [
      | returns r d' ↦ some (r, d')
      | continues d' ↦ poll_loop fuel d'
    ]

    -- `poll_next`; three rounds always return.
    unfoldable pub poll_next : Decoder T → Option (Poll Item × Decoder T)
    unfolding poll_loop
    poll_next d = if d.closed then some (ready none, d) else poll_loop 3 d
