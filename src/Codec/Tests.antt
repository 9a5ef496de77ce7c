-- ===== src/Codec/Tests.antt =====
-- Runs of the codec on a small frame, over a stream that holds all its bytes, one that has ended,
-- and one that fails.
use thespis_impl_remote.Common.{
  ℕ, zero, suc, ◌≤◌, ◌≡◌, ◌≢◌, refl, true, false, List, [], ◌∷◌, ◌++◌, none, some, arith, take,
  drop, replicate, ok, err, Poll, ready, panicked, inl,
}
use thespis_impl_remote.Wire.WireErr.{message_size_exceeded}
use thespis_impl_remote.Frame.ByteOrder.{ByteOrder, little_endian, of_bytes}
use thespis_impl_remote.Frame.ThesWf.{ThesWf, as_buf, len}
use thespis_impl_remote.Codec.Transport.{got, WriteAnswer, blocked, accepts}
use thespis_impl_remote.Codec.Framing.{IsFrame}
use thespis_impl_remote.Codec.Encoder.{Encoder, flush, poll_flush}
use thespis_impl_remote.Codec.Encoder
use thespis_impl_remote.Codec.Encoder.Delivery.{Delivers, flush-Delivers, poll_flush-start_send}
use thespis_impl_remote.Codec.Decoder
use thespis_impl_remote.Codec.Decoder.{Decoder, Item}
use thespis_impl_remote.Codec.Decoder.Delivery.{Outcome, poll_next-Outcome, idle}
use thespis_impl_remote.Codec.Decoder.Oversize.{poll_next-ne-none, poll_next-oversize}
use thespis_impl_remote.Codec.NoHeap
use thespis_impl_remote.Codec.NoHeap.{DecoderNoHeap}
use thespis_impl_remote.Codec.NoHeap.Message
use thespis_impl_remote.Codec.NoHeap.Delivery.{poll_next-Fetches}
use thespis_impl_remote.Codec.NoHeap.Stream
use thespis_impl_remote.Codec.NoHeap.Stream.{receive_all-receive_all}
use thespis_impl_remote.Codec.Roundtrip.{stream, send_all, receive_all, receive_all-send_all}
use thespis_impl_remote.Frame.Build.{IsWhole}
use thespis_impl_remote.Codec.NoHeap.Faults.{poll_next-eof}
use thespis_impl_remote.Codec.Streams.{exact, plain, exact-IsEager, plain-IsEager}

instance abbrev order : ByteOrder
order = little_endian

-- A frame of 25 bytes, with null identifiers.
abbrev pub bytes : List ℕ
bytes = 25 ∷ replicate 23 0 ++ 5 ∷ []

bytes-IsFrame : IsFrame bytes
unfolding of_bytes
bytes-IsFrame = record { header = omega arith; size = refl }

abbrev pub frame : ThesWf
frame = record { cursor = record { inner = bytes; pos = 0 } }

abbrev two_bytes : List WriteAnswer
two_bytes = accepts 2 ∷ blocked ∷ []

flush-Delivers_example :
    Delivers frame [] bytes (flush (Encoder.new 100) (some (frame, 0)) two_bytes)
flush-Delivers_example =
    flush-Delivers two_bytes (Encoder.new 100) frame 0 [] bytes (omega arith) refl

poll_flush-start_send_example :
    ((poll_flush
        (record (Encoder.new 100) { buffer = some (frame, 0) })
        (replicate 25 (accepts 3))).result
      ≡ ready (ok tt))
    × ((poll_flush
          (record (Encoder.new 100) { buffer = some (frame, 0) })
          (replicate 25 (accepts 3))).encoder.out_bytes
        ≡ [] ++ as_buf frame)
    × ((poll_flush
          (record (Encoder.new 100) { buffer = some (frame, 0) })
          (replicate 25 (accepts 3))).encoder.buffer
        ≡ none)
poll_flush-start_send_example =
    poll_flush-start_send (Encoder.new 100) (record (Encoder.new 100) { buffer = some (frame, 0) })
      frame (replicate 25 (accepts 3)) (unfold Encoder.start_send in refl) (omega arith)
      (ground arith) (omega arith)

-- A decoder in front of the frame and a byte more.
abbrev decoder : Decoder (List ℕ)
decoder = record {
  byte_stream = some (bytes ++ 7 ∷ []);
  get_len = none;
  get_msg = none;
  closed = false;
  max_size = 100;
}

poll_next-Outcome_example :
    (p : Poll Item × Decoder (List ℕ)) × (Decoder.poll_next true exact decoder ≡ some p)
    × Outcome true exact bytes (7 ∷ []) 100 p
poll_next-Outcome_example =
    poll_next-Outcome true exact bytes (7 ∷ []) 100 decoder bytes-IsFrame (omega arith)
      (record { is_open = refl; limit = refl }) (idle (bytes ++ 7 ∷ []) refl refl refl refl)

poll_next-ne-none_example : Decoder.poll_next false exact decoder ≢ none
poll_next-ne-none_example = poll_next-ne-none false exact decoder

poll_next-oversize_example :
    (d : Decoder (List ℕ)) × (Decoder.poll_next false exact (Decoder.new bytes 24)
      ≡ some (
        ready (
            some (err (message_size_exceeded "ThesWF Decoder" (of_bytes (25 ∷ replicate 7 0)) 24))),
        d,
      ))
    × (d.closed ≡ false)
    × ((e : Decoder (List ℕ)) × (Decoder.poll_next false exact d ≡ some (panicked, e)))
unfolding of_bytes
poll_next-oversize_example =
    poll_next-oversize false exact 24 bytes (drop 8 bytes) (25 ∷ replicate 7 0) refl (omega arith)
      (omega arith)

-- The decoder that holds nothing yet.
abbrev at_start : DecoderNoHeap (List ℕ)
at_start = record {
  byte_stream = bytes ++ 7 ∷ [];
  in_progress = none;
  closed = false;
  max_size = 100;
}

poll_next-Fetches_example :
    (p : Poll NoHeap.Item × DecoderNoHeap (List ℕ)) × (NoHeap.poll_next plain 27 at_start ≡ some p)
    × Message.Outcome plain bytes (7 ∷ []) 100 p
poll_next-Fetches_example =
    poll_next-Fetches plain bytes (7 ∷ []) 100 27 at_start bytes-IsFrame (omega arith)
      (record {
        is_open = refl;
        limit = refl;
        holds = record { front = refl; phase = inl (refl, omega arith) };
      })
      (omega arith)

poll_next-eof_example : NoHeap.poll_next plain 1000 (NoHeap.new [] 100) ≡ none
poll_next-eof_example = poll_next-eof plain [] 100 1000 none_left
  where
    none_left : (n : ℕ) → got (drop {A = ℕ} n []) (take {A = ℕ} n []) ≡ got [] []
    none_left zero = refl
    none_left (suc n) = refl

-- Of a message of 25 bytes, 9 were read.
abbrev inside : DecoderNoHeap (List ℕ)
inside = record {
  byte_stream = [];
  in_progress = some (record { inner = 25 ∷ replicate 24 0; pos = 9 });
  closed = false;
  max_size = 100;
}

pub frame-IsWhole : IsWhole frame
unfolding len of_bytes
frame-IsWhole = record { framed = omega arith; consistent = refl }

abbrev pub two_frames : List ThesWf
two_frames = frame ∷ frame ∷ []

receive_all-send_all_example :
    receive_all true exact 2 (
      Decoder.new
        ((send_all (replicate 25 (accepts 3)) (Encoder.new 100) two_frames).out_bytes ++ 7 ∷ [])
        100)
    ≡ bytes ∷ bytes ∷ []
receive_all-send_all_example =
    receive_all-send_all true exact two_frames (7 ∷ []) (replicate 25 (accepts 3)) 100 100
      ((send_all (replicate 25 (accepts 3)) (Encoder.new 100) two_frames).out_bytes ++ 7 ∷ [])
      exact-IsEager (ground arith) (fits, (fits, tt)) refl
  where
    fits : IsWhole frame × (25 ≤ 100) × (25 ≤ 25)
    fits = (frame-IsWhole, omega arith, omega arith)

abbrev two_frames_bytes : List ℕ
two_frames_bytes = stream two_frames

receive_all-receive_all_example :
    Stream.receive_all plain 27 2 (NoHeap.new (two_frames_bytes ++ []) 100)
    ≡ receive_all true exact 2 (Decoder.new (two_frames_bytes ++ 7 ∷ []) 100)
receive_all-receive_all_example =
    receive_all-receive_all plain true exact two_frames [] (7 ∷ []) 100 25 (two_frames_bytes ++ [])
      (two_frames_bytes ++ 7 ∷ []) plain-IsEager exact-IsEager (fits, (fits, tt)) refl refl
  where
    fits : IsWhole frame × (25 ≤ 100) × (25 ≤ 25)
    fits = (frame-IsWhole, omega arith, omega arith)
