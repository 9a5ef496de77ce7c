-- ===== src/Codec/NoHeap/Stream.antt =====
-- A whole stream of frames through DecoderNoHeap, next to the same stream through the decoder.
use thespis_impl_remote.Common.{
  ℕ, zero, suc, ◌+◌, ◌<◌, ◌≡◌, refl, sym, ◌∙◌, Bool, false, List, [], ◌∷◌, ◌++◌, none, some, arith,
  length, map, append_assoc, ok, Poll, ready, inl,
}
use thespis_impl_remote.Frame.ByteOrder.{ByteOrder}
use thespis_impl_remote.Frame.ThesWf.{ThesWf, as_buf}
use thespis_impl_remote.Codec.Transport.{got, ExactReader, Reader}
use thespis_impl_remote.Codec.Decoder
use thespis_impl_remote.Codec.NoHeap.Poll.{DecoderNoHeap, Item, new, poll_next}
use thespis_impl_remote.Codec.NoHeap.Message.{Outcome, later, delivered, broken}
use thespis_impl_remote.Codec.NoHeap.Delivery.{Expects, poll_next-Fetches}
use thespis_impl_remote.Codec.Roundtrip
use thespis_impl_remote.Codec.Roundtrip.{stream, AllFit, whole_IsFrame, receive_all_lem}

module _ ⦃bo : ByteOrder⦄ (R : Reader) where
  open R use {T, unread, poll_read}

  -- The bytes of the frames that so many polls yield, each of as many rounds as `fuel`, up to the
  -- first poll that yields none.
  unfoldable pub receive_all : ℕ → ℕ → DecoderNoHeap T → List (List ℕ)
  receive_all fuel zero d = []
  receive_all fuel (suc n) d = elim (poll_next R fuel d) [
    | some (ready (some (ok wf)), d') ↦ as_buf wf ∷ receive_all fuel n d'
    | _ ↦ []
  ]

  -- The reader hands over bytes whenever it is asked for some and has some.
  abbrev pub IsEager : Type 0
  IsEager =
      (n : ℕ) (t : T)
      → 0 < n
      → 0 < length (unread t)
      → (t' : T) × (bytes : List ℕ) × (poll_read n t ≡ got t' bytes)

  -- Between two frames.
  record Between (more : List ℕ) (m : ℕ) (d : DecoderNoHeap T) : Type 0 where
    is_open : d.closed ≡ false
    limit : d.max_size ≡ m
    idle : d.in_progress ≡ none
    rest : unread d.byte_stream ≡ more

  Between-Expects :
      (bytes more all : List ℕ) (m : ℕ) (d : DecoderNoHeap T)
      → Between all m d
      → all ≡ bytes ++ more
      → Expects R bytes more m d
  Between-Expects bytes more all m d b cut = record {
    is_open = b.is_open;
    limit = b.limit;
    holds = rw b.idle (record { front = b.rest ∙ cut; phase = inl (refl, omega arith) });
  }

  receive_lem :
      (frames : List ThesWf) (more : List ℕ) (m k : ℕ) (d : DecoderNoHeap T)
      → IsEager
      → AllFit m k frames
      → Between (stream frames ++ more) m d
      → receive_all (k + 2) (length frames) d ≡ map as_buf frames
  unfolding receive_all
  receive_lem [] more m k d eager f b = refl
  receive_lem (wf ∷ frames) more m k d eager f b =
      let rest = stream frames ++ more in
      let here =
        poll_next-Fetches R (as_buf wf) rest m (k + 2) d (whole_IsFrame wf f.0.0) f.0.1
          (Between-Expects (as_buf wf) rest (stream (wf ∷ frames) ++ more) m d b
            (append_assoc (as_buf wf) (stream frames) more))
          (omega (arith, f.0.2)) in
      go (λ d'. receive_lem frames more m k d' eager f.1) here.0 here.1 here.2
    where
      go :
          ((d' : DecoderNoHeap T)
            → Between (stream frames ++ more) m d'
            → receive_all (k + 2) (length frames) d' ≡ map as_buf frames)
          → (p : Poll Item × DecoderNoHeap T) → poll_next R (k + 2) d ≡ some p
          → Outcome R (as_buf wf) (stream frames ++ more) m p
          → receive_all (k + 2) (suc (length frames)) d ≡ map as_buf (wf ∷ frames)
      go again (r, d') polled (later c n t t' pos some_left e is held holds x y) =
          absurd (ground (arith, e, eager n t pos some_left))
      go again (r, d') polled (broken n t t' kind front pos some_left e cut' at shut) =
          absurd (ground (arith, e, eager n t pos some_left))
      go again (r, d') polled (delivered wf' is same idle' un opened lim) = ground (
        arith,
        polled,
        is,
        same,
        again d' (record { is_open = opened; limit = lim; idle = idle'; rest = un }),
      )

  -- Both decoders yield the same frames, byte by byte and in the same order, from streams that
  -- start with the same frames, each with a whole header and a right length field and of a size
  -- within the limit, if both readers hand over bytes when these are there, and each poll of
  -- DecoderNoHeap has two more rounds than the largest frame has bytes.
  pub receive_all-receive_all :
      (debug : Bool) (X : ExactReader) (frames : List ThesWf) (more other : List ℕ) (m k : ℕ)
      (t : T) (x : X.T)
      → IsEager
      → Roundtrip.IsEager debug X
      → AllFit m k frames
      → unread t ≡ stream frames ++ more
      → X.unread x ≡ stream frames ++ other
      → receive_all (k + 2) (length frames) (new t m)
        ≡ Roundtrip.receive_all debug X (length frames) (Decoder.new x m)
  unfolding new Decoder.new
  receive_all-receive_all debug X frames more other m k t x eager eager' f cut cut' =
      receive_lem frames more m k (new t m) eager f
        (record { is_open = refl; limit = refl; idle = refl; rest = cut })
      ∙ sym (
          receive_all_lem debug X frames other m k (Decoder.new x m) x eager' f
            (record { is_open = refl; limit = refl }) refl refl refl cut')
