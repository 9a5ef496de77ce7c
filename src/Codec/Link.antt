-- ===== src/Codec/Link.antt =====
-- `Peer::from_async_read` of peer.rs puts an encoder and a decoder on a byte stream: what becomes
-- of one frame on its way from the encoder of one peer to the decoder of the other.
use thespis_impl_remote.Common.{
  ℕ, ◌+◌, length-drop, ◌≤◌, ◌≡◌, refl, ◌∙◌, Bool, List, [], ◌∷◌, ◌++◌, Option, none, some, arith,
  length, Poll, ready, ok,
}
use thespis_impl_remote.Frame.ByteOrder.{ByteOrder}
use thespis_impl_remote.Frame.ThesWf.{ThesWf, len_header, as_buf, sid, cid, msg, kind}
use thespis_impl_remote.Frame.Fields.{IsFramed}
use thespis_impl_remote.Frame.Build.{IsWhole}
use thespis_impl_remote.Codec.Transport.{ExactReader, WriteAnswer}
use thespis_impl_remote.Codec.Encoder.{Encoder}
use thespis_impl_remote.Codec.Encoder
use thespis_impl_remote.Codec.Encoder.Delivery.{AllAccept}
use thespis_impl_remote.Codec.Decoder.{Decoder, Item, poll_next}
use thespis_impl_remote.Codec.Decoder
use thespis_impl_remote.Codec.Decoder.Delivery.{
  Outcome, idle, later, delivered, broken, poll_next-Outcome,
}
use thespis_impl_remote.Codec.Roundtrip.{send_all, send_all_lem, IsEager, whole_IsFrame}

-- One direction of a connection: how the writer answers, and the stream in which bytes arrive.
pub record Link : Type 1 where
  pub debug : Bool
  pub reader : ExactReader
  pub answers : List WriteAnswer
  pub max_size : ℕ
  pub arrived : List ℕ → reader.T

module _ ⦃bo : ByteOrder⦄ where
  -- The sink and the stream of `Peer::from_async_read`.
  abbrev pub sink : Link → Encoder
  sink l = Encoder.new l.max_size

  abbrev pub frames : (l : Link) → List ℕ → Decoder l.reader.T
  frames l bytes = Decoder.new (l.arrived bytes) l.max_size

  -- The frame that comes out at the other end, if one does.
  unfoldable pub over : Link → ThesWf → Option ThesWf
  over l wf =
      elim (poll_next l.debug l.reader
        (frames l (send_all l.answers (sink l) (wf ∷ [])).out_bytes)) [
          | some (ready (some (ok wf')), d) ↦ some wf'
          | _ ↦ none
        ]

  -- The writer always has room, the reader hands over the bytes that arrived, and these are what
  -- was written.
  pub record IsSound (l : Link) : Type 0 where
    pub accepts_all : AllAccept l.answers
    pub eager : IsEager l.debug l.reader
    pub intact : (bytes : List ℕ) → l.reader.unread (l.arrived bytes) ≡ bytes

  -- A whole frame within the limits.
  pub record Fits (l : Link) (wf : ThesWf) : Type 0 where
    pub whole : IsWhole wf
    pub within : length (as_buf wf) ≤ l.max_size
    pub room : length (as_buf wf) ≤ length l.answers

  pub over_lem :
      (l : Link) (wf : ThesWf)
      → IsSound l
      → Fits l wf
      → (wf' : ThesWf) × (over l wf ≡ some wf') × (as_buf wf' ≡ as_buf wf)
  unfolding over Decoder.new
  over_lem l wf s f =
      let bytes = (send_all l.answers (sink l) (wf ∷ [])).out_bytes in
      let written : bytes ≡ as_buf wf ++ [] =
        send_all_lem l.answers (sink l) l.max_size (wf ∷ []) s.accepts_all
          ((f.whole, f.within, f.room), tt) refl in
      let here =
        poll_next-Outcome l.debug l.reader (as_buf wf) [] l.max_size (frames l bytes)
          (whole_IsFrame wf f.whole) f.within (record { is_open = refl; limit = refl })
          (idle (l.arrived bytes) refl refl refl (s.intact bytes ∙ written)) in
      go here.0 here.1 here.2
    where
      go :
          (p : Poll Item × Decoder l.reader.T)
          → poll_next l.debug l.reader (frames l (send_all l.answers (sink l) (wf ∷ [])).out_bytes)
            ≡ some p
          → Outcome l.debug l.reader (as_buf wf) [] l.max_size p
          → (wf' : ThesWf) × (over l wf ≡ some wf') × (as_buf wf' ≡ as_buf wf)
      go (r, d') polled (later n t t' e enough is x y) =
          absurd (ground (arith, e, s.eager n t enough))
      go (r, d') polled (broken n t t' kind front e cut' enough is shut) =
          absurd (ground (arith, e, s.eager n t enough))
      go (r, d') polled (delivered wf' t' is same gm' gl' bs' un o') =
          (wf', ground (arith, polled, is), same)

  -- What a frame says is in its bytes.
  pub same_bytes :
      (a b : ThesWf)
      → as_buf a ≡ as_buf b
      → (kind a ≡ kind b) × (sid a ≡ sid b) × (cid a ≡ cid b) × (msg a ≡ msg b)
  unfolding kind sid cid msg
  same_bytes a b h = rw h (refl, refl, refl, refl)

  -- The size of a frame with a whole header.
  pub framed_length :
      (wf : ThesWf) → IsFramed wf → length (as_buf wf) ≡ len_header + length (msg wf)
  unfolding msg
  framed_length wf f = omega (arith, f, length-drop len_header (as_buf wf))
