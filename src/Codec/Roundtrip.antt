-- ===== src/Codec/Roundtrip.antt =====
-- The codec as a whole: the frames that go into an encoder come out of a decoder.
use thespis_impl_remote.Common.{
  ℕ, zero, suc, ◌≤◌, ◌≡◌, refl, sym, ap, ◌∙◌, Bool, List, [], ◌∷◌, ◌++◌, none, some, arith, length,
  map, append_assoc, append-nil, ok, Poll, ready,
}
use thespis_impl_remote.Frame.ByteOrder.{ByteOrder}
use thespis_impl_remote.Frame.ThesWf.{ThesWf, as_buf, len}
use thespis_impl_remote.Frame.Build.{IsWhole}
use thespis_impl_remote.Codec.Transport.{got, ExactReader, WriteAnswer}
use thespis_impl_remote.Codec.Framing.{IsFrame}
use thespis_impl_remote.Codec.Encoder.{Encoder, start_send, poll_flush}
use thespis_impl_remote.Codec.Encoder
use thespis_impl_remote.Codec.Encoder.Delivery.{AllAccept, poll_flush-start_send}
use thespis_impl_remote.Codec.Decoder.{Decoder, Item, poll_next}
use thespis_impl_remote.Codec.Decoder
use thespis_impl_remote.Codec.Decoder.Delivery.{
  Open, Outcome, idle, later, delivered, broken, poll_next-Outcome,
}

-- The bytes of frames, one after the other.
abbrev pub stream : List ThesWf → List ℕ
stream [] = []
stream (wf ∷ frames) = as_buf wf ++ stream frames

-- The messages are sent one after the other, each flushed by a writer that gives these answers.
unfoldable pub send_all : List WriteAnswer → Encoder → List ThesWf → Encoder
send_all answers e [] = e
send_all answers e (wf ∷ frames) = elim (start_send e wf) [
  | ready e' ↦ send_all answers (poll_flush e' answers).encoder frames
  | _ ↦ e
]

module _ ⦃bo : ByteOrder⦄ where
  -- Whole frames of a size within both limits.
  abbrev pub AllFit : ℕ → ℕ → List ThesWf → Type 0
  AllFit m k [] = Unit {0}
  AllFit m k (wf ∷ frames) =
      (IsWhole wf × (length (as_buf wf) ≤ m) × (length (as_buf wf) ≤ k)) × AllFit m k frames

  pub send_all_lem :
      (answers : List WriteAnswer) (e : Encoder) (m : ℕ) (frames : List ThesWf)
      → AllAccept answers
      → AllFit m (length answers) frames
      → e.buffer ≡ none
      → (send_all answers e frames).out_bytes ≡ e.out_bytes ++ stream frames
  unfolding send_all Encoder.start_send
  send_all_lem answers e m [] a f b = sym (append-nil e.out_bytes)
  send_all_lem answers e m (wf ∷ frames) a f b =
      let e' : Encoder = record e { buffer = some (wf, 0) } in
      let started : start_send e wf ≡ ready e' = rw b refl in
      let out =
        poll_flush-start_send e e' wf answers started (omega (arith, f.0.0.framed)) a f.0.2 in
      let rest = send_all_lem answers (poll_flush e' answers).encoder m frames a f.1 out.2 in
      rw b (
        rest
        ∙ ap (λ l. l ++ stream frames) out.1
        ∙ append_assoc e.out_bytes (as_buf wf) (stream frames))

  pub whole_IsFrame : (wf : ThesWf) → IsWhole wf → IsFrame (as_buf wf)
  unfolding len
  whole_IsFrame wf w = record { header = w.framed; size = w.consistent }

  module _ (debug : Bool) (R : ExactReader) where
    open R use {T, unread, poll_exact}

    -- The bytes of the frames that so many polls yield, up to the first poll that yields none.
    unfoldable pub receive_all : ℕ → Decoder T → List (List ℕ)
    receive_all zero d = []
    receive_all (suc n) d = elim (poll_next debug R d) [
      | some (ready (some (ok wf)), d') ↦ as_buf wf ∷ receive_all n d'
      | _ ↦ []
    ]

    -- The reader hands bytes over as soon as they are asked for, while there are enough.
    abbrev pub IsEager : Type 0
    IsEager =
        (n : ℕ) (t : T)
        → n ≤ length (unread t)
        → (t' : T) × (bytes : List ℕ) × (poll_exact n t ≡ got t' bytes)

    pub receive_all_lem :
        (frames : List ThesWf) (more : List ℕ) (m k : ℕ) (d : Decoder T) (t : T)
        → IsEager
        → AllFit m k frames
        → Open debug R m d
        → d.get_msg ≡ none
        → d.get_len ≡ none
        → d.byte_stream ≡ some t
        → unread t ≡ stream frames ++ more
        → receive_all (length frames) d ≡ map as_buf frames
    unfolding receive_all
    receive_all_lem [] more m k d t eager f o gm gl bs cut = refl
    receive_all_lem (wf ∷ frames) more m k d t eager f o gm gl bs cut =
        let rest = stream frames ++ more in
        let here =
          poll_next-Outcome debug R (as_buf wf) rest m d (whole_IsFrame wf f.0.0) f.0.1 o
            (idle t gm gl bs (cut ∙ append_assoc (as_buf wf) (stream frames) more)) in
        go (λ d' t'. receive_all_lem frames more m k d' t' eager f.1) here.0 here.1 here.2
      where
        go :
            ((d' : Decoder T) (t' : T)
              → Open debug R m d'
              → d'.get_msg ≡ none
              → d'.get_len ≡ none
              → d'.byte_stream ≡ some t'
              → unread t' ≡ stream frames ++ more
              → receive_all (length frames) d' ≡ map as_buf frames)
            → (p : Poll Item × Decoder T) → poll_next debug R d ≡ some p
            → Outcome debug R (as_buf wf) (stream frames ++ more) m p
            → receive_all (suc (length frames)) d ≡ map as_buf (wf ∷ frames)
        go again (r, d') polled (later n t t' e enough is x y) =
            absurd (ground (arith, e, eager n t enough))
        go again (r, d') polled (broken n t t' kind front e cut' enough is shut) =
            absurd (ground (arith, e, eager n t enough))
        go again (r, d') polled (delivered wf' t' is same gm' gl' bs' un o') =
            ground (arith, polled, is, again d' t' o' gm' gl' bs' un, same)

    -- Frames with a whole header and a right length field that fit the decoder's limit, sent one
    -- after the other through a new encoder whose writer has room for a byte at least at each of as
    -- many polls as the largest frame has bytes, are what a new decoder yields, byte by byte the
    -- same and in the same order, from a stream that starts with what the encoder wrote, whatever
    -- follows, if its reader hands over bytes that are asked for as long as there are enough.
    pub receive_all-send_all :
        (frames : List ThesWf) (more : List ℕ) (answers : List WriteAnswer) (m k : ℕ) (t : T)
        → IsEager
        → AllAccept answers
        → AllFit m (length answers) frames
        → unread t ≡ (send_all answers (Encoder.new k) frames).out_bytes ++ more
        → receive_all (length frames) (Decoder.new t m) ≡ map as_buf frames
    unfolding Decoder.new
    receive_all-send_all frames more answers m k t eager a f cut =
        receive_all_lem frames more m (length answers) (Decoder.new t m) t eager f
          (record { is_open = refl; limit = refl }) refl refl refl
          (cut ∙ ap (λ l. l ++ more) (send_all_lem answers (Encoder.new k) m frames a f refl))
