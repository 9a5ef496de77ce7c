-- ===== src/Peer/Listening.antt =====
-- `listen_incoming` of peer.rs over the decoder of `Peer::from_async_read`: what a peer makes of the
-- bytes that the sink of another peer wrote.
use thespis_impl_remote.Common.{
  ℕ, zero, suc, ◌<◌, ◌≡◌, refl, ap, ◌∙◌, Bool, true, List, [], ◌∷◌, none, some, arith, length, map,
  ok, Poll, ready, inl, inr,
}
use thespis_impl_remote.Wire.WireErr.{unexpected_eof}
use thespis_impl_remote.Frame.ByteOrder.{ByteOrder}
use thespis_impl_remote.Frame.ThesWf.{ThesWf, as_buf, len_len}
use thespis_impl_remote.Codec.Transport.{fail, ExactReader, WriteAnswer}
use thespis_impl_remote.Codec.Encoder
use thespis_impl_remote.Codec.Encoder.Delivery.{AllAccept}
use thespis_impl_remote.Codec.Decoder.{Decoder, Item, poll_next}
use thespis_impl_remote.Codec.Decoder
use thespis_impl_remote.Codec.Decoder.Delivery.{
  Open, Outcome, idle, later, delivered, broken, poll_next-Outcome,
}
use thespis_impl_remote.Codec.Roundtrip.{
  stream, send_all, send_all_lem, AllFit, IsEager, whole_IsFrame,
}
use thespis_impl_remote.Peer.State.{Peer, Env, Handled-cases, Handled, done, ◌>>=◌}
use thespis_impl_remote.Peer.Requests.{handle_close_connection}
use thespis_impl_remote.Peer.Incoming.{handle_incoming, on_stream}
use thespis_impl_remote.Peer.BackPressure.{poll_wait}
use thespis_impl_remote.Peer.Untouched.{handle_incoming-slots}

-- `bp.wait()`, if there is back pressure.
unfoldable pub wait_slot : ℕ → Peer → Poll (Unit {0}) × Peer
wait_slot waker p = elim p.backpressure [
  | none ↦ (ready tt, p)
  | some bp ↦
      let (free, bp', woken) = poll_wait bp waker in (free, record p { backpressure = some bp' })
]

module _ ⦃bo : ByteOrder⦄ (env : Env) where
  -- Without back pressure there is none afterwards.
  handle_incoming-none :
      (p q : Peer) (wf : ThesWf)
      → handle_incoming env p (ok wf) ≡ done q
      → p.backpressure ≡ none
      → q.backpressure ≡ none
  handle_incoming-none p q wf h free = elim (handle_incoming-slots env p (ok wf) q h) [
    | inl (no_slot, same) ↦ same.0 ∙ free
    | inr (a_slot, same) ↦ ground (arith, same, free)
  ]

  -- The messages are handled one after the other.
  unfoldable pub handle_each : List ThesWf → Peer → Handled Peer
  handle_each [] p = done p
  handle_each (wf ∷ frames) p = handle_incoming env p (ok wf) >>= λ q. handle_each frames q

  module _ (debug : Bool) (R : ExactReader) where
    open R use {T, unread, poll_exact}

    -- So many turns of the loop of `listen_incoming`, by the task of the given waker, each once the
    -- peer has handled what the last one gave it. It ends with the stream, and stops where the
    -- decoder or the back pressure makes it wait, or the decoder panics.
    unfoldable pub listen_incoming : ℕ → ℕ → Decoder T → Peer → Handled Peer
    listen_incoming waker zero d p = done p
    listen_incoming waker (suc n) d p = elim (poll_next debug R d) [
      | some (ready (some item), d') ↦
          let (free, p') = wait_slot waker p in
          elim free [
            | ready _ ↦ on_stream env p' (some item) >>= λ q. listen_incoming waker n d' q
            | _ ↦ done p'
          ]
      | some (ready none, d') ↦ on_stream env p none
      | _ ↦ done p
    ]

    -- A reader that has come to the end says so.
    abbrev pub Ends : Type 0
    Ends =
        (n : ℕ) (t : T)
        → length (unread t) < n
        → (t' : T) × (poll_exact n t ≡ fail t' unexpected_eof)

    at_end :
        (waker : ℕ) (d : Decoder T) (t : T) (m : ℕ) (p : Peer) (n : ℕ)
        → Ends
        → Open debug R m d
        → d.get_msg ≡ none
        → d.get_len ≡ none
        → d.byte_stream ≡ some t
        → unread t ≡ []
        → listen_incoming waker (suc n) d p ≡ done (handle_close_connection env p true)
    unfolding listen_incoming poll_next on_stream
    at_end waker d t m p n ends o gm gl bs un =
        ground (arith, o.is_open, gm, gl, bs, (ends len_len t (omega (arith, ap length un))).1)

    -- What is listened to, and how it ends.
    record Heard (waker : ℕ) (frames : List ThesWf) (d : Decoder T) : Type 0 where
      got : List ThesWf
      same : map as_buf got ≡ map as_buf frames
      run :
          (p : Peer)
          → p.backpressure ≡ none
          → listen_incoming waker (suc (length frames)) d p
            ≡ (handle_each got p >>= λ q. done (handle_close_connection env q true))

    listen_lem :
        (waker : ℕ) (frames : List ThesWf) (m k : ℕ) (d : Decoder T) (t : T)
        → IsEager debug R
        → Ends
        → AllFit m k frames
        → Open debug R m d
        → d.get_msg ≡ none
        → d.get_len ≡ none
        → d.byte_stream ≡ some t
        → unread t ≡ stream frames
        → Heard waker frames d
    unfolding listen_incoming handle_each on_stream wait_slot
    listen_lem waker [] m k d t eager ends f o gm gl bs un = record {
      got = [];
      same = refl;
      run = λ p free. at_end waker d t m p 0 ends o gm gl bs un;
    }
    listen_lem waker (wf ∷ frames) m k d t eager ends f o gm gl bs un =
        let here =
          poll_next-Outcome debug R (as_buf wf) (stream frames) m d (whole_IsFrame wf f.0.0) f.0.1 o
            (idle t gm gl bs un) in
        go (λ d' t'. listen_lem waker frames m k d' t' eager ends f.1) here.0 here.1 here.2
      where
        go :
            ((d' : Decoder T) (t' : T)
              → Open debug R m d'
              → d'.get_msg ≡ none
              → d'.get_len ≡ none
              → d'.byte_stream ≡ some t'
              → unread t' ≡ stream frames
              → Heard waker frames d')
            → (x : Poll Item × Decoder T) → poll_next debug R d ≡ some x
            → Outcome debug R (as_buf wf) (stream frames) m x
            → Heard waker (wf ∷ frames) d
        go again (r, d') polled (later n t t' e enough is x y) =
            absurd (ground (arith, e, eager n t enough))
        go again (r, d') polled (broken n t t' kind front e cut' enough is shut) =
            absurd (ground (arith, e, eager n t enough))
        go again (r, d') polled (delivered wf' t' is bytes gm' gl' bs' un' o') =
            let rest = again d' t' o' gm' gl' bs' un' in
            record {
              got = wf' ∷ rest.got;
              same = ground (arith, bytes, rest.same);
              run = λ p free. elim (Handled-cases (handle_incoming env p (ok wf'))) [
                | inl dead ↦ ground (arith, polled, is, dead, free)
                | inr (q, handled) ↦ ground (
                  arith,
                  polled,
                  is,
                  handled,
                  free,
                  rest.run q (handle_incoming-none p q wf' handled free),
                )
              ];
            }

    -- What one peer's sink wrote is what the other peer handles. Frames with a whole header and a
    -- right length field that fit the limit are sent one after the other through a new encoder,
    -- whose writer has room for a byte at least at each of as many polls as the largest frame has
    -- bytes; a new decoder has these bytes in its stream, and nothing behind them, and its reader
    -- hands over bytes as long as there are enough and then says that the stream has ended. Then the
    -- task that listens to it makes a peer without back pressure handle messages with the very bytes of these frames, in
    -- the order they were sent, and nothing else, and at last makes it close, as by the remote; if
    -- one of these messages makes the peer panic, it panics.
    pub listen_incoming-send_all :
        (frames : List ThesWf) (answers : List WriteAnswer) (waker m k : ℕ) (t : T) (p : Peer)
        → p.backpressure ≡ none
        → IsEager debug R
        → Ends
        → AllAccept answers
        → AllFit m (length answers) frames
        → unread t ≡ (send_all answers (Encoder.new k) frames).out_bytes
        → (got : List ThesWf) × (map as_buf got ≡ map as_buf frames)
          × (listen_incoming waker (suc (length frames)) (Decoder.new t m) p
              ≡ (handle_each got p >>= λ q. done (handle_close_connection env q true)))
    unfolding Decoder.new
    listen_incoming-send_all frames answers waker m k t p free eager ends a f cut =
        let heard =
          listen_lem waker frames m (length answers) (Decoder.new t m) t eager ends f
            (record { is_open = refl; limit = refl }) refl refl refl
            (cut ∙ send_all_lem answers (Encoder.new k) m frames a f refl) in
        (heard.got, heard.same, heard.run p free)
