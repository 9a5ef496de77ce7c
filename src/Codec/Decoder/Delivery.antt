-- ===== src/Codec/Decoder/Delivery.antt =====
-- The decoder finds each frame in the bytes of the stream, however the reader hands them over.
use thespis_impl_remote.Common.{
  [], ℕ, suc, ◌+◌, ◌-◌, ◌≤◌, ◌≡◌, refl, sym, ap, ◌∙◌, Bool, true, false, List, ◌++◌, Option, none,
  some, arith, length, take, drop, append_assoc, length-append, length-take, take-append-drop, ok,
  Poll, pending, ready,
}
use thespis_impl_remote.Wire.WireErr.{ErrorKind}
use thespis_impl_remote.Frame.ByteOrder.{ByteOrder}
use thespis_impl_remote.Frame.ThesWf.{ThesWf, as_buf, len_len}
use thespis_impl_remote.Codec.Transport.{Read, wait, got, fail, ExactReader}
use thespis_impl_remote.Codec.Framing.{IsFrame, same_front, whole_frame}
use thespis_impl_remote.Codec.Decoder.Poll.{
  Decoder, GetMsg, Item, read_failed, on_msg, on_len, poll_loop, poll_next,
}

module _ ⦃bo : ByteOrder⦄ (debug : Bool) (R : ExactReader) where
  open R use {T, unread, poll_exact, exact_wait, exact_got}

  -- The decoder is on its way to a frame of these bytes, with `more` behind it.
  pub data Expects (bytes more : List ℕ) (d : Decoder T) : Type 0 where
    idle :
        (t : T)
        → d.get_msg ≡ none
        → d.get_len ≡ none
        → d.byte_stream ≡ some t
        → unread t ≡ bytes ++ more
        → Expects bytes more d
    in_len :
        (t : T)
        → d.get_msg ≡ none
        → d.get_len ≡ some t
        → unread t ≡ bytes ++ more
        → Expects bytes more d
    in_msg :
        (f : GetMsg T)
        → d.get_msg ≡ some f
        → d.get_len ≡ none
        → f.to_read + length f.head ≡ length bytes
        → f.head ++ unread f.transport ≡ bytes ++ more
        → Expects bytes more d

  pub record Open (max_size : ℕ) (d : Decoder T) : Type 0 where
    pub is_open : d.closed ≡ false
    pub limit : d.max_size ≡ max_size

  -- What a poll may answer: not yet, the frame of these bytes with the stream at `more`, or that
  -- the reader failed, upon which the decoder is closed.
  pub data Outcome (bytes more : List ℕ) (m : ℕ) (p : Poll Item × Decoder T) : Type 0 where
    later :
        (n : ℕ) (t t' : T)
        → poll_exact n t ≡ wait t'
        → n ≤ length (unread t)
        → p.0 ≡ pending
        → Expects bytes more p.1
        → Open m p.1
        → Outcome bytes more m p
    delivered :
        (wf : ThesWf) (t : T)
        → p.0 ≡ ready (some (ok wf))
        → as_buf wf ≡ bytes
        → p.1.get_msg ≡ none
        → p.1.get_len ≡ none
        → p.1.byte_stream ≡ some t
        → unread t ≡ more
        → Open m p.1
        → Outcome bytes more m p
    broken :
        (n : ℕ) (t t' : T) (kind : ErrorKind) (front : List ℕ)
        → poll_exact n t ≡ fail t' kind
        → front ++ unread t ≡ bytes ++ more
        → n ≤ length (unread t)
        → p.0 ≡ ready (read_failed kind)
        → p.1.closed ≡ true
        → Outcome bytes more m p

  abbrev Polls : List ℕ → List ℕ → ℕ → Option (Poll Item × Decoder T) → Type 0
  Polls bytes more m o = (p : Poll Item × Decoder T) × (o ≡ some p) × Outcome bytes more m p

  loop_msg :
      (bytes more : List ℕ) (m fuel : ℕ) (d : Decoder T) (f : GetMsg T) (x : Read T)
      → poll_exact f.to_read f.transport ≡ x
      → IsFrame bytes
      → Open m d
      → d.get_msg ≡ some f
      → d.get_len ≡ none
      → f.to_read + length f.head ≡ length bytes
      → f.head ++ unread f.transport ≡ bytes ++ more
      → Polls bytes more m (poll_loop debug R (suc fuel) d)
  unfolding poll_loop on_msg
  loop_msg bytes more m fuel d f (wait t) e fr o gm gl size cut = (
    (pending, record d { get_msg = some (record f { transport = t }) }),
    ground arith,
    later f.to_read f.transport t e
        (omega (
          arith,
          ap length cut,
          length-append f.head (unread f.transport),
          length-append bytes more,
        ))
        refl
        (in_msg (record f { transport = t }) refl gl size
          (ap (◌++◌ f.head) (exact_wait f.to_read f.transport t e) ∙ cut))
        (record { is_open = o.is_open; limit = o.limit }),
  )
  loop_msg bytes more m fuel d f (fail t kind) e fr o gm gl size cut = (
    (ready (read_failed kind), record d { byte_stream = some t; get_msg = none; closed = true }),
    ground arith,
    broken f.to_read f.transport t kind f.head e cut
        (omega (
          arith,
          ap length cut,
          length-append f.head (unread f.transport),
          length-append bytes more,
        ))
        refl refl,
  )
  loop_msg bytes more m fuel d f (got t rest) e fr o gm gl size cut =
      let read = exact_got f.to_read f.transport t rest e in
      let front =
        same_front (f.head ++ rest) bytes (unread t) more
          (append_assoc f.head rest (unread t) ∙ sym (ap (◌++◌ f.head) read.1) ∙ cut)
          (omega (arith, length-append f.head rest, read.0)) in
      let made = whole_frame bytes fr.header in
      (
        (ready (some (ok made.0)), record d { byte_stream = some t; get_msg = none }),
        ground (arith, front.0, made.1),
        delivered made.0 t refl made.2 refl gl refl front.1
            (record { is_open = o.is_open; limit = o.limit }),
      )

  loop_len :
      (bytes more : List ℕ) (m fuel : ℕ) (d : Decoder T) (t : T) (x : Read T)
      → poll_exact len_len t ≡ x
      → IsFrame bytes
      → length bytes ≤ m
      → Open m d
      → d.get_msg ≡ none
      → d.get_len ≡ some t
      → unread t ≡ bytes ++ more
      → Polls bytes more m (poll_loop debug R (suc (suc fuel)) d)
  unfolding poll_loop on_len
  loop_len bytes more m fuel d t (wait t') e fr fits o gm gl cut = (
    (pending, record d { get_len = some t' }),
    ground arith,
    later len_len t t' e (omega (arith, ap length cut, length-append bytes more, fr.header)) refl
        (in_len t' gm refl (exact_wait len_len t t' e ∙ cut))
        (record { is_open = o.is_open; limit = o.limit }),
  )
  loop_len bytes more m fuel d t (fail t' kind) e fr fits o gm gl cut = (
    (ready (read_failed kind), record d { byte_stream = some t'; get_len = none; closed = true }),
    ground arith,
    broken len_len t t' kind [] e cut
        (omega (arith, ap length cut, length-append bytes more, fr.header)) refl refl,
  )
  loop_len bytes more m fuel d t (got t' buf) e fr fits o gm gl cut =
      let read = exact_got len_len t t' buf e in
      let front =
        same_front buf (take 8 bytes) (unread t') (drop 8 bytes ++ more)
          (sym read.1
            ∙ cut
            ∙ sym (ap (λ l. l ++ more) (take-append-drop 8 bytes))
            ∙ append_assoc (take 8 bytes) (drop 8 bytes) more)
          (omega (arith, read.0, length-take 8 bytes, fr.header)) in
      let size : bo.read_u64 buf ≡ length bytes = ap bo.read_u64 front.0 ∙ fr.size in
      let f : GetMsg T = record { transport = t'; head = buf; to_read = bo.read_u64 buf - 8 } in
      let d' : Decoder T = record d { get_len = none; get_msg = some f } in
      let next =
        loop_msg bytes more m fuel d' f (poll_exact f.to_read f.transport) refl fr
          (record { is_open = o.is_open; limit = o.limit }) refl refl
          (omega (arith, read.0, size, fr.header)) (sym read.1 ∙ cut) in
      (next.0, ground (arith, size, fr.header, fits, o.limit, next.1), next.2)

  loop_idle :
      (bytes more : List ℕ) (m fuel : ℕ) (d : Decoder T) (t : T)
      → IsFrame bytes
      → length bytes ≤ m
      → Open m d
      → d.get_msg ≡ none
      → d.get_len ≡ none
      → d.byte_stream ≡ some t
      → unread t ≡ bytes ++ more
      → Polls bytes more m (poll_loop debug R (suc (suc (suc fuel))) d)
  unfolding poll_loop
  loop_idle bytes more m fuel d t fr fits o gm gl bs cut =
      let d' : Decoder T = record d { byte_stream = none; get_len = some t } in
      let next =
        loop_len bytes more m fuel d' t (poll_exact len_len t) refl fr fits
          (record { is_open = o.is_open; limit = o.limit }) gm refl cut in
      (next.0, ground (arith, next.1), next.2)

  -- While an open decoder and its stream hold the bytes of a frame within the limit, a poll returns
  -- after three rounds at most: it waits for a reader that has to wait, having lost nothing, or
  -- yields that very frame and leaves the stream right behind it, or, after a read of the frame's
  -- bytes that failed, tells so and is closed.
  pub poll_next-Outcome :
      (bytes more : List ℕ) (m : ℕ) (d : Decoder T)
      → IsFrame bytes
      → length bytes ≤ m
      → Open m d
      → Expects bytes more d
      → (p : Poll Item × Decoder T) × (poll_next debug R d ≡ some p) × Outcome bytes more m p
  unfolding poll_next
  poll_next-Outcome bytes more m d fr fits o (idle t gm gl bs cut) =
      let next = loop_idle bytes more m 0 d t fr fits o gm gl bs cut in
      (next.0, ground (arith, o.is_open, next.1), next.2)
  poll_next-Outcome bytes more m d fr fits o (in_len t gm gl cut) =
      let next = loop_len bytes more m 1 d t (poll_exact len_len t) refl fr fits o gm gl cut in
      (next.0, ground (arith, o.is_open, next.1), next.2)
  poll_next-Outcome bytes more m d fr fits o (in_msg f gm gl size cut) =
      let next =
        loop_msg bytes more m 2 d f (poll_exact f.to_read f.transport) refl fr o gm gl size cut in
      (next.0, ground (arith, o.is_open, next.1), next.2)
