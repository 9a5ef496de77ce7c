-- ===== src/Codec/NoHeap/Message.antt =====
-- The second half of a poll: the decoder reads the message behind the length field.
use thespis_impl_remote.Common.{
  err, true, ℕ, zero, suc, ◌+◌, ◌-◌, ◌≤◌, ◌<◌, ◌≡◌, ◌⊎◌, inl, inr, refl, sym, ap, ◌∙◌, false, List,
  [], ◌∷◌, ◌++◌, Option, none, some, arith, length, take, drop, splice, append_assoc, take-append,
  length-append, length-take, take_all, slice-append, Bool-cases, panicked, ok, Poll, pending,
  ready, ltb,
}
use thespis_impl_remote.Wire.WireErr.{ErrorKind, from_io}
use thespis_impl_remote.Frame.Cursor.{Cursor}
use thespis_impl_remote.Frame.Ranges.{length-splice, take_below}
use thespis_impl_remote.Frame.ByteOrder.{ByteOrder}
use thespis_impl_remote.Frame.ThesWf.{ThesWf, as_buf, len_len}
use thespis_impl_remote.Codec.Transport.{Read, wait, got, fail, Reader}
use thespis_impl_remote.Codec.Framing.{IsFrame, same_front, whole_frame}
use thespis_impl_remote.Codec.NoHeap.Poll.{
  DecoderNoHeap, Item, on_msg, frame_len, poll_loop, filled,
}

-- Bytes put in at the position lengthen the part of the buffer that was read.
pub take-filled :
    (xs w : List ℕ) (i : ℕ)
    → i + length w ≤ length xs
    → take (i + length w) (splice xs i w) ≡ take i xs ++ w
take-filled xs w i h =
    ap (take (i + length w)) (sym (append_assoc (take i xs) w (drop (i + length w) xs)))
    ∙ take-append (i + length w) (take i xs ++ w) _
        (omega (arith, length-append (take i xs) w, length-take i xs (omega arith)))

module _ ⦃bo : ByteOrder⦄ (R : Reader) where
  open R use {T, unread, poll_read, read_wait, read_got, read_none}

  -- The part of the buffer that was read, and the stream behind it, are the frame and `more`.
  pub record Holds (bytes more : List ℕ) (t : T) (c : Cursor) : Type 0 where
    pub front : take c.pos c.inner ++ unread t ≡ bytes ++ more
    pub phase :
        ((length c.inner ≡ len_len) × (c.pos ≤ len_len))
        ⊎ ((length c.inner ≡ length bytes) × (len_len ≤ c.pos) × (c.pos < length bytes))

  -- What a poll may answer: not yet, as the reader has to wait, with the bytes so far kept; the
  -- frame of these bytes, with the stream at `more`; an error or a panic if the reader failed on
  -- the way. It asks the reader for a byte at least, and only while the stream holds one.
  pub data Outcome (bytes more : List ℕ) (m : ℕ) (p : Poll Item × DecoderNoHeap T) : Type 0 where
    later :
        (c : Cursor) (n : ℕ) (t t' : T)
        → 0 < n
        → 0 < length (unread t)
        → poll_read n t ≡ wait t'
        → p.0 ≡ pending
        → p.1.in_progress ≡ some c
        → Holds bytes more p.1.byte_stream c
        → p.1.closed ≡ false
        → p.1.max_size ≡ m
        → Outcome bytes more m p
    delivered :
        (wf : ThesWf)
        → p.0 ≡ ready (some (ok wf))
        → as_buf wf ≡ bytes
        → p.1.in_progress ≡ none
        → unread p.1.byte_stream ≡ more
        → p.1.closed ≡ false
        → p.1.max_size ≡ m
        → Outcome bytes more m p
    broken :
        (n : ℕ) (t t' : T) (kind : ErrorKind) (front : List ℕ)
        → 0 < n
        → 0 < length (unread t)
        → poll_read n t ≡ fail t' kind
        → front ++ unread t ≡ bytes ++ more
        → p.1.byte_stream ≡ t'
        → ((p.0 ≡ ready (some (err (from_io kind)))) × (p.1.closed ≡ true)) ⊎ (p.0 ≡ panicked)
        → Outcome bytes more m p

  abbrev pub Polls : List ℕ → List ℕ → ℕ → Option (Poll Item × DecoderNoHeap T) → Type 0
  Polls bytes more m o = (p : Poll Item × DecoderNoHeap T) × (o ≡ some p) × Outcome bytes more m p

  pub record Ready (m : ℕ) (d : DecoderNoHeap T) : Type 0 where
    pub is_open : d.closed ≡ false
    pub limit : d.max_size ≡ m
    pub idle : d.in_progress ≡ none

  -- The length field of a buffer that holds it.
  pub known_len :
      (bytes more u : List ℕ) (c : Cursor)
      → IsFrame bytes
      → take c.pos c.inner ++ u ≡ bytes ++ more
      → len_len ≤ c.pos
      → c.pos ≤ length c.inner
      → (take len_len c.inner ≡ take len_len bytes) × (frame_len c ≡ length bytes)
  known_len bytes more u c fr front h k =
      let head : take len_len c.inner ≡ take len_len bytes =
        sym (take_below c.inner u c.pos len_len h k)
        ∙ ap (take len_len) front
        ∙ slice-append bytes more 0 len_len (omega (arith, fr.header)) in
      (head, ap bo.read_u64 head ∙ fr.size)

  -- A reader hands over a byte at least while the frame is not there.
  pub some_bytes :
      (bytes more front : List ℕ) (n : ℕ) (t t' : T) (w : List ℕ)
      → front ++ unread t ≡ bytes ++ more
      → length front < length bytes
      → 0 < n
      → poll_read n t ≡ got t' w
      → 0 < length w
  some_bytes bytes more front n t t' [] cut short pos e = absurd (
      omega (
        arith,
        ap length cut,
        ap length (read_none n t t' pos e),
        length-append front (unread t),
        length-append bytes more,
      ))
  some_bytes bytes more front n t t' (b ∷ w) cut short pos e = omega arith

  -- Behind a part of the frame that is too short, the stream holds a byte at least.
  pub more_bytes :
      (bytes more xs u : List ℕ) (i : ℕ)
      → take i xs ++ u ≡ bytes ++ more
      → i ≤ length xs
      → i < length bytes
      → 0 < length u
  more_bytes bytes more xs u i cut h k = omega (
    arith,
    ap length cut,
    length-take i xs h,
    length-append (take i xs) u,
    length-append bytes more,
  )

  pub loop_msg :
      (bytes more : List ℕ) (m fuel : ℕ) (d : DecoderNoHeap T) (c : Cursor) (x : Read T)
      → poll_read (frame_len c - c.pos) d.byte_stream ≡ x
      → IsFrame bytes
      → Ready m d
      → length c.inner ≡ length bytes
      → len_len ≤ c.pos
      → c.pos < length bytes
      → take c.pos c.inner ++ unread d.byte_stream ≡ bytes ++ more
      → length bytes - c.pos < fuel
      → Polls bytes more m (poll_loop R fuel d c)
  unfolding poll_loop on_msg
  loop_msg bytes more m zero d c x e fr r sz lo hi cut k = absurd (omega arith)
  loop_msg bytes more m (suc fuel) d c (wait t) e fr r sz lo hi cut k = (
    (pending, record d { byte_stream = t; in_progress = some c }),
    ground (arith, fr.header),
    later c (frame_len c - c.pos) d.byte_stream t
        (omega (arith, (known_len bytes more (unread d.byte_stream) c fr cut lo (omega arith)).1))
        (more_bytes bytes more c.inner (unread d.byte_stream) c.pos cut (omega arith) hi) e refl
        refl
        (record {
          front = ap (◌++◌ (take c.pos c.inner)) (read_wait _ d.byte_stream t e) ∙ cut;
          phase = inr (sz, lo, hi);
        })
        r.is_open r.limit,
  )
  loop_msg bytes more m (suc fuel) d c (fail t kind) e fr r sz lo hi cut k = (
    (panicked, record d { byte_stream = t; in_progress = none }),
    ground (arith, fr.header),
    broken (frame_len c - c.pos) d.byte_stream t kind (take c.pos c.inner)
        (omega (arith, (known_len bytes more (unread d.byte_stream) c fr cut lo (omega arith)).1))
        (more_bytes bytes more c.inner (unread d.byte_stream) c.pos cut (omega arith) hi) e cut refl
        (inr refl),
  )
  loop_msg bytes more m (suc fuel) d c (got t w) e fr r sz lo hi cut k =
      let known = known_len bytes more (unread d.byte_stream) c fr cut lo (omega arith) in
      let read = read_got (frame_len c - c.pos) d.byte_stream t w e in
      let front_size = length-take c.pos c.inner (omega arith) in
      let grown = take-filled c.inner w c.pos (omega (arith, known.1, read.0)) in
      let cut' : take (c.pos + length w) (filled c w).inner ++ unread t ≡ bytes ++ more =
        ap (λ l. l ++ unread t) grown
        ∙ append_assoc (take c.pos c.inner) w (unread t)
        ∙ sym (ap (◌++◌ (take c.pos c.inner)) read.1)
        ∙ cut in
      let sz' = length-splice c.inner c.pos w (omega (arith, known.1, read.0)) in
      let d' : DecoderNoHeap T = record d { byte_stream = t; in_progress = none } in
      elim (Bool-cases (ltb (length w) (frame_len c - c.pos))) [
        | inl short ↦
            let taken =
              some_bytes bytes more (take c.pos c.inner) (frame_len c - c.pos) d.byte_stream t w cut
                (omega (arith, front_size)) (omega (arith, known.1)) e in
            let next =
              loop_msg bytes more m fuel d' (filled c w)
                (poll_read (frame_len (filled c w) - (c.pos + length w)) t) refl fr
                (record { is_open = r.is_open; limit = r.limit; idle = refl }) (sz' ∙ sz)
                (omega arith) (ground (arith, known.1)) cut' (ground (arith, known.1)) in
            (next.0, ground (arith, next.1), next.2)
        | inr full ↦
            let both =
              same_front (take (c.pos + length w) (filled c w).inner) bytes (unread t) more cut' (
                ap length grown
                ∙ ground (arith, known.1, front_size, length-append (take c.pos c.inner) w)) in
            let all : (filled c w).inner ≡ bytes =
              sym (take_all (c.pos + length w) (filled c w).inner (ground (arith, known.1)))
              ∙ both.0 in
            let made = whole_frame bytes fr.header in
            (
              (ready (some (ok made.0)), d'),
              ground (arith, all, made.1, known.1),
              delivered made.0 refl made.2 refl both.1 r.is_open r.limit,
            )
      ]
