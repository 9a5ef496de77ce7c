-- ===== src/Codec/Encoder/Delivery.antt =====
-- The encoder writes each message out once, whole and in order, however the writer cuts it up.
use Prim.Native.Nat.{min}
use thespis_impl_remote.Common.{
  ℕ, ◌+◌, ◌≤◌, ◌<◌, ◌≡◌, refl, ◌∙◌, inl, inr, List, [], ◌∷◌, ◌++◌, none, some, arith, length, take,
  drop, length-drop, append_assoc, append-nil, ok, err, pending, ready, ◌==◌, Bool-cases, ==_iff,
  ==-false, true, false, take-append-drop, drop-drop, drop_all,
}
use thespis_impl_remote.Wire.WireErr.{WireErr, connection_aborted, from_io}
use thespis_impl_remote.Frame.ThesWf.{ThesWf, as_buf}
use thespis_impl_remote.Codec.Transport.{WriteAnswer, blocked, accepts, fails}
use thespis_impl_remote.Codec.Encoder.Flush.{Encoder, Flushed, flush, poll_flush, start_send}

-- What a flush may leave, of a message of which `left` was still to be written on top of `out`.
pub data Delivers (msg : ThesWf) (out left : List ℕ) : Flushed → Type 0 where
  parked :
      {f : Flushed} (pos : ℕ)
      → f.result ≡ pending
      → f.encoder.buffer ≡ some (msg, pos)
      → pos < length (as_buf msg)
      → f.encoder.out_bytes ++ drop pos (as_buf msg) ≡ out ++ left
      → Delivers msg out left f
  written :
      {f : Flushed}
      → f.result ≡ ready (ok tt)
      → f.encoder.buffer ≡ none
      → f.encoder.out_bytes ≡ out ++ left
      → Delivers msg out left f
  cut :
      {f : Flushed} (e : WireErr) (tail : List ℕ)
      → f.result ≡ ready (err e)
      → f.encoder.buffer ≡ none
      → f.encoder.out_bytes ++ tail ≡ out ++ left
      → Delivers msg out left f

-- One write moves bytes from the front of what is left to the end of what is out.
moved :
    (out xs : List ℕ) (pos x k : ℕ)
    → pos + x ≡ k
    → (out ++ take x (drop pos xs)) ++ drop k xs ≡ out ++ drop pos xs
moved out xs pos x k e =
    rw (append_assoc out, ← drop-drop pos x k xs e, take-append-drop x (drop pos xs))

-- Whatever the writer answers to a flush of a message of which bytes are left, what is out and what
-- is left always make up the same bytes: a flush that is not done keeps the message with the
-- position of the bytes left; one that is done has written all of it; one that fails has written a
-- front part.
pub flush-Delivers :
    (answers : List WriteAnswer) (e : Encoder) (msg : ThesWf) (pos : ℕ) (out left : List ℕ)
    → pos < length (as_buf msg)
    → e.out_bytes ++ drop pos (as_buf msg) ≡ out ++ left
    → Delivers msg out left (flush e (some (msg, pos)) answers)
unfolding flush
flush-Delivers [] e msg pos out left h same = parked pos refl refl h same
flush-Delivers (blocked ∷ answers) e msg pos out left h same = parked pos refl refl h same
flush-Delivers (fails kind ∷ answers) e msg pos out left h same =
    cut (from_io kind) (drop pos (as_buf msg)) refl refl same
flush-Delivers (accepts room ∷ answers) e msg pos out left h same =
    let x = min room (length (drop pos (as_buf msg))) in
    let e' : Encoder = record e {
      out_bytes = e.out_bytes ++ take x (drop pos (as_buf msg));
      buffer = none;
    } in
    let step : e'.out_bytes ++ drop (pos + x) (as_buf msg) ≡ out ++ left =
      moved e.out_bytes (as_buf msg) pos x (pos + x) refl ∙ same in
    elim (Bool-cases (x == 0)) [
      | inl none_taken ↦
          rw none_taken
            (cut (from_io connection_aborted) (drop (pos + x) (as_buf msg)) refl refl step)
      | inr some_taken ↦ elim (Bool-cases (pos + x == length (as_buf msg))) [
        | inl last ↦ rw (some_taken, last) (written refl refl (all_out x last step))
        | inr more ↦
            rw (some_taken, more)
              (flush-Delivers answers e' msg (pos + x) out left (below more) step)
      ]
    ]
  where
    all_out :
        (x : ℕ)
        → (pos + x == length (as_buf msg)) ≡ true
        → (e.out_bytes ++ take x (drop pos (as_buf msg))) ++ drop (pos + x) (as_buf msg)
          ≡ out ++ left
        → e.out_bytes ++ take x (drop pos (as_buf msg)) ≡ out ++ left
    all_out x last step =
        rw (drop_all (pos + x) (as_buf msg) (omega (arith, (==_iff _ _).0 last)), append-nil) at
          step

    below :
        (pos + min room (length (drop pos (as_buf msg))) == length (as_buf msg)) ≡ false
        → pos + min room (length (drop pos (as_buf msg))) < length (as_buf msg)
    below more = omega (arith, length-drop pos (as_buf msg), ==-false _ _ more)

-- Every answer makes room for a byte at least.
abbrev pub AllAccept : List WriteAnswer → Type 0
AllAccept [] = Unit {0}
AllAccept (blocked ∷ answers) = ⊥
AllAccept (fails kind ∷ answers) = ⊥
AllAccept (accepts room ∷ answers) = (0 < room) × AllAccept answers

-- A writer that makes room for a byte at each of as many polls as bytes are left sees the message
-- through: the flush is done.
flush_completes :
    (answers : List WriteAnswer) (e : Encoder) (msg : ThesWf) (pos : ℕ)
    → AllAccept answers
    → pos < length (as_buf msg)
    → length (as_buf msg) ≤ pos + length answers
    → (flush e (some (msg, pos)) answers).result ≡ ready (ok tt)
unfolding flush
flush_completes [] e msg pos a h k = absurd (omega arith)
flush_completes (blocked ∷ answers) e msg pos a h k = absurd a
flush_completes (fails kind ∷ answers) e msg pos a h k = absurd a
flush_completes (accepts room ∷ answers) e msg pos a h k =
    let x = min room (length (drop pos (as_buf msg))) in
    let e' : Encoder = record e {
      out_bytes = e.out_bytes ++ take x (drop pos (as_buf msg));
      buffer = none;
    } in
    elim (Bool-cases (x == 0)) [
      | inl none_taken ↦
          absurd (omega (arith, length-drop pos (as_buf msg), (==_iff _ _).0 none_taken, a.0))
      | inr some_taken ↦ elim (Bool-cases (pos + x == length (as_buf msg))) [
        | inl last ↦ rw (some_taken, last) refl
        | inr more ↦
            rw (some_taken, more)
              (flush_completes answers e' msg (pos + x) a.1
                (omega (arith, length-drop pos (as_buf msg), ==-false _ _ more))
                (omega (arith, length-drop pos (as_buf msg), ==-false _ _ some_taken)))
      ]
    ]

start_send_accepted :
    (e e' : Encoder) (msg : ThesWf)
    → start_send e msg ≡ ready e'
    → e' ≡ record e { buffer = some (msg, 0) }
unfolding start_send
start_send_accepted e e' msg h = ground arith

written_all :
    (f : Flushed) (msg : ThesWf) (out left : List ℕ)
    → Delivers msg out left f
    → f.result ≡ ready (ok tt)
    → (f.encoder.out_bytes ≡ out ++ left) × (f.encoder.buffer ≡ none)
written_all f msg out left (parked pos r b h same) e = ground arith
written_all f msg out left (written r b same) e = (same, b)
written_all f msg out left (cut x tail r b same) e = ground arith

-- A message of a byte at least that an idle encoder took, whose writer then has room for a byte at
-- least at each poll, as often as the message has bytes, is written out whole behind what was
-- written before, the flush is done, and the buffer is free again.
pub poll_flush-start_send :
    (e e' : Encoder) (msg : ThesWf) (answers : List WriteAnswer)
    → start_send e msg ≡ ready e'
    → 0 < length (as_buf msg)
    → AllAccept answers
    → length (as_buf msg) ≤ length answers
    → ((poll_flush e' answers).result ≡ ready (ok tt))
      × ((poll_flush e' answers).encoder.out_bytes ≡ e.out_bytes ++ as_buf msg)
      × ((poll_flush e' answers).encoder.buffer ≡ none)
unfolding poll_flush
poll_flush-start_send e e' msg answers started h a k =
    let e'' : Encoder = record e { buffer = some (msg, 0) } in
    let done = flush_completes answers e'' msg 0 a h (omega arith) in
    let all =
      written_all _ msg e.out_bytes (as_buf msg)
        (flush-Delivers answers e'' msg 0 e.out_bytes (as_buf msg) h refl) done in
    rw (start_send_accepted e e' msg started) (done, all.0, all.1)
