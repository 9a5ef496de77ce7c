-- ===== src/Services/Callers.antt =====
-- service_map_macro.rs, `RemoteAddr`: what a caller of a remote service gets.
use thespis_impl_remote.Common.{
  ℕ, Bool, true, List, Option, none, some, ◌≡◌, ◌↔◌, ◌⊎◌, refl, ap, ◌∙◌, ◌>>=◌, arith, ok, err, inl,
  inr, Bool-cases,
}
use thespis_impl_remote.Wire.ServiceId.{ServiceId}
use thespis_impl_remote.Frame.ByteOrder.{ByteOrder}
use thespis_impl_remote.Frame.ThesWf.{ThesWf, msg, set_sid, with_capacity, write}
use thespis_impl_remote.Peer.Errors.{ConnectionError, PeerErr, ctx_of}
use thespis_impl_remote.Services.Address.{
  CallAnswer, mailbox_closed, send_failed, canceled, received,
}
use thespis_impl_remote.Services.Remote.{RemoteAddr, build_call, on_answer, call}

module _ ⦃bo : ByteOrder⦄ (a : RemoteAddr) (deserializes : List ℕ → Bool) (s : ServiceId) where
  answer-ok :
      (x : CallAnswer) (bytes : List ℕ)
      → on_answer a deserializes s x ≡ ok bytes
      → (resp : ThesWf) × (x ≡ received (ok resp))
        × (msg resp ≡ bytes)
        × (deserializes bytes ≡ true)
  unfolding on_answer
  answer-ok mailbox_closed bytes h = absurd (ground arith)
  answer-ok (send_failed e) bytes h = absurd (ground arith)
  answer-ok canceled bytes h = absurd (ground arith)
  answer-ok (received (ok resp)) bytes h = elim (Bool-cases (deserializes (msg resp))) [
    | inl readable ↦ (resp, refl, ground (arith, readable), ground (arith, readable))
    | inr garbled ↦ absurd (ground (arith, garbled))
  ]
  answer-ok (received (err (ConnectionError.timeout t))) bytes h = absurd (ground arith)
  answer-ok (received (err e)) bytes h = absurd (ground arith)

  -- Of a response whose message deserializes the caller gets these bytes.
  pub readable_lem :
      (resp : ThesWf) (bytes : List ℕ)
      → msg resp ≡ bytes
      → deserializes bytes ≡ true
      → on_answer a deserializes s (received (ok resp)) ≡ ok bytes
  unfolding on_answer
  readable_lem resp bytes is readable = ground (arith, is, readable)

  call-built :
      (message : Option (List ℕ)) (wf : ThesWf)
      → build_call s message ≡ ok wf
      → call a deserializes s message ≡ on_answer a deserializes s (a.peer.answer wf)
  unfolding call
  call-built message wf built =
      ap (λ r. r >>= λ wf. on_answer a deserializes s (a.peer.answer wf)) built

  -- A call of a remote service gives its caller a value exactly if the message serializes and the
  -- peer, which took the frame built from it, sent back a response whose message deserializes;
  -- these bytes are the value. Whatever else comes of it is an error.
  pub call-ok_iff :
      (message : Option (List ℕ)) (bytes : List ℕ)
      → (call a deserializes s message ≡ ok bytes) ↔ (
          (wf resp : ThesWf) × (build_call s message ≡ ok wf)
          × (a.peer.answer wf ≡ received (ok resp))
          × (msg resp ≡ bytes)
          × (deserializes bytes ≡ true))
  unfolding call
  call-ok_iff none bytes = (λ h. absurd (ground arith), λ found. absurd (ground (arith, found.2)))
  call-ok_iff (some body) bytes = (
    λ h.
        let wf = write (set_sid (with_capacity 0) s) body in
        let x = answer-ok (a.peer.answer wf) bytes h in
        (wf, x.0, unfold build_call in refl, x.1, x.2, x.3),
    λ (wf, resp, built, answered, is, readable).
        call-built (some body) wf built
        ∙ ap (on_answer a deserializes s) answered
        ∙ readable_lem resp bytes is readable,
  )

  answer-err :
      (x : CallAnswer) (e : PeerErr)
      → on_answer a deserializes s x ≡ err e
      → ((ctx_of e).sid ≡ some s) × ((ctx_of e).peer_id ≡ some a.peer.id)
  unfolding on_answer
  answer-err mailbox_closed e h = ground arith
  answer-err (send_failed f) e h = ground arith
  answer-err canceled e h = ground arith
  answer-err (received (ok resp)) e h = ground arith
  answer-err (received (err f)) e h = ground arith

  -- An error that a call of a remote service ends in names that service, and unless the message did
  -- not serialize also the peer that the call went through.
  pub call-err :
      (message : Option (List ℕ)) (e : PeerErr)
      → call a deserializes s message ≡ err e
      → ((ctx_of e).sid ≡ some s) × ((message ≡ none) ⊎ ((ctx_of e).peer_id ≡ some a.peer.id))
  unfolding call
  call-err none e h = (ground arith, inl refl)
  call-err (some body) e h =
      let x = answer-err (a.peer.answer (write (set_sid (with_capacity 0) s) body)) e h in
      (x.0, inr x.1)
