-- ===== src/Peer/Reports.antt =====
-- What happens to an error that a request met, and what the remote gets to know of it.
use thespis_impl_remote.Common.{
  ℕ, ◌+◌, ◌<◌, ◌≡◌, ◌↔◌, refl, inl, inr, Bool, true, false, ◌∷◌, none, some, arith, ok, err,
  Option-cases, Poll, pending, ready, panicked, length, lookup, remove, lookup-remove_self, ◌∙◌,
}
use thespis_impl_remote.Wire.UniqueId.{u64_mod}
use thespis_impl_remote.Wire.ConnId.{ConnId}
use thespis_impl_remote.Frame.ByteOrder.{ByteOrder}
use thespis_impl_remote.Frame.ThesWf.{len_header, cid, msg, kind}
use thespis_impl_remote.Frame.Addressed.{addressed_lem}
use thespis_impl_remote.Wire.WireType.{connection_error, kind_of}
use thespis_impl_remote.Peer.Errors.{ConnectionError, PeerErr, PeerEvent, ctx_of}
use thespis_impl_remote.Peer.Display.{remote_err}
use thespis_impl_remote.Peer.State.{Peer, Env, done, shine, ctx}
use thespis_impl_remote.Peer.Requests.{
  prep_error, send_err, try_send, report, handle_request_error, handle_close_connection,
}
use thespis_impl_remote.Peer.Outgoing.{resolve}
use thespis_impl_remote.Peer.Incoming.{handle_incoming, on_frame, remote_conn_err}
use thespis_impl_remote.Wire.WireErr.{WireErr}

module _ ⦃bo : ByteOrder⦄ (env : Env) where
  -- How an error was dealt with: observers were told, and the remote too if the error has a
  -- connection id.
  pub data Reported (p : Peer) (e : PeerErr) (q : Peer) : Type 0 where
    kept_local : (ctx_of e).cid ≡ none → q ≡ shine p (PeerEvent.error e) → Reported p e q
    sent_out :
        (cid : ConnId) (x : ConnectionError) (close : Bool)
        → (ctx_of e).cid ≡ some cid
        → report env e cid ≡ ready (x, close)
        → q ≡ send_err env (shine p (PeerEvent.error e)) cid x close
        → Reported p e q

  pub handle_request_error-Reported :
      (p : Peer) (e : PeerErr) (q : Peer) → handle_request_error env p e ≡ done q → Reported p e q
  unfolding handle_request_error
  handle_request_error-Reported p e q h = elim (Option-cases (ctx_of e).cid) [
    | inl absent ↦ kept_local absent (ground (arith, absent))
    | inr (cid, present) ↦ go cid present (report env e cid) refl
  ]
    where
      go :
          (cid : ConnId)
          → (ctx_of e).cid ≡ some cid
          → (r : Poll (ConnectionError × Bool)) → report env e cid ≡ r
          → Reported p e q
      go cid present (ready (x, close)) r =
          sent_out cid x close present r (ground (arith, present, r))
      go cid present pending r = absurd (ground (arith, present, r))
      go cid present panicked r = absurd (ground (arith, present, r))

  -- An error that carries no connection id, such as one of a send, is told to the observers and to
  -- nobody else: the handler does not panic, no frame is sent, and the connection stays as it was.
  pub handle_request_error-no_cid :
      (p : Peer) (e : PeerErr)
      → (ctx_of e).cid ≡ none
      → handle_request_error env p e ≡ done (shine p (PeerEvent.error e))
  unfolding handle_request_error
  handle_request_error-no_cid p e h = ground (arith, h)

  -- The frame that reports an error is taken for one, carries the connection id of the request,
  -- and its message is the serialized error, if it fits.
  pub prep_error_lem :
      (c : ConnId) (x : ConnectionError)
      → c < u64_mod
      → len_header + length (env.to_cbor x) < u64_mod
      → (kind (prep_error env c x) ≡ connection_error)
        × (cid (prep_error env c x) ≡ c)
        × (msg (prep_error env c x) ≡ env.to_cbor x)
  unfolding prep_error kind_of
  prep_error_lem c x h fits =
      let a = addressed_lem 0 c 0 (env.to_cbor x) (omega arith) h fits in (a.0, a.2, a.3)

  -- The errors after which a peer gives the connection up.
  abbrev pub IsFatal : PeerErr → Type 0
  IsFatal (PeerErr.wire_format ctx source) = Unit {0}
  IsFatal (PeerErr.spawn ctx) = Unit {0}
  IsFatal _ = ⊥

  report-IsFatal :
      (e : PeerErr) (c : ConnId) (x : ConnectionError) (close : Bool)
      → report env e c ≡ ready (x, close)
      → ((close ≡ true) ↔ IsFatal e)
  unfolding report remote_err
  report-IsFatal (PeerErr.wire_format ctx source) c x close r = ((λ h. tt), (λ h. ground arith))
  report-IsFatal (PeerErr.spawn ctx) c x close r = ((λ h. tt), (λ h. ground arith))
  report-IsFatal _ c x close r = ((λ h. ground arith), (λ h. absurd h))

  close_fields :
      (p : Peer) (remote : Bool)
      → ((handle_close_connection env p remote).sent ≡ p.sent)
        × ((handle_close_connection env p remote).closed ≡ true)
  unfolding handle_close_connection
  close_fields p remote = (ground arith, ground arith)

  send_err_lem :
      (p : Peer) (c : ConnId) (x : ConnectionError) (close : Bool)
      → p.closed ≡ false
      → p.outgoing ≡ true
      → env.on_send p.sent (prep_error env c x) ≡ none
      → ((send_err env p c x close).sent ≡ prep_error env c x ∷ p.sent)
        × ((send_err env p c x close).closed ≡ close)
  unfolding send_err try_send
  send_err_lem p c x true o out takes =
      let gone = close_fields (record p { sent = prep_error env c x ∷ p.sent }) false in
      (ground (arith, gone), ground (arith, gone))
  send_err_lem p c x false o out takes = (ground arith, ground arith)

  -- Of an error with a connection id that has a report, an open peer tells the remote by one frame,
  -- if the sink takes it; the connection is closed if and only if it is an error of the wire format
  -- or of spawning.
  pub handle_request_error-cid :
      (p : Peer) (e : PeerErr) (c : ConnId) (x : ConnectionError) (close : Bool)
      → p.closed ≡ false
      → p.outgoing ≡ true
      → (ctx_of e).cid ≡ some c
      → report env e c ≡ ready (x, close)
      → env.on_send p.sent (prep_error env c x) ≡ none
      → (q : Peer) × (handle_request_error env p e ≡ done q)
        × (q.sent ≡ prep_error env c x ∷ p.sent)
        × ((q.closed ≡ true) ↔ IsFatal e)
  unfolding handle_request_error
  handle_request_error-cid p e c x close o out h r takes =
      let told = send_err_lem (shine p (PeerEvent.error e)) c x close o out takes in
      let fatal = report-IsFatal e c x close r in
      (
        send_err env (shine p (PeerEvent.error e)) c x close,
        ground (arith, h, r),
        told.0,
        ((λ k. fatal.0 (cc told.1)), (λ k. told.1 ∙ fatal.1 k)),
      )

  -- An error of the codec that comes to an open peer does not close the connection and tells the
  -- remote nothing: it becomes an event, and the peer stays open.
  pub handle_incoming-err :
      (p : Peer) (source : WireErr)
      → p.closed ≡ false
      → (q : Peer) × (handle_incoming env p (err source) ≡ done q)
        × (q.closed ≡ false)
        × (q.sent ≡ p.sent)
        × (q.events
            ≡ PeerEvent.error (
                PeerErr.wire_format
                  (ctx p none none "Deserialize Incoming message or IO error.")
                  source)
              ∷ p.events)
  unfolding handle_incoming
  handle_incoming-err p source o =
      let e =
        PeerErr.wire_format (ctx p none none "Deserialize Incoming message or IO error.") source in
      (
        shine p (PeerEvent.error e),
        ground (arith, o, handle_request_error-no_cid p e refl),
        o,
        refl,
        refl,
      )

  -- The frame that reports an error, where its serialized form is read back and the connection id
  -- and the size fit a u64, ends a call at an open peer where one waits under that connection id:
  -- the error is sent on the call's channel, the call waits no longer, and no observer is told.
  pub prep_error-handle_incoming :
      (p : Peer) (c : ConnId) (x : ConnectionError) (channel : ℕ)
      → env.from_cbor (env.to_cbor x) ≡ some x
      → c < u64_mod
      → len_header + length (env.to_cbor x) < u64_mod
      → p.closed ≡ false
      → lookup c p.responses ≡ some channel
      → (q : Peer) × (handle_incoming env p (ok (prep_error env c x)) ≡ done q)
        × (q.replies ≡ (channel, err x) ∷ p.replies)
        × (lookup c q.responses ≡ none)
        × (q.events ≡ p.events)
  unfolding handle_incoming on_frame remote_conn_err resolve
  prep_error-handle_incoming p c x channel law h fits o waits =
      let made = prep_error_lem c x h fits in
      (
        record p { responses = remove c p.responses; replies = (channel, err x) ∷ p.replies },
        ground (arith, made, law, waits, o),
        refl,
        lookup-remove_self c p.responses,
        refl,
      )
