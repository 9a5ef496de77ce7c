-- ===== src/Peer/Untouched.antt =====
-- Which handlers leave the count of free slots alone.
use thespis_impl_remote.Common.{
  ◌≡◌, refl, inl, inr, ◌⊎◌, Bool, true, false, none, some, arith, Result, ok, err, lookup, not,
  ◌&&◌, Option-cases, Bool-cases, Poll, pending, ready, panicked,
}
use thespis_impl_remote.Wire.ServiceId.{ServiceId}
use thespis_impl_remote.Wire.ConnId.{ConnId}
use thespis_impl_remote.Wire.WireErr.{WireErr}
use thespis_impl_remote.Wire.WireType.{
  WireType, connection_error, incoming_send, incoming_call, call_response,
}
use thespis_impl_remote.Frame.ByteOrder.{ByteOrder}
use thespis_impl_remote.Frame.ThesWf.{ThesWf, sid, cid, kind}
use thespis_impl_remote.Peer.Errors.{ConnectionError, PeerErr, PeerErrCtx, PeerEvent, ctx_of}
use thespis_impl_remote.Peer.State.{Peer, ServiceMap, Env, Task, Reply, ctx, shine, done}
use thespis_impl_remote.Peer.Outgoing.{
  Called, send_msg, next_conn_id, await_response, handle_call, resolve,
}
use thespis_impl_remote.Peer.Requests.{
  try_send, send_err, report, handle_request_error, handle_close_connection,
}
use thespis_impl_remote.Peer.Incoming.{
  remote_conn_err, nurse, send_refused, on_incoming_send, on_incoming_call, on_frame,
  handle_incoming, take_slot,
}

-- The slots of both states are the same.
abbrev pub Same : Peer → Peer → Type 0
Same p q = q.backpressure ≡ p.backpressure

-- Whether a message from the stream takes a slot: a call does, while the peer is open.
unfoldable pub takes_slot : ⦃bo : ByteOrder⦄ → Peer → Result ThesWf WireErr → Bool
takes_slot p (err source) = false
takes_slot p (ok frame) = not p.closed && (elim (kind frame) [ incoming_call ↦ true | _ ↦ false ])

-- No call was made either: the counter of connection ids and the calls made are the same.
abbrev pub Calm : Peer → Peer → Type 0
Calm p q = Same p q × (q.conn_id_counter ≡ p.conn_id_counter) × (q.timers ≡ p.timers)

module _ ⦃bo : ByteOrder⦄ (env : Env) where
  send_err-Calm :
      (p : Peer) (c : ConnId) (x : ConnectionError) (close : Bool)
      → Calm p (send_err env p c x close)
  unfolding send_err try_send handle_close_connection
  send_err-Calm p c x close = ground arith

  pub handle_request_error-Calm :
      (p : Peer) (e : PeerErr) (q : Peer) → handle_request_error env p e ≡ done q → Calm p q
  unfolding handle_request_error
  handle_request_error-Calm p e q h = elim (Option-cases (ctx_of e).cid) [
    | inl absent ↦ ground (arith, absent, h)
    | inr (c, there) ↦ go c there (report env e c) refl
  ]
    where
      go :
          (c : ConnId)
          → (ctx_of e).cid ≡ some c
          → (r : Poll (ConnectionError × Bool)) → report env e c ≡ r
          → Calm p q
      go c there (ready (x, close)) k =
          ground (arith, there, k, h, send_err-Calm (shine p (PeerEvent.error e)) c x close)
      go c there pending k = absurd (ground (arith, there, k, h))
      go c there panicked k = absurd (ground (arith, there, k, h))

  nurse-Calm : (p : Peer) (t : Task) (e : PeerErr) (q : Peer) → nurse env p t e ≡ done q → Calm p q
  unfolding nurse
  nurse-Calm p t e q h = elim (Bool-cases (env.can_nurse p.nursery_open p.tasks)) [
    | inl taken ↦ ground (arith, taken, h)
    | inr refused ↦ handle_request_error-Calm p e q (ground (arith, refused))
  ]

  send_refused-Calm :
      (p : Peer) (c : PeerErrCtx) (e : PeerErr) (q : Peer)
      → send_refused env p c e ≡ done q
      → Calm p q
  unfolding send_refused
  send_refused-Calm p c (PeerErr.no_handler _) q h =
      handle_request_error-Calm p (PeerErr.no_handler c) q h
  send_refused-Calm p c (PeerErr.deserialize _) q h =
      handle_request_error-Calm p (PeerErr.deserialize c) q h
  send_refused-Calm p c _ q h = absurd (ground arith)

  on_incoming_send-Calm :
      (p : Peer) (sid : ServiceId) (frame : ThesWf) (q : Peer)
      → on_incoming_send env p sid frame ≡ done q
      → Calm p q
  unfolding on_incoming_send
  on_incoming_send-Calm p sid frame q h = elim (Option-cases (lookup sid p.services)) [
    | inl absent ↦
        handle_request_error-Calm p (PeerErr.unknown_service c) q (ground (arith, absent))
    | inr (sm, present) ↦ go sm present (sm.send_service frame c) refl
  ]
    where
      c : PeerErrCtx
      c = ctx p (some sid) none "Peer: Handle incoming send"

      sent : PeerErrCtx
      sent = ctx p (some sid) none "sm.send_service"

      go :
          (sm : ServiceMap)
          → lookup sid p.services ≡ some sm
          → (r : Result Task PeerErr) → sm.send_service frame c ≡ r
          → Calm p q
      go sm present (ok task) r =
          nurse-Calm p task (PeerErr.spawn sent) q (ground (arith, present, r))
      go sm present (err e) r = send_refused-Calm p sent e q (ground (arith, present, r))

  -- A call takes one slot, whatever comes of it.
  on_incoming_call-slots :
      (p : Peer) (cid : ConnId) (sid : ServiceId) (frame : ThesWf) (q : Peer)
      → p.closed ≡ false
      → on_incoming_call env p cid sid frame ≡ done q
      → Calm (take_slot env p) q
  unfolding on_incoming_call
  on_incoming_call-slots p cid sid frame q o h = elim (Option-cases (lookup sid p.services)) [
    | inl absent ↦
        handle_request_error-Calm p' (PeerErr.unknown_service c) q (ground (arith, o, absent))
    | inr (sm, present) ↦ go sm present (sm.call_service frame c) refl
  ]
    where
      p' : Peer
      p' = take_slot env p

      c : PeerErrCtx
      c = ctx p (some sid) (some cid) "Peer: Handle incoming call"

      go :
          (sm : ServiceMap)
          → lookup sid p.services ≡ some sm
          → (r : Result Task PeerErr) → sm.call_service frame c ≡ r
          → Calm p' q
      go sm present (ok task) r =
          nurse-Calm p' task (PeerErr.spawn c) q (ground (arith, o, present, r))
      go sm present (err e) r = handle_request_error-Calm p' e q (ground (arith, o, present, r))

  pub resolve-Calm : (p : Peer) (cid : ConnId) (r : Reply) → Calm p (resolve env p cid r)
  unfolding resolve
  resolve-Calm p cid r = ground arith

  remote_conn_err-Calm :
      (p : Peer) (wf : ThesWf) (cid : ConnId) → Calm p (remote_conn_err env p wf cid)
  unfolding remote_conn_err resolve
  remote_conn_err-Calm p wf cid = ground arith

  pub send_msg-Calm : (p : Peer) (wf : ThesWf) → Calm p (send_msg env p wf).0
  unfolding send_msg
  send_msg-Calm p wf = ground arith

  pub close-Calm : (p : Peer) (remote : Bool) → Calm p (handle_close_connection env p remote)
  unfolding handle_close_connection
  close-Calm p remote = ground arith

  pub handle_call-Same :
      (p : Peer) (wf : ThesWf) (q : Peer) (r : Called)
      → handle_call env p wf ≡ done (q, r)
      → Same p q
  unfolding handle_call next_conn_id send_msg await_response
  handle_call-Same p wf q r h = ground (arith, h)

  pub handle_incoming-slots :
      (p : Peer) (item : Result ThesWf WireErr) (q : Peer)
      → handle_incoming env p item ≡ done q
      → ((takes_slot p item ≡ false) × Calm p q)
        ⊎ ((takes_slot p item ≡ true) × Calm (take_slot env p) q)
  unfolding handle_incoming on_frame takes_slot
  handle_incoming-slots p (err source) q h = elim (Bool-cases p.closed) [
    | inl shut ↦ inl (refl, ground (arith, shut, h))
    | inr open_ ↦ inl (
      refl,
      handle_request_error-Calm p
          (PeerErr.wire_format (ctx p none none "Deserialize Incoming message or IO error.") source)
          q (ground (arith, open_)),
    )
  ]
  handle_incoming-slots p (ok frame) q h = elim (Bool-cases p.closed) [
    | inl shut ↦ inl (ground (arith, shut), ground (arith, shut, h))
    | inr open_ ↦ go open_ (kind frame) refl
  ]
    where
      go :
          p.closed ≡ false
          → (k : WireType) → kind frame ≡ k
          → ((takes_slot p (ok frame) ≡ false) × Calm p q)
            ⊎ ((takes_slot p (ok frame) ≡ true) × Calm (take_slot env p) q)
      go open_ connection_error e = inl (
        ground (arith, e, open_),
        ground (arith, open_, e, h, remote_conn_err-Calm p frame (cid frame)),
      )
      go open_ incoming_send e = inl (
        ground (arith, e, open_),
        on_incoming_send-Calm p (sid frame) frame q (ground (arith, open_, e, h)),
      )
      go open_ incoming_call e = inr (
        ground (arith, e, open_),
        on_incoming_call-slots p (cid frame) (sid frame) frame q open_
            (ground (arith, open_, e, h)),
      )
      go open_ call_response e = inl (
        ground (arith, e, open_),
        ground (arith, open_, e, h, resolve-Calm p (cid frame) (ok frame)),
      )
