-- ===== src/Peer/Arrivals.antt =====
-- The handlers of peer/incoming.rs as sequences of moves.
use thespis_impl_remote.Common.{
  ◌≡◌, refl, inl, inr, false, none, some, arith, Result, ok, err, lookup, Option-cases, Bool-cases,
}
use thespis_impl_remote.Wire.ServiceId.{ServiceId}
use thespis_impl_remote.Wire.ConnId.{ConnId}
use thespis_impl_remote.Wire.WireErr.{WireErr}
use thespis_impl_remote.Frame.ByteOrder.{ByteOrder}
use thespis_impl_remote.Wire.WireType.{
  WireType, connection_error, incoming_send, incoming_call, call_response,
}
use thespis_impl_remote.Frame.ThesWf.{ThesWf, sid, cid, msg, kind}
use thespis_impl_remote.Peer.Errors.{PeerErr, PeerErrCtx, PeerEvent, Response}
use thespis_impl_remote.Peer.BackPressure.{remove_slots}
use thespis_impl_remote.Peer.State.{Peer, ServiceMap, Env, Task, ctx, done}
use thespis_impl_remote.Peer.Outgoing.{handle_wire_format}
use thespis_impl_remote.Peer.Incoming.{
  remote_conn_err, nurse, send_refused, on_incoming_send, on_incoming_call, on_frame,
  handle_incoming, on_task_output, take_slot,
}
use thespis_impl_remote.Peer.Moves.{
  event_told, task_nursed, slots_set, caller_answered, Moves, stays, one-Move, chain,
}
use thespis_impl_remote.Peer.Handlers.{
  send_msg-Moves, handle_call_response-Moves, handle_request_error-Moves,
}

module _ ⦃bo : ByteOrder⦄ (env : Env) where
  nurse-Moves :
      (p : Peer) (t : Task) (e : PeerErr) (q : Peer)
      → nurse env p t e ≡ done q
      → Moves env false p q
  unfolding nurse
  nurse-Moves p t e q h = elim (Bool-cases (env.can_nurse p.nursery_open p.tasks)) [
    | inl taken ↦ one-Move env (task_nursed t (ground (arith, taken)))
    | inr refused ↦ handle_request_error-Moves env p e q (ground (arith, refused))
  ]

  send_refused-Moves :
      (p : Peer) (c : PeerErrCtx) (e : PeerErr) (q : Peer)
      → send_refused env p c e ≡ done q
      → Moves env false p q
  unfolding send_refused
  send_refused-Moves p c (PeerErr.no_handler _) q h =
      handle_request_error-Moves env p (PeerErr.no_handler c) q h
  send_refused-Moves p c (PeerErr.deserialize _) q h =
      handle_request_error-Moves env p (PeerErr.deserialize c) q h
  send_refused-Moves p c _ q h = absurd (ground arith)

  on_incoming_send-Moves :
      (p : Peer) (sid : ServiceId) (frame : ThesWf) (q : Peer)
      → on_incoming_send env p sid frame ≡ done q
      → Moves env false p q
  unfolding on_incoming_send
  on_incoming_send-Moves p sid frame q h = elim (Option-cases (lookup sid p.services)) [
    | inl absent ↦
        handle_request_error-Moves env p (PeerErr.unknown_service c) q (ground (arith, absent))
    | inr (sm, present) ↦ go sm present (sm.send_service frame c) refl
  ]
    where
      c : PeerErrCtx
      c = ctx p (some sid) none "Peer: Handle incoming send"

      sent : PeerErrCtx
      sent = ctx p (some sid) none "sm.send_service"

      go :
          (sm : ServiceMap)
          → lookup sid p.services ≡ some sm
          → (r : Result Task PeerErr) → sm.send_service frame c ≡ r
          → Moves env false p q
      go sm present (ok task) r =
          nurse-Moves p task (PeerErr.spawn sent) q (ground (arith, present, r))
      go sm present (err e) r = send_refused-Moves p sent e q (ground (arith, present, r))

  slot-Moves : (p : Peer) → Moves env false p (take_slot env p)
  slot-Moves p = elim (Option-cases p.backpressure) [
    | inl free ↦ stays (ground (arith, free))
    | inr (bp, bounded) ↦
        one-Move env (slots_set (some (remove_slots bp 1)) (ground (arith, bounded)))
  ]

  on_incoming_call-Moves :
      (p : Peer) (cid : ConnId) (sid : ServiceId) (frame : ThesWf) (q : Peer)
      → p.closed ≡ false
      → on_incoming_call env p cid sid frame ≡ done q
      → Moves env false p q
  unfolding on_incoming_call
  on_incoming_call-Moves p cid sid frame q o h =
      chain env (slot-Moves p) (elim (Option-cases (lookup sid p.services)) [
        | inl absent ↦
            handle_request_error-Moves env p' (PeerErr.unknown_service c) q
              (ground (arith, o, absent))
        | inr (sm, present) ↦ go sm present (sm.call_service frame c) refl
      ])
    where
      p' : Peer
      p' = take_slot env p

      c : PeerErrCtx
      c = ctx p (some sid) (some cid) "Peer: Handle incoming call"

      go :
          (sm : ServiceMap)
          → lookup sid p.services ≡ some sm
          → (r : Result Task PeerErr) → sm.call_service frame c ≡ r
          → Moves env false p' q
      go sm present (ok task) r =
          nurse-Moves p' task (PeerErr.spawn c) q (ground (arith, o, present, r))
      go sm present (err e) r =
          handle_request_error-Moves env p' e q (ground (arith, o, present, r))

  remote_conn_err-Moves :
      (p : Peer) (wf : ThesWf) (cid : ConnId) → Moves env false p (remote_conn_err env p wf cid)
  unfolding remote_conn_err
  remote_conn_err-Moves p wf cid = elim (Option-cases (env.from_cbor (msg wf))) [
    | inl garbled ↦ one-Move env (
        event_told
          (PeerEvent.error (
            PeerErr.deserialize (
              ctx p none (some cid)
                "We received an error message from a remote peer, but couldn't deserialize it")))
          (ground (arith, garbled)))
    | inr (e, read) ↦ elim (Option-cases (lookup cid p.responses)) [
      | inl absent ↦
          one-Move env (event_told (PeerEvent.remote_error e) (ground (arith, read, absent)))
      | inr (channel, waits) ↦
          one-Move env (caller_answered cid (err e) tt (ground (arith, read, waits)))
    ]
  ]

  on_frame-Moves :
      (p : Peer) (frame : ThesWf) (q : Peer)
      → p.closed ≡ false
      → on_frame env p frame ≡ done q
      → Moves env false p q
  unfolding on_frame
  on_frame-Moves p frame q o h = go (kind frame) refl
    where
      go : (k : WireType) → kind frame ≡ k → Moves env false p q
      go connection_error e =
          chain env (remote_conn_err-Moves p frame (cid frame)) (stays (ground (arith, e)))
      go incoming_send e = on_incoming_send-Moves p (sid frame) frame q (ground (arith, e))
      go incoming_call e =
          on_incoming_call-Moves p (cid frame) (sid frame) frame q o (ground (arith, e))
      go call_response e =
          one-Move env (caller_answered (cid frame) (ok frame) refl (ground (arith, e)))

  pub handle_incoming-Moves :
      (p : Peer) (msg : Result ThesWf WireErr) (q : Peer)
      → handle_incoming env p msg ≡ done q
      → Moves env false p q
  unfolding handle_incoming
  handle_incoming-Moves p (ok frame) q h = elim (Bool-cases p.closed) [
    | inl shut ↦ stays (ground (arith, shut))
    | inr open_ ↦ on_frame-Moves p frame q open_ (ground (arith, open_))
  ]
  handle_incoming-Moves p (err source) q h = elim (Bool-cases p.closed) [
    | inl shut ↦ stays (ground (arith, shut))
    | inr open_ ↦
        handle_request_error-Moves env p
          (PeerErr.wire_format (ctx p none none "Deserialize Incoming message or IO error.") source)
          q (ground (arith, open_))
  ]

  pub on_task_output-Moves :
      (p : Peer) (out : Result Response PeerErr) (q : Peer)
      → on_task_output env p out ≡ done q
      → Moves env false p q
  unfolding on_task_output handle_wire_format
  on_task_output-Moves p (ok Response.nothing) q h = stays (ground arith)
  on_task_output-Moves p (ok (Response.wire_format x)) q h =
      chain env (send_msg-Moves env p x) (stays (ground arith))
  on_task_output-Moves p (ok (Response.call_response x)) q h =
      chain env (handle_call_response-Moves env p x) (stays (ground arith))
  on_task_output-Moves p (err e) q h = handle_request_error-Moves env p e q h
