-- ===== src/Services/Safety.antt =====
-- No incoming message makes a peer panic whose service maps keep to their contract.
use thespis_impl_remote.Common.{
  ◌≡◌, refl, inl, inr, Bool, false, ◌∷◌, none, some, arith, Result, ok, err, lookup, Option-cases,
  Bool-cases, ready,
}
use thespis_impl_remote.Wire.ServiceId.{ServiceId}
use thespis_impl_remote.Wire.ConnId.{ConnId}
use thespis_impl_remote.Wire.WireErr.{WireErr}
use thespis_impl_remote.Wire.WireType.{
  WireType, connection_error, incoming_send, incoming_call, call_response,
}
use thespis_impl_remote.Frame.ByteOrder.{ByteOrder}
use thespis_impl_remote.Frame.ThesWf.{ThesWf, sid, cid, kind}
use thespis_impl_remote.Peer.Errors.{ConnectionError, PeerErr, PeerErrCtx, PeerEvent, ctx_of}
use thespis_impl_remote.Peer.Display.{remote_err}
use thespis_impl_remote.Peer.State.{Peer, ServiceMap, Env, Task, Handled, done, ctx, shine}
use thespis_impl_remote.Peer.Requests.{report, send_err, handle_request_error}
use thespis_impl_remote.Peer.Incoming.{
  nurse, send_refused, on_incoming_send, on_incoming_call, on_frame, handle_incoming, take_slot,
  remote_conn_err,
}
use thespis_impl_remote.Peer.Outgoing.{resolve}
use thespis_impl_remote.Services.Contract.{IsReportable, IsSendError, IsServiceMap}

abbrev pub Ends : Handled Peer → Type 0
Ends h = (q : Peer) × (h ≡ done q)

module _ ⦃bo : ByteOrder⦄ (env : Env) where
  report-ready :
      (e : PeerErr) (c : ConnId)
      → IsReportable e
      → (r : ConnectionError × Bool) × (report env e c ≡ ready r)
  unfolding report remote_err
  report-ready (PeerErr.wire_format x source) c h = (_, refl)
  report-ready (PeerErr.deserialize x) c h = (_, refl)
  report-ready (PeerErr.spawn x) c h = (_, refl)
  report-ready (PeerErr.relay_gone x id name) c h = (_, refl)
  report-ready (PeerErr.no_handler x) c h = (_, refl)
  report-ready (PeerErr.handler_dead x) c h = (_, refl)
  report-ready (PeerErr.serialize x) c h = (_, refl)
  report-ready (PeerErr.unknown_service x) c h = (_, refl)
  report-ready (PeerErr.pub_sub_no_call x) c h = (_, refl)
  report-ready (PeerErr.connection_closed x) c h = absurd h
  report-ready (PeerErr.peer_gone x) c h = absurd h
  report-ready (PeerErr.remote x e) c h = absurd h
  report-ready (PeerErr.thes_err x source) c h = absurd h
  report-ready (PeerErr.timeout x) c h = absurd h

  handle_request_error-Ends :
      (p : Peer) (e : PeerErr) → IsReportable e → Ends (handle_request_error env p e)
  unfolding handle_request_error
  handle_request_error-Ends p e h = elim (Option-cases (ctx_of e).cid) [
    | inl absent ↦ (shine p (PeerEvent.error e), ground (arith, absent))
    | inr (c, present) ↦
        let r = report-ready e c h in
        (send_err env (shine p (PeerEvent.error e)) c r.0.0 r.0.1, ground (arith, present, r.1))
  ]

  nurse-Ends : (p : Peer) (t : Task) (e : PeerErr) → IsReportable e → Ends (nurse env p t e)
  unfolding nurse
  nurse-Ends p t e h = elim (Bool-cases (env.can_nurse p.nursery_open p.tasks)) [
    | inl taken ↦ (record p { tasks = t ∷ p.tasks }, ground (arith, taken))
    | inr refused ↦
        let ends = handle_request_error-Ends p e h in (ends.0, ground (arith, refused, ends.1))
  ]

  send_refused-Ends :
      (p : Peer) (c : PeerErrCtx) (e : PeerErr) → IsSendError e → Ends (send_refused env p c e)
  unfolding send_refused
  send_refused-Ends p c (PeerErr.no_handler _) h =
      handle_request_error-Ends p (PeerErr.no_handler c) tt
  send_refused-Ends p c (PeerErr.deserialize _) h =
      handle_request_error-Ends p (PeerErr.deserialize c) tt
  send_refused-Ends p c _ h = absurd h

  on_incoming_send-Ends :
      (p : Peer) (s : ServiceId) (frame : ThesWf)
      → ((sm : ServiceMap) → lookup s p.services ≡ some sm → IsServiceMap sm)
      → Ends (on_incoming_send env p s frame)
  unfolding on_incoming_send
  on_incoming_send-Ends p s frame maps = elim (Option-cases (lookup s p.services)) [
    | inl absent ↦
        let ends = handle_request_error-Ends p (PeerErr.unknown_service c) tt in
        (ends.0, ground (arith, absent, ends.1))
    | inr (sm, present) ↦ go sm present (sm.send_service frame c) refl
  ]
    where
      c : PeerErrCtx
      c = ctx p (some s) none "Peer: Handle incoming send"

      sent : PeerErrCtx
      sent = ctx p (some s) none "sm.send_service"

      go :
          (sm : ServiceMap)
          → lookup s p.services ≡ some sm
          → (r : Result Task PeerErr) → sm.send_service frame c ≡ r
          → Ends (on_incoming_send env p s frame)
      go sm present (ok task) r =
          let ends = nurse-Ends p task (PeerErr.spawn sent) tt in
          (ends.0, ground (arith, present, r, ends.1))
      go sm present (err e) r =
          let ends = send_refused-Ends p sent e ((maps sm present).sends frame c e r) in
          (ends.0, ground (arith, present, r, ends.1))

  on_incoming_call-Ends :
      (p : Peer) (c : ConnId) (s : ServiceId) (frame : ThesWf)
      → p.closed ≡ false
      → ((sm : ServiceMap) → lookup s p.services ≡ some sm → IsServiceMap sm)
      → Ends (on_incoming_call env p c s frame)
  unfolding on_incoming_call
  on_incoming_call-Ends p c s frame o maps = elim (Option-cases (lookup s p.services)) [
    | inl absent ↦
        let ends =
          handle_request_error-Ends (take_slot env p) (PeerErr.unknown_service context) tt in
        (ends.0, ground (arith, o, absent, ends.1))
    | inr (sm, present) ↦ go sm present (sm.call_service frame context) refl
  ]
    where
      context : PeerErrCtx
      context = ctx p (some s) (some c) "Peer: Handle incoming call"

      go :
          (sm : ServiceMap)
          → lookup s p.services ≡ some sm
          → (r : Result Task PeerErr) → sm.call_service frame context ≡ r
          → Ends (on_incoming_call env p c s frame)
      go sm present (ok task) r =
          let ends = nurse-Ends (take_slot env p) task (PeerErr.spawn context) tt in
          (ends.0, ground (arith, o, present, r, ends.1))
      go sm present (err e) r =
          let ends =
            handle_request_error-Ends (take_slot env p) e
              ((maps sm present).calls frame context e r) in
          (ends.0, ground (arith, o, present, r, ends.1))

  -- Whatever comes from the stream, a frame of any bytes or an error of the codec, the handler of
  -- incoming messages ends without a panic, if every service map that the peer has registered
  -- keeps to the contract.
  pub handle_incoming-Ends :
      (p : Peer) (msg : Result ThesWf WireErr)
      → ((s : ServiceId) (sm : ServiceMap) → lookup s p.services ≡ some sm → IsServiceMap sm)
      → (q : Peer) × (handle_incoming env p msg ≡ done q)
  unfolding handle_incoming on_frame
  handle_incoming-Ends p (err source) maps = elim (Bool-cases p.closed) [
    | inl shut ↦ (p, ground (arith, shut))
    | inr opened ↦
        let ends =
          handle_request_error-Ends p
            (PeerErr.wire_format (ctx p none none "Deserialize Incoming message or IO error.")
              source)
            tt in
        (ends.0, ground (arith, opened, ends.1))
  ]
  handle_incoming-Ends p (ok frame) maps = elim (Bool-cases p.closed) [
    | inl shut ↦ (p, ground (arith, shut))
    | inr opened ↦ go opened (kind frame) refl
  ]
    where
      go :
          p.closed ≡ false
          → (k : WireType) → kind frame ≡ k
          → (q : Peer) × (handle_incoming env p (ok frame) ≡ done q)
      go o connection_error e = (remote_conn_err env p frame (cid frame), ground (arith, o, e))
      go o call_response e = (resolve env p (cid frame) (ok frame), ground (arith, o, e))
      go o incoming_send e =
          let ends = on_incoming_send-Ends p (sid frame) frame (maps (sid frame)) in
          (ends.0, ground (arith, o, e, ends.1))
      go o incoming_call e =
          let ends = on_incoming_call-Ends p (cid frame) (sid frame) frame o (maps (sid frame)) in
          (ends.0, ground (arith, o, e, ends.1))
