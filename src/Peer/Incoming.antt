-- ===== src/Peer/Incoming.antt =====
-- peer/incoming.rs: what the remote sends; and `register_services`, `listen_incoming` and
-- `listen_request_results` of peer.rs.
use thespis_impl_remote.Common.{
  true, List, [], ◌∷◌, Option, none, some, Result, ok, err, lookup, insert, if◌then◌else◌,
}
use thespis_impl_remote.Wire.ServiceId.{ServiceId}
use thespis_impl_remote.Wire.ConnId.{ConnId}
use thespis_impl_remote.Wire.WireErr.{WireErr}
use thespis_impl_remote.Wire.WireType.{
  connection_error, incoming_send, incoming_call, call_response,
}
use thespis_impl_remote.Frame.ByteOrder.{ByteOrder}
use thespis_impl_remote.Frame.ThesWf.{ThesWf, sid, cid, msg, kind}
use thespis_impl_remote.Peer.Errors.{PeerErr, PeerErrCtx, PeerEvent, Response}
use thespis_impl_remote.Peer.BackPressure.{remove_slots}
use thespis_impl_remote.Peer.State.{Peer, ServiceMap, Env, Task, Handled, done, panics, ctx, shine}
use thespis_impl_remote.Peer.Outgoing.{resolve, handle_wire_format, handle_call_response}
use thespis_impl_remote.Peer.Requests.{handle_request_error, handle_close_connection}

-- Each service of the map gets it as its handler.
unfoldable pub register_each : Peer → ServiceMap → List ServiceId → Peer
register_each p sm [] = p
register_each p sm (sid ∷ sids) =
    register_each (record p { services = insert sid sm p.services }) sm sids

-- `Peer::register_services`. Its debug assertion is not modelled.
unfoldable pub register_services : Peer → ServiceMap → Peer
unfolding register_each
register_services p sm = register_each p sm sm.services

module _ ⦃bo : ByteOrder⦄ (env : Env) where
  unfoldable pub remote_conn_err : Peer → ThesWf → ConnId → Peer
  unfolding resolve
  remote_conn_err p wf cid = elim (env.from_cbor (msg wf)) [
    | some e ↦ elim (lookup cid p.responses) [
      | some channel ↦ resolve env p cid (err e)
      | none ↦ shine p (PeerEvent.remote_error e)
    ]
    | none ↦ shine p (
        PeerEvent.error (
          PeerErr.deserialize (
            ctx p none (some cid)
              "We received an error message from a remote peer, but couldn't deserialize it")))
  ]

  -- The task goes to the nursery; `e` is the error if it cannot.
  unfoldable pub nurse : Peer → Task → PeerErr → Handled Peer
  nurse p task e =
      if env.can_nurse p.nursery_open p.tasks
      then done (record p { tasks = task ∷ p.tasks })
      else handle_request_error env p e

  -- The error of a service map's `send_service`, with the context of the peer.
  unfoldable pub send_refused : Peer → PeerErrCtx → PeerErr → Handled Peer
  send_refused p c (PeerErr.no_handler _) = handle_request_error env p (PeerErr.no_handler c)
  send_refused p c (PeerErr.deserialize _) = handle_request_error env p (PeerErr.deserialize c)
  send_refused p c (PeerErr.connection_closed _) = panics
  send_refused p c (PeerErr.handler_dead _) = panics
  send_refused p c (PeerErr.peer_gone _) = panics
  send_refused p c (PeerErr.relay_gone _ _ _) = panics
  send_refused p c (PeerErr.remote _ _) = panics
  send_refused p c (PeerErr.serialize _) = panics
  send_refused p c (PeerErr.spawn _) = panics
  send_refused p c (PeerErr.thes_err _ _) = panics
  send_refused p c (PeerErr.timeout _) = panics
  send_refused p c (PeerErr.unknown_service _) = panics
  send_refused p c (PeerErr.wire_format _ _) = panics
  send_refused p c (PeerErr.pub_sub_no_call _) = panics

  unfoldable pub on_incoming_send : Peer → ServiceId → ThesWf → Handled Peer
  on_incoming_send p sid frame =
      let c = ctx p (some sid) none "Peer: Handle incoming send" in
      let sent = ctx p (some sid) none "sm.send_service" in
      elim (lookup sid p.services) [
        | none ↦ handle_request_error env p (PeerErr.unknown_service c)
        | some sm ↦ elim (sm.send_service frame c) [
          | ok task ↦ nurse p task (PeerErr.spawn sent)
          | err e ↦ send_refused p sent e
        ]
      ]

  -- A slot is taken before anything else.
  abbrev pub take_slot : Peer → Peer
  take_slot p = elim p.backpressure [
    | none ↦ p
    | some bp ↦ record p { backpressure = some (remove_slots bp 1) }
  ]

  unfoldable pub on_incoming_call : Peer → ConnId → ServiceId → ThesWf → Handled Peer
  on_incoming_call p cid sid frame =
      if p.closed
      then done p
      else (let p' : Peer = take_slot p in
          let c = ctx p (some sid) (some cid) "Peer: Handle incoming call" in
          elim (lookup sid p.services) [
            | none ↦ handle_request_error env p' (PeerErr.unknown_service c)
            | some sm ↦ elim (sm.call_service frame c) [
              | ok task ↦ nurse p' task (PeerErr.spawn c)
              | err e ↦ handle_request_error env p' e
            ]
          ])

  -- The arms of the match on the kind of the message.
  unfoldable pub on_frame : Peer → ThesWf → Handled Peer
  on_frame p frame = elim (kind frame) [
    | connection_error ↦ done (remote_conn_err p frame (cid frame))
    | incoming_send ↦ on_incoming_send p (sid frame) frame
    | incoming_call ↦ on_incoming_call p (cid frame) (sid frame) frame
    | call_response ↦ done (resolve env p (cid frame) (ok frame))
  ]

  -- `Handler<Incoming>`
  unfoldable pub handle_incoming : Peer → Result ThesWf WireErr → Handled Peer
  handle_incoming p (ok frame) = if p.closed then done p else on_frame p frame
  handle_incoming p (err source) =
      if p.closed
      then done p
      else handle_request_error env p
          (PeerErr.wire_format (ctx p none none "Deserialize Incoming message or IO error.") source)

  -- `listen_incoming` once the stream has ended, and otherwise for each of its items.
  unfoldable pub on_stream : Peer → Option (Result ThesWf WireErr) → Handled Peer
  on_stream p none = done (handle_close_connection env p true)
  on_stream p (some msg) = handle_incoming p msg

  -- `listen_request_results` for the output of one task.
  unfoldable pub on_task_output : Peer → Result Response PeerErr → Handled Peer
  on_task_output p (ok Response.nothing) = done p
  on_task_output p (ok (Response.wire_format x)) = done (handle_wire_format env p x).0
  on_task_output p (ok (Response.call_response x)) = done (handle_call_response env p x).0
  on_task_output p (err e) = handle_request_error env p e
