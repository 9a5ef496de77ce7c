-- ===== src/Peer/Requests.antt =====
-- peer/close_connection.rs, peer/request_error.rs, and `send_err` of peer.rs.
use thespis_impl_remote.Common.{
  Bool, true, false, [], ◌∷◌, none, some, Poll, pending, ready, panicked, if◌then◌else◌,
}
use thespis_impl_remote.Wire.ServiceId
use thespis_impl_remote.Wire.ConnId.{ConnId}
use thespis_impl_remote.Frame.ByteOrder.{ByteOrder}
use thespis_impl_remote.Frame.ThesWf.{ThesWf, set_sid, set_cid, with_capacity, write}
use thespis_impl_remote.Peer.Errors.{
  ConnectionError, PeerErr, ctx_of, PeerEvent, closed, closed_by_remote,
}
use thespis_impl_remote.Peer.Display.{remote_err}
use thespis_impl_remote.Peer.State.{Peer, Env, Handled, done, panics, ctx, shine}

module _ ⦃bo : ByteOrder⦄ (env : Env) where
  -- `Peer::prep_error`
  unfoldable pub prep_error : ConnId → ConnectionError → ThesWf
  prep_error cid e = write (set_cid (set_sid (with_capacity 0) ServiceId.null) cid) (env.to_cbor e)

  -- The sink is closed and dropped.
  unfoldable pub close_sink : Peer → Peer
  close_sink p =
      if p.outgoing
      then record (elim (env.on_close p.sent) [
        | none ↦ p
        | some source ↦ shine p (
            PeerEvent.error (PeerErr.wire_format (ctx p none none "Closing the connection") source))
      ]) { outgoing = false }
      else p

  -- `Handler<CloseConnection>`. It waits for the nursery for a grace period, if one is set; the
  -- reason only goes to the log.
  unfoldable pub handle_close_connection : Peer → Bool → Peer
  unfolding close_sink
  handle_close_connection p remote =
      let marked : Peer = record p { closed = true } in
      let told : Peer = shine marked (if remote then closed_by_remote else closed) in
      record (close_sink told) {
        nursery_open = false;
        addr = false;
        nursery_stream = false;
        services = [];
        responses = [];
      }

  -- A failure to send an error is ignored.
  unfoldable pub try_send : Peer → ThesWf → Peer
  try_send p msg = elim (env.on_send p.sent msg) [
    | none ↦ record p { sent = msg ∷ p.sent }
    | some _ ↦ p
  ]

  unfoldable pub send_err : Peer → ConnId → ConnectionError → Bool → Peer
  send_err p cid e close =
      if p.outgoing
      then (let p' = try_send p (prep_error cid e) in
          if close then handle_close_connection p' false else p')
      else p

  -- What the remote is told of an error with a connection id, and whether the connection is closed
  -- upon it; `panicked` where the handler has no arm for the error.
  unfoldable pub report : PeerErr → ConnId → Poll (ConnectionError × Bool)
  unfolding remote_err
  report (PeerErr.wire_format c source) cid =
      elim (remote_err env.printer (PeerErr.wire_format c source)) [
        | ready text ↦ ready (ConnectionError.deserialize_wire_format text, true)
        | pending ↦ pending
        | panicked ↦ panicked
      ]
  report (PeerErr.deserialize c) cid = ready (ConnectionError.deserialize c.sid (some cid), false)
  report (PeerErr.spawn c) cid =
      ready (ConnectionError.internal_server_error c.sid (some cid), true)
  report (PeerErr.relay_gone c relay_id relay_name) cid =
      ready (ConnectionError.internal_server_error c.sid (some cid), false)
  report (PeerErr.no_handler c) cid =
      ready (ConnectionError.internal_server_error c.sid (some cid), false)
  report (PeerErr.handler_dead c) cid =
      ready (ConnectionError.internal_server_error c.sid (some cid), false)
  report (PeerErr.serialize c) cid =
      ready (ConnectionError.internal_server_error c.sid (some cid), false)
  report (PeerErr.unknown_service c) cid =
      ready (ConnectionError.unknown_service c.sid (some cid), false)
  report (PeerErr.pub_sub_no_call c) cid =
      ready (ConnectionError.pub_sub_no_call c.sid (some cid), false)
  report (PeerErr.connection_closed c) cid = panicked
  report (PeerErr.peer_gone c) cid = panicked
  report (PeerErr.remote c e) cid = panicked
  report (PeerErr.thes_err c source) cid = panicked
  report (PeerErr.timeout c) cid = panicked

  -- `Handler<RequestError>`
  unfoldable pub handle_request_error : Peer → PeerErr → Handled Peer
  handle_request_error p error =
      let told : Peer = shine p (PeerEvent.error error) in
      elim (ctx_of error).cid [
        | none ↦ done told
        | some cid ↦ elim (report error cid) [
          | ready (e, close) ↦ done (send_err told cid e close)
          | pending ↦ panics
          | panicked ↦ panics
        ]
      ]
