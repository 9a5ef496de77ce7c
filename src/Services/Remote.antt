-- ===== src/Services/Remote.antt =====
-- service_map_macro.rs, `RemoteAddr`: a service of another process, used like a local actor. A
-- message is the bytes that it serializes to, or `none` if it does not.
use thespis_impl_remote.Common.{
  ℕ, String, Bool, List, Option, none, some, Result, ok, err, ◌>>=◌, map_err, Poll, ready, poll_map,
  if◌then◌else◌,
}
use thespis_impl_remote.Wire.ServiceId.{ServiceId}
use thespis_impl_remote.Wire.ConnId
use thespis_impl_remote.Wire.ConnId.{ConnId}
use thespis_impl_remote.Frame.ByteOrder.{ByteOrder}
use thespis_impl_remote.Frame.ThesWf.{ThesWf, cid, msg, set_sid, set_cid, with_capacity, write}
use thespis_impl_remote.Peer.Errors.{ConnectionError, PeerErr, PeerErrCtx, no_ctx}
use thespis_impl_remote.Services.Address.{
  Relay, CallAnswer, mailbox_closed, send_failed, canceled, received,
}

-- The error of a message that does not serialize.
abbrev pub outgoing_request : ServiceId → PeerErr
outgoing_request sid =
    PeerErr.serialize (record no_ctx { context = some "Outgoing request"; sid = some sid })

-- It holds the address of a peer, whose mailbox answers for it.
pub record RemoteAddr : Type 0 where
  pub peer : Relay

abbrev pub new : Relay → RemoteAddr
new peer = record { peer = peer }

-- `Identify`
abbrev pub id : RemoteAddr → ℕ
id a = a.peer.id

abbrev pub name : RemoteAddr → Option String
name a = a.peer.name

-- `Peer::err_ctx`
abbrev pub err_ctx : Relay → Option ServiceId → Option ConnId → String → PeerErrCtx
err_ctx peer sid cid context = record {
  context = some context;
  peer_id = some peer.id;
  peer_name = peer.name;
  sid = sid;
  cid = cid;
}

module _ ⦃bo : ByteOrder⦄ where
  unfoldable pub build_wf : ServiceId → Option (List ℕ) → ConnId → Result ThesWf PeerErr
  build_wf sid none cid = err (outgoing_request sid)
  build_wf sid (some bytes) cid = ok (write (set_cid (set_sid (with_capacity 0) sid) cid) bytes)

  unfoldable pub build_call : ServiceId → Option (List ℕ) → Result ThesWf PeerErr
  build_call sid none = err (outgoing_request sid)
  build_call sid (some bytes) = ok (write (set_sid (with_capacity 0) sid) bytes)

  -- What `Address::call` makes of what came of the call: the bytes of the value returned.
  unfoldable pub on_answer :
      RemoteAddr → (List ℕ → Bool) → ServiceId → CallAnswer → Result (List ℕ) PeerErr
  on_answer a deserializes sid mailbox_closed =
      err (PeerErr.peer_gone (err_ctx a.peer (some sid) none "Call remote service"))
  on_answer a deserializes sid (send_failed e) =
      err (PeerErr.connection_closed (err_ctx a.peer (some sid) none "Call remote service"))
  on_answer a deserializes sid canceled = err (
      PeerErr.connection_closed
        (err_ctx a.peer (some sid) none "Peer stopped before receiving response from remote call"))
  on_answer a deserializes sid (received (ok resp)) =
      if deserializes (msg resp)
      then ok (msg resp)
      else err (
          PeerErr.deserialize
            (err_ctx a.peer (some sid) (some (cid resp)) "Response to call from remote actor"))
  on_answer a deserializes sid (received (err (ConnectionError.timeout s))) = err (
      PeerErr.timeout
        (err_ctx a.peer (some sid) none "Time out waiting for response to outgoing call"))
  on_answer a deserializes sid (received (err e)) =
      err (PeerErr.remote (err_ctx a.peer (some sid) none "Remote could not process our message") e)

  -- `Address::call`
  unfoldable pub call :
      RemoteAddr → (List ℕ → Bool) → ServiceId → Option (List ℕ) → Result (List ℕ) PeerErr
  unfolding build_call on_answer
  call a deserializes sid message =
      build_call sid message >>= λ wf. on_answer a deserializes sid (a.peer.answer wf)

  -- An error of the peer's mailbox, with what is known of the peer and the service.
  abbrev send_error : RemoteAddr → ServiceId → String → PeerErr
  send_error a sid source =
      PeerErr.thes_err (err_ctx a.peer (some sid) none "Send on RemoteAddr") source

  -- `Sink::start_send`: the frame that is handed to the peer; its mailbox may refuse it.
  unfoldable pub start_send :
      RemoteAddr → String → ServiceId → Option (List ℕ) → Result ThesWf PeerErr
  unfolding build_wf
  start_send a source sid message = build_wf sid message ConnId.null >>= λ wf.
      if a.peer.accepts wf then ok wf else err (send_error a sid source)

  -- `Sink::poll_ready`, of the answer of the peer's mailbox.
  unfoldable pub poll_ready :
      RemoteAddr → ServiceId → Poll (Result (Unit {0}) String) → Poll (Result (Unit {0}) PeerErr)
  poll_ready a sid answer = poll_map (map_err (send_error a sid)) answer

  -- `Sink::poll_flush`, likewise.
  unfoldable pub poll_flush :
      RemoteAddr → ServiceId → Poll (Result (Unit {0}) String) → Poll (Result (Unit {0}) PeerErr)
  poll_flush a sid answer = poll_map (map_err (send_error a sid)) answer

  -- `Sink::poll_close`: ready at once, whatever the peer does.
  abbrev pub poll_close : RemoteAddr → Poll (Result (Unit {0}) PeerErr)
  poll_close a = ready (ok tt)
