-- ===== src/Services/Relay.antt =====
-- relay_map.rs: services that are provided by other processes. A future is the task that it is
-- once spawned.
use thespis_impl_remote.Common.{List, [], ◌∷◌, Result, ok, err, if◌then◌else◌}
use thespis_impl_remote.Wire.ServiceId.{ServiceId}
use thespis_impl_remote.Frame.ByteOrder.{ByteOrder}
use thespis_impl_remote.Frame.ThesWf.{ThesWf, as_buf, sid, cid, set_cid}
use thespis_impl_remote.Peer.Errors.{PeerErr, PeerErrCtx, with_context, Response, nothing}
use thespis_impl_remote.Peer.State.{Env, Task, ServiceMap}
use thespis_impl_remote.Peer.Requests.{prep_error}
use thespis_impl_remote.Services.Address.{
  Relay, CallAnswer, mailbox_closed, send_failed, canceled, received, ServiceHandler, address,
  closure,
}

pub record RelayMap : Type 0 where
  pub handler : ServiceHandler
  pub services : List ServiceId

abbrev pub new : ServiceHandler → List ServiceId → RelayMap
new handler services = record { handler = handler; services = services }

-- The relay for a service.
abbrev pub relay_for : ServiceHandler → ServiceId → Relay
relay_for (address a) sid = a
relay_for (closure c) sid = c sid

-- The task that sends a frame to a relay.
unfoldable pub send_task : Relay → ThesWf → PeerErrCtx → Task
send_task a msg ctx =
    if a.accepts msg
    then record {
      deliveries = record { actor = a.id; payload = as_buf msg } ∷ [];
      output = ok nothing;
    }
    else record { deliveries = []; output = err (PeerErr.handler_dead ctx) }

module _ ⦃bo : ByteOrder⦄ (env : Env) where
  unfoldable pub send_service : RelayMap → ThesWf → PeerErrCtx → Result Task PeerErr
  unfolding send_task
  send_service m msg ctx = ok (send_task (relay_for m.handler (sid msg)) msg ctx)

  -- What `make_call` makes of the answer to its call.
  unfoldable pub on_answer : Relay → ThesWf → PeerErrCtx → CallAnswer → Result Response PeerErr
  on_answer relay frame ctx mailbox_closed = err (PeerErr.relay_gone ctx relay.id relay.name)
  on_answer relay frame ctx (send_failed e) = err (PeerErr.relay_gone ctx relay.id relay.name)
  on_answer relay frame ctx canceled = err (PeerErr.relay_gone ctx relay.id relay.name)
  on_answer relay frame ctx (received (ok resp)) =
      ok (Response.call_response (set_cid resp (cid frame)))
  on_answer relay frame ctx (received (err e)) =
      ok (Response.wire_format (prep_error env (cid frame) e))

  unfoldable pub make_call : Relay → ThesWf → PeerErrCtx → Task
  unfolding on_answer
  make_call relay frame ctx = record {
    deliveries = elim (relay.answer frame) [
      | mailbox_closed ↦ []
      | _ ↦ record { actor = relay.id; payload = as_buf frame } ∷ []
    ];
    output =
        on_answer relay frame (with_context ctx "Process incoming Call to relay")
          (relay.answer frame);
  }

  unfoldable pub call_service : RelayMap → ThesWf → PeerErrCtx → Result Task PeerErr
  unfolding make_call
  call_service m frame ctx = ok (make_call (relay_for m.handler (sid frame)) frame ctx)

  -- `impl ServiceMap for RelayMap`
  abbrev pub relay_map : RelayMap → ServiceMap
  relay_map m = record {
    services = m.services;
    send_service = send_service m;
    call_service = call_service m;
  }
