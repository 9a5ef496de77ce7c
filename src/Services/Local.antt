-- ===== src/Services/Local.antt =====
-- service_map_macro.rs, `Services`: services that actors of this process provide. The macro's
-- services are a list of ids; serde's answers on the bytes of a message are parameters.
use Prim.Native.String.{◌++◌ as str_append}
use thespis_impl_remote.Common.{
  ℕ, String, Bool, false, List, [], ◌∷◌, none, some, Map, lookup, insert, Result, ok, err, ◌==◌,
  ◌||◌, if◌then◌else◌,
}
use thespis_impl_remote.Wire.ServiceId
use thespis_impl_remote.Wire.ServiceId.{ServiceId}
use thespis_impl_remote.Frame.ByteOrder.{ByteOrder}
use thespis_impl_remote.Frame.ThesWf.{ThesWf, sid, cid, msg, set_sid, set_cid, with_capacity, write}
use thespis_impl_remote.Peer.Errors.{PeerErr, PeerErrCtx, with_context, Response, nothing}
use thespis_impl_remote.Peer.State.{Delivery, Task, ServiceMap}
use thespis_impl_remote.Services.Address.{LocalAddress, LocalAnswer, dead, answered}

-- The services that the macro was invoked with, and whether bytes deserialize to the message type
-- of one.
pub record Interface : Type 0 where
  pub known : List ServiceId
  pub deserializes : ServiceId → List ℕ → Bool

pub record Services : Type 0 where
  pub handlers : Map LocalAddress

unfoldable pub new : Services
new = record { handlers = [] }

-- A handler that was set before for the service is replaced.
unfoldable pub register_handler : Services → ServiceId → LocalAddress → Services
register_handler s sid handler = record { handlers = insert sid handler s.handlers }

unfoldable pub contains : List ServiceId → ServiceId → Bool
contains [] sid = false
contains (s ∷ known) sid = sid == s || contains known sid

-- A text that is put behind a context, if there is one.
abbrev pub push_context : PeerErrCtx → String → PeerErrCtx
push_context ctx text = record ctx {
  context = elim ctx.context [ none ↦ none | some c ↦ some (str_append c text) ];
}

abbrev pub keys : Map LocalAddress → List ServiceId
keys [] = []
keys ((sid, h) ∷ m) = sid ∷ keys m

-- What an actor is handed by a call: nothing if it is gone.
abbrev pub handed : LocalAddress → List ℕ → List Delivery
handed rec bytes = elim (rec.answer bytes) [
  | dead ↦ []
  | answered _ ↦ record { actor = rec.id; payload = bytes } ∷ []
]

-- What the task of a call makes of the actor's answer.
unfoldable pub respond :
    ⦃bo : ByteOrder⦄ → ThesWf → PeerErrCtx → LocalAnswer → Result Response PeerErr
respond request ctx dead =
    err (PeerErr.handler_dead (push_context ctx " - Process call for local Actor"))
respond request ctx (answered none) =
    err (PeerErr.serialize (push_context ctx " - Response to remote call"))
respond request ctx (answered (some bytes)) = ok (
    Response.call_response
      (write (set_cid (set_sid (with_capacity 0) ServiceId.full) (cid request)) bytes))

module _ ⦃bo : ByteOrder⦄ (i : Interface) where
  unfoldable pub send_service : Services → ThesWf → PeerErrCtx → Result Task PeerErr
  unfolding contains
  send_service s m ctx =
      let ctx' = with_context ctx "Services::send_service" in
      elim (lookup (sid m) s.handlers) [
        | none ↦ err (PeerErr.no_handler ctx')
        | some rec ↦
            if contains i.known (sid m)
            then (if i.deserializes (sid m) (msg m)
                then (if rec.accepts (msg m)
                    then ok (record {
                      deliveries = record { actor = rec.id; payload = msg m } ∷ [];
                      output = ok nothing;
                    })
                    else ok (record { deliveries = []; output = err (PeerErr.handler_dead ctx') }))
                else err (PeerErr.deserialize ctx'))
            else err (PeerErr.no_handler ctx')
      ]

  unfoldable pub call_service_gen : ThesWf → LocalAddress → PeerErrCtx → Result Task PeerErr
  unfolding respond
  call_service_gen m rec ctx =
      if i.deserializes (sid m) (msg m)
      then ok
          (record { deliveries = handed rec (msg m); output = respond m ctx (rec.answer (msg m)) })
      else err (PeerErr.deserialize ctx)

  unfoldable pub call_service : Services → ThesWf → PeerErrCtx → Result Task PeerErr
  unfolding call_service_gen contains
  call_service s m ctx =
      let ctx' = with_context ctx "Services::call_service" in
      elim (lookup (sid m) s.handlers) [
        | none ↦ err (PeerErr.no_handler ctx')
        | some rec ↦
            if contains i.known (sid m)
            then call_service_gen m rec ctx'
            else err (PeerErr.unknown_service ctx')
      ]

  -- `impl ServiceMap for Services`
  abbrev pub services_map : Services → ServiceMap
  services_map s = record {
    services = keys s.handlers;
    send_service = send_service s;
    call_service = call_service s;
  }
