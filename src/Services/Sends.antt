-- ===== src/Services/Sends.antt =====
-- A message sent to a remote service from end to end: from `RemoteAddr` over both peers to the
-- actor.
use thespis_impl_remote.Common.{
  ℕ, String, ◌+◌, ◌<◌, ◌≡◌, ◌≢◌, refl, ap, ap₂, ◌∙◌, true, false, List, [], ◌∷◌, none, some, arith,
  length, ok, lookup,
}
use thespis_impl_remote.Wire.UniqueId.{u64_mod, u64_max}
use thespis_impl_remote.Wire.ServiceId.{ServiceId}
use thespis_impl_remote.Wire.WireType.{incoming_send}
use thespis_impl_remote.Frame.ByteOrder.{ByteOrder}
use thespis_impl_remote.Frame.ThesWf.{ThesWf, len_header, sid, msg, kind}
use thespis_impl_remote.Peer.Errors.{nothing}
use thespis_impl_remote.Peer.State.{Peer, Env, Task, done}
use thespis_impl_remote.Peer.Outgoing.{handle_wire_format, send_msg}
use thespis_impl_remote.Peer.Incoming.{
  handle_incoming, on_frame, on_incoming_send, nurse, on_task_output,
}
use thespis_impl_remote.Services.Address.{LocalAddress}
use thespis_impl_remote.Services.Local
use thespis_impl_remote.Services.Local.{Services, Interface, services_map, contains}
use thespis_impl_remote.Services.Remote.{RemoteAddr, build_wf, start_send}
use thespis_impl_remote.Services.Requests.{build_wf_lem}

module _ ⦃bo : ByteOrder⦄ where
  -- The frame that `start_send` hands over is the one that `build_wf` makes.
  start_send-build_wf :
      (a : RemoteAddr) (source : String) (s : ServiceId) (body : List ℕ) (wf : ThesWf)
      → start_send a source s (some body) ≡ ok wf
      → build_wf s (some body) 0 ≡ ok wf
  unfolding start_send
  start_send-build_wf a source s body wf h = ground (arith, h)

  -- A provider's peer hands the message of a send to the actor.
  served_send :
      (env : Env) (q : Peer) (frame : ThesWf) (i : Interface) (sv : Services) (rec : LocalAddress)
      → q.closed ≡ false
      → kind frame ≡ incoming_send
      → lookup (sid frame) q.services ≡ some (services_map i sv)
      → lookup (sid frame) sv.handlers ≡ some rec
      → contains i.known (sid frame) ≡ true
      → i.deserializes (sid frame) (msg frame) ≡ true
      → rec.accepts (msg frame) ≡ true
      → env.can_nurse q.nursery_open q.tasks ≡ true
      → (q1 : Peer) × (t : Task) × (handle_incoming env q (ok frame) ≡ done q1)
        × (q1.tasks ≡ t ∷ q.tasks)
        × (t.deliveries ≡ record { actor = rec.id; payload = msg frame } ∷ [])
        × (on_task_output env q1 t.output ≡ done q1)
        × (q1.sent ≡ q.sent)
  unfolding handle_incoming on_frame on_incoming_send nurse Local.send_service on_task_output
  served_send env q frame i sv rec o k found handler known readable takes room =
      let t : Task = record {
        deliveries = record { actor = rec.id; payload = msg frame } ∷ [];
        output = ok nothing;
      } in
      (
        record q { tasks = t ∷ q.tasks },
        t,
        ground (arith, o, k, found, handler, known, readable, takes, room),
        refl,
        refl,
        refl,
        refl,
      )

  -- A message that is sent to a remote service reaches its actor. The client's `start_send`, for a
  -- service id that is none of the reserved ones and a size that fits a u64, hands a frame to its
  -- peer, which is open to send and whose sink takes the frame. The provider's peer is open, has
  -- the service in a map of local actors, whose handler the macro knows and whose message type the
  -- bytes deserialize to; it takes one more task, and the actor's mailbox takes the message. Then
  -- the client's peer puts exactly one frame on the wire, and that frame makes the provider's peer
  -- run one task, which hands the serialized message to that actor and nothing else; nothing is put
  -- on the wire for it, and the output of the task changes nothing of the peer.
  pub start_send-handle_incoming :
      (client provider : Env) (a : RemoteAddr) (source : String) (p q : Peer) (wf : ThesWf)
      (s : ServiceId) (body : List ℕ) (i : Interface) (sv : Services) (rec : LocalAddress)
      → s ≢ 0
      → s < u64_max
      → len_header + length body < u64_mod
      → start_send a source s (some body) ≡ ok wf
      → p.outgoing ≡ true
      → client.on_send p.sent wf ≡ none
      → q.closed ≡ false
      → lookup s q.services ≡ some (services_map i sv)
      → lookup s sv.handlers ≡ some rec
      → contains i.known s ≡ true
      → i.deserializes s body ≡ true
      → rec.accepts body ≡ true
      → provider.can_nurse q.nursery_open q.tasks ≡ true
      → (p1 q1 : Peer) × (t : Task) × (handle_wire_format client p wf ≡ (p1, ok tt))
        × (p1.sent ≡ wf ∷ p.sent)
        × (handle_incoming provider q (ok wf) ≡ done q1)
        × (q1.tasks ≡ t ∷ q.tasks)
        × (t.deliveries ≡ record { actor = rec.id; payload = body } ∷ [])
        × (on_task_output provider q1 t.output ≡ done q1)
        × (q1.sent ≡ q.sent)
  unfolding handle_wire_format send_msg
  start_send-handle_incoming client provider a source p q wf s body i sv rec ns hs fits started sink
        takes o found handler known readable accepts room =
      let f = build_wf_lem s body wf ns hs fits (start_send-build_wf a source s body wf started) in
      let served =
        served_send provider q wf i sv rec o f.0 (ap (λ k. lookup k q.services) f.1 ∙ found)
          (ap (λ k. lookup k sv.handlers) f.1 ∙ handler) (ap (contains i.known) f.1 ∙ known)
          (ap₂ i.deserializes f.1 f.3 ∙ readable) (ap rec.accepts f.3 ∙ accepts) room in
      (
        record p { sent = wf ∷ p.sent },
        served.0,
        served.1,
        ground (arith, sink, takes),
        refl,
        served.2,
        served.3,
        served.4 ∙ ap (λ l. record { actor = rec.id; payload = l } ∷ []) f.3,
        served.5,
        served.6,
      )
