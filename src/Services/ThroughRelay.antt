-- ===== src/Services/ThroughRelay.antt =====
-- A call of a service that the remote itself has from a further process: the remote relays the
-- call and passes the answer on to the caller.
use thespis_impl_remote.Common.{
  ◌+◌, ◌<◌, ◌≡◌, refl, ap, ◌∙◌, ℕ, true, false, [], ◌∷◌, none, some, arith, length, Result, ok, err,
  lookup,
}
use thespis_impl_remote.Wire.UniqueId.{u64_mod}
use thespis_impl_remote.Wire.ServiceId
use thespis_impl_remote.Wire.WireType.{incoming_call, call_response}
use thespis_impl_remote.Frame.ByteOrder.{ByteOrder}
use thespis_impl_remote.Frame.ThesWf.{
  ThesWf, as_buf, len_header, sid, cid, msg, kind, set_sid, set_cid, with_capacity, write,
}
use thespis_impl_remote.Frame.Fields.{IsFramed, set_cid_lem}
use thespis_impl_remote.Frame.Kinds.{kind_iff}
use thespis_impl_remote.Peer.Errors.{PeerErr, Response}
use thespis_impl_remote.Peer.State.{Peer, Env, Task, Reply, done, ctx}
use thespis_impl_remote.Peer.Outgoing.{send_msg, handle_wire_format}
use thespis_impl_remote.Peer.Requests.{prep_error}
use thespis_impl_remote.Peer.Incoming.{
  handle_incoming, on_frame, on_incoming_call, nurse, take_slot, on_task_output,
}
use thespis_impl_remote.Peer.Calls.{handle_incoming-response}
use thespis_impl_remote.Peer.Reports.{prep_error-handle_incoming}
use thespis_impl_remote.Services.Address.{received}
use thespis_impl_remote.Services.Relay.{
  RelayMap, relay_map, relay_for, call_service, make_call, on_answer,
}
use thespis_impl_remote.Services.EndToEnd.{sends_response}

module _ ⦃bo : ByteOrder⦄ where
  -- What the provider may have answered: a response frame, or an error that fits a frame, and
  -- that both peers serialize alike and the client can read.
  unfoldable pub IsAnswer : Env → Env → Reply → Type 0
  IsAnswer client env (ok resp) = IsFramed resp × (kind resp ≡ call_response)
  IsAnswer client env (err e) =
      (client.from_cbor (client.to_cbor e) ≡ some e)
      × (env.to_cbor e ≡ client.to_cbor e)
      × (len_header + length (client.to_cbor e) < u64_mod)

  -- The caller got the provider's answer: the same error, or a frame with the same message.
  unfoldable pub IsPassedOn : Reply → Reply → Type 0
  IsPassedOn (ok resp) (ok x) = msg x ≡ msg resp
  IsPassedOn (err e) (err f) = f ≡ e
  IsPassedOn _ _ = ⊥

  -- What the relay's peer is to send for that answer.
  abbrev answer_output : Env → ThesWf → Reply → Result Response PeerErr
  answer_output env frame (ok resp) = ok (Response.call_response (set_cid resp (cid frame)))
  answer_output env frame (err e) = ok (Response.wire_format (prep_error env (cid frame) e))

  -- The relay's peer runs a task that calls the relay with the frame as it came.
  relays_call :
      (env : Env) (q : Peer) (frame : ThesWf) (m : RelayMap) (r : Reply)
      → q.closed ≡ false
      → kind frame ≡ incoming_call
      → lookup (sid frame) q.services ≡ some (relay_map env m)
      → (relay_for m.handler (sid frame)).answer frame ≡ received r
      → env.can_nurse q.nursery_open q.tasks ≡ true
      → (q1 : Peer) × (t : Task) × (handle_incoming env q (ok frame) ≡ done q1)
        × (q1.tasks ≡ t ∷ q.tasks)
        × (t.deliveries
            ≡ record { actor = (relay_for m.handler (sid frame)).id; payload = as_buf frame } ∷ [])
        × (t.output ≡ answer_output env frame r)
        × (q1.outgoing ≡ q.outgoing)
        × (q1.sent ≡ q.sent)
  unfolding handle_incoming on_frame on_incoming_call nurse call_service make_call on_answer
  relays_call env q frame m r o k found answers room =
      let t : Task =
        make_call env (relay_for m.handler (sid frame)) frame
          (ctx q (some (sid frame)) (some (cid frame)) "Peer: Handle incoming call") in
      (
        record (take_slot env q) { tasks = t ∷ q.tasks },
        t,
        ground (arith, o, k, found, answers, room),
        refl,
        ground (arith, answers),
        outcome r answers,
        ground arith,
        ground arith,
      )
    where
      outcome :
          (x : Reply)
          → (relay_for m.handler (sid frame)).answer frame ≡ received x
          → (make_call env
              (relay_for m.handler (sid frame))
              frame
              (ctx q (some (sid frame)) (some (cid frame)) "Peer: Handle incoming call")).output
            ≡ answer_output env frame x
      outcome (ok resp) h = ground (arith, h)
      outcome (err e) h = ground (arith, h)

  sends_error :
      (env : Env) (q : Peer) (x : ThesWf) (out : Result Response PeerErr)
      → out ≡ ok (Response.wire_format x)
      → q.outgoing ≡ true
      → env.on_send q.sent x ≡ none
      → (q2 : Peer) × (on_task_output env q out ≡ done q2) × (q2.sent ≡ x ∷ q.sent)
  unfolding on_task_output handle_wire_format send_msg
  sends_error env q x out is sink takes =
      (record q { sent = x ∷ q.sent }, ground (arith, is, sink, takes), refl)

  -- The frame that comes back, and what the client's peer makes of it.
  comes_home :
      (client env : Env) (p : Peer) (frame : ThesWf) (channel : ℕ) (q : Peer) (r : Reply)
      (out : Result Response PeerErr)
      → out ≡ answer_output env frame r
      → IsAnswer client env r
      → cid frame < u64_mod
      → p.closed ≡ false
      → lookup (cid frame) p.responses ≡ some channel
      → q.outgoing ≡ true
      → ((x : ThesWf) → env.on_send q.sent x ≡ none)
      → (x : ThesWf) × (q2 p2 : Peer) × (got : Reply) × (on_task_output env q out ≡ done q2)
        × (q2.sent ≡ x ∷ q.sent)
        × (handle_incoming client p (ok x) ≡ done p2)
        × (p2.replies ≡ (channel, got) ∷ p.replies)
        × IsPassedOn r got
  unfolding IsAnswer IsPassedOn prep_error
  comes_home client env p frame channel q (ok resp) out is answer small o waits sink takes =
      let x = set_cid resp (cid frame) in
      let set = set_cid_lem resp (cid frame) answer.0 small in
      let sent = sends_response env q x out is sink (takes x) in
      let response : kind x ≡ call_response =
        (kind_iff x).1.1 (set.1 ∙ (kind_iff resp).1.0 answer.1) in
      let home =
        handle_incoming-response client p x channel o response
          (ap (λ c. lookup c p.responses) set.0 ∙ waits) in
      (x, sent.0, home.0, ok x, sent.1, sent.2, home.1, home.2, set.3)
  comes_home client env p frame channel q (err e) out is answer small o waits sink takes =
      let x = prep_error client (cid frame) e in
      let alike : prep_error env (cid frame) e ≡ x =
        ap (write (set_cid (set_sid (with_capacity 0) ServiceId.null) (cid frame))) answer.1 in
      let sent =
        sends_error env q x out (is ∙ ap (λ k. ok (Response.wire_format k)) alike) sink (takes x) in
      let home =
        prep_error-handle_incoming client p (cid frame) e channel answer.0 small answer.2 o waits in
      (x, sent.0, home.0, err e, sent.1, sent.2, home.1, home.2, refl)

  -- A call that a peer relays comes back to its caller. At an open client's peer a channel waits
  -- under the connection id of a call's frame, which fits a u64. The relay's peer is open, has the
  -- service in a relay map, takes one more task, and its sink works. The provider answers, by a
  -- response with a whole header, or by an error that fits a frame, that both peers serialize alike
  -- and the client can read. Then the frame makes the relay's peer run one task, which hands the
  -- frame as it is to the relay for this service, the output of that task makes it put one frame
  -- on the wire, and that frame makes the client's peer send the provider's answer on the channel
  -- of the call, and on no other: the error, or a frame with the message of the response.
  pub relay_map-handle_incoming :
      (client env : Env) (p q : Peer) (frame : ThesWf) (channel : ℕ) (m : RelayMap) (r : Reply)
      → cid frame < u64_mod
      → p.closed ≡ false
      → lookup (cid frame) p.responses ≡ some channel
      → q.closed ≡ false
      → q.outgoing ≡ true
      → kind frame ≡ incoming_call
      → lookup (sid frame) q.services ≡ some (relay_map env m)
      → env.can_nurse q.nursery_open q.tasks ≡ true
      → ((x : ThesWf) → env.on_send q.sent x ≡ none)
      → (relay_for m.handler (sid frame)).answer frame ≡ received r
      → IsAnswer client env r
      → (x : ThesWf) × (t : Task) × (q1 q2 p2 : Peer) × (got : Reply) × (handle_incoming env q
            (ok frame)
          ≡ done q1)
        × (q1.tasks ≡ t ∷ q.tasks)
        × (t.deliveries
            ≡ record { actor = (relay_for m.handler (sid frame)).id; payload = as_buf frame } ∷ [])
        × (on_task_output env q1 t.output ≡ done q2)
        × (q2.sent ≡ x ∷ q.sent)
        × (handle_incoming client p (ok x) ≡ done p2)
        × (p2.replies ≡ (channel, got) ∷ p.replies)
        × IsPassedOn r got
  relay_map-handle_incoming client env p q frame channel m r small o waits o' sink k found room
        takes answers answer =
      let one = relays_call env q frame m r o' k found answers room in
      let two =
        comes_home client env p frame channel one.0 r one.1.output one.5 answer small o waits
          (one.6 ∙ sink) (λ x. ap (λ l. env.on_send l x) one.7 ∙ takes x) in
      (
        two.0,
        one.1,
        one.0,
        two.1,
        two.2,
        two.3,
        one.2,
        one.3,
        one.4,
        two.4,
        two.5 ∙ ap (◌∷◌ two.0) one.7,
        two.6,
        two.7,
        two.8,
      )
