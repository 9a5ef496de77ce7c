-- ===== src/Services/EndToEnd.antt =====
-- A call of a remote service from end to end: the client builds a frame, its peer sends it, the
-- peer of the provider hands it to the actor and sends the answer, and the client's peer gives it
-- to the caller.
use thespis_impl_remote.Common.{
  ℕ, Bool, ◌+◌, ◌<◌, ◌≡◌, ◌≢◌, refl, ap, ap₂, ◌∙◌, true, false, List, [], ◌∷◌, ◌++◌, none, some,
  arith, length, Result, ok, lookup,
}
use thespis_impl_remote.Wire.UniqueId.{u64_mod, u64_max}
use thespis_impl_remote.Wire.ServiceId.{ServiceId}
use thespis_impl_remote.Wire.ConnId.{ConnId}
use thespis_impl_remote.Wire.WireType.{incoming_call, kind_of}
use thespis_impl_remote.Frame.ByteOrder.{ByteOrder}
use thespis_impl_remote.Frame.ThesWf.{
  ThesWf, len_header, sid, cid, msg, kind, set_cid, set_sid, with_capacity, write,
}
use thespis_impl_remote.Frame.Fields.{set_sid_lem, set_cid_lem}
use thespis_impl_remote.Frame.Build.{IsWhole, with_capacity_lem, write_lem}
use thespis_impl_remote.Peer.Errors.{PeerErr, with_context, Response}
use thespis_impl_remote.Peer.State.{Peer, Env, Task, done, ctx}
use thespis_impl_remote.Peer.Outgoing.{handle_call, next_conn_id, send_msg, handle_call_response}
use thespis_impl_remote.Peer.Incoming.{
  handle_incoming, on_frame, on_incoming_call, nurse, on_task_output, take_slot,
}
use thespis_impl_remote.Peer.Calls.{next_conn_id_lem, handle_call_lem}
use thespis_impl_remote.Services.Address.{LocalAddress, answered, received}
use thespis_impl_remote.Services.Local
use thespis_impl_remote.Services.Local.{Services, Interface, services_map, respond, contains}
use thespis_impl_remote.Services.Remote.{RemoteAddr, build_call, on_answer}
use thespis_impl_remote.Services.Callers.{readable_lem}
use thespis_impl_remote.Services.Responses.{respond-handle_incoming}

module _ ⦃bo : ByteOrder⦄ where
  -- The frame of a call, once its peer has given it a connection id.
  abbrev pub called : ServiceId → ConnId → List ℕ → ThesWf
  called s c body = set_cid (write (set_sid (with_capacity 0) s) body) c

  pub called_lem :
      (s : ServiceId) (c : ConnId) (body : List ℕ)
      → s ≢ 0
      → s < u64_max
      → c ≢ 0
      → c < u64_mod
      → len_header + length body < u64_mod
      → (kind (called s c body) ≡ incoming_call)
        × (sid (called s c body) ≡ s)
        × (cid (called s c body) ≡ c)
        × (msg (called s c body) ≡ body)
        × IsWhole (called s c body)
  unfolding kind kind_of
  called_lem s c body ns hs nc hc fits =
      let fresh = with_capacity_lem 0 in
      let one = set_sid_lem (with_capacity 0) s fresh.0.framed (omega arith) in
      let whole : IsWhole (set_sid (with_capacity 0) s) = record {
        framed = omega (arith, one.4, fresh.4);
        consistent = one.2 ∙ fresh.0.consistent ∙ omega (arith, one.4);
      } in
      let body_in =
        write_lem (set_sid (with_capacity 0) s) body whole (omega (arith, one.4, fresh.4)) in
      let two = set_cid_lem (write (set_sid (with_capacity 0) s) body) c body_in.0.framed hc in
      let s_is = two.1 ∙ body_in.1 ∙ one.0 in
      (
        ground (arith, s_is, two.0),
        s_is,
        two.0,
        two.3 ∙ body_in.3 ∙ ap (λ l. l ++ body) (one.3 ∙ fresh.3),
        record {
          framed = omega (arith, two.4, body_in.0.framed);
          consistent = two.2 ∙ body_in.0.consistent ∙ omega (arith, two.4);
        },
      )

  -- What the provider's peer makes of the frame of a call that its actor answers.
  pub record Served (env : Env) (q : Peer) (frame : ThesWf) (rec : LocalAddress) (bytes : List ℕ)
      (q1 : Peer) (t : Task) : Type 0 where
    pub handled : handle_incoming env q (ok frame) ≡ done q1
    pub tasks : q1.tasks ≡ t ∷ q.tasks
    pub given : t.deliveries ≡ record { actor = rec.id; payload = msg frame } ∷ []
    pub output :
        t.output
        ≡ respond frame
            (with_context
              (ctx q (some (sid frame)) (some (cid frame)) "Peer: Handle incoming call")
              "Services::call_service")
            (answered (some bytes))
    pub sink : q1.outgoing ≡ q.outgoing
    pub sent : q1.sent ≡ q.sent

  pub served_lem :
      (env : Env) (q : Peer) (frame : ThesWf) (i : Interface) (sv : Services) (rec : LocalAddress)
      (bytes : List ℕ)
      → q.closed ≡ false
      → kind frame ≡ incoming_call
      → lookup (sid frame) q.services ≡ some (services_map i sv)
      → lookup (sid frame) sv.handlers ≡ some rec
      → contains i.known (sid frame) ≡ true
      → i.deserializes (sid frame) (msg frame) ≡ true
      → rec.answer (msg frame) ≡ answered (some bytes)
      → env.can_nurse q.nursery_open q.tasks ≡ true
      → (q1 : Peer) × (t : Task) × Served env q frame rec bytes q1 t
  unfolding handle_incoming on_frame on_incoming_call nurse Local.call_service
  served_lem env q frame i sv rec bytes o k found handler known readable answers room =
      let c =
        with_context (ctx q (some (sid frame)) (some (cid frame)) "Peer: Handle incoming call")
          "Services::call_service" in
      let t : Task = record {
        deliveries = Local.handed rec (msg frame);
        output = respond frame c (answered (some bytes));
      } in
      (
        record (take_slot env q) { tasks = t ∷ q.tasks },
        t,
        record {
          handled = ground (arith, o, k, found, handler, known, readable, answers, room);
          tasks = refl;
          given = ground (arith, answers);
          output = refl;
          sink = ground arith;
          sent = ground arith;
        },
      )

  pub sends_response :
      (env : Env) (q : Peer) (x : ThesWf) (out : Result Response PeerErr)
      → out ≡ ok (Response.call_response x)
      → q.outgoing ≡ true
      → env.on_send q.sent x ≡ none
      → (q2 : Peer) × (on_task_output env q out ≡ done q2) × (q2.sent ≡ x ∷ q.sent)
  unfolding on_task_output handle_call_response send_msg
  sends_response env q x out is sink takes =
      ((handle_call_response env q x).0, ground (arith, is), ground (arith, sink, takes))

  -- A client's call of a remote service comes back with the actor's answer. The client's counter of
  -- connection ids and the sizes of both frames fit a u64. The client's frame, built for a service
  -- id that is none of the reserved ones, went out by a call that got a channel. The provider's
  -- peer is open, has the service in a map of local actors, whose handler the macro knows and whose
  -- message type the bytes deserialize to; it takes one more task, its sink works, and the actor
  -- answers. Then the frame that the client's peer put on the wire makes the provider's peer hand
  -- the message to the actor, the output of that task makes it put one response on the wire, and
  -- that response makes the client's peer send on the channel of the call, and on no other, a frame
  -- of which the client's address makes the bytes that the actor answered, if these deserialize to
  -- the type of the answer.
  handle_call-respond :
      (client provider : Env) (a : RemoteAddr) (typed : List ℕ → Bool) (p p1 q : Peer) (wf : ThesWf)
      (channel : ℕ) (s : ServiceId) (body bytes : List ℕ) (i : Interface) (sv : Services)
      (rec : LocalAddress)
      → s ≢ 0
      → s < u64_max
      → p.conn_id_counter < u64_mod
      → len_header + length body < u64_mod
      → len_header + length bytes < u64_mod
      → build_call s (some body) ≡ ok wf
      → handle_call client p wf ≡ done (p1, ok channel)
      → q.closed ≡ false
      → q.outgoing ≡ true
      → lookup s q.services ≡ some (services_map i sv)
      → lookup s sv.handlers ≡ some rec
      → contains i.known s ≡ true
      → i.deserializes s body ≡ true
      → rec.answer body ≡ answered (some bytes)
      → provider.can_nurse q.nursery_open q.tasks ≡ true
      → ((x : ThesWf) → provider.on_send q.sent x ≡ none)
      → typed bytes ≡ true
      → (request x : ThesWf) × (t : Task) × (q1 q2 p2 : Peer) × (p1.sent ≡ request ∷ p.sent)
        × (handle_incoming provider q (ok request) ≡ done q1)
        × (q1.tasks ≡ t ∷ q.tasks)
        × (t.deliveries ≡ record { actor = rec.id; payload = body } ∷ [])
        × (on_task_output provider q1 t.output ≡ done q2)
        × (q2.sent ≡ x ∷ q.sent)
        × (handle_incoming client p1 (ok x) ≡ done p2)
        × (p2.replies ≡ (channel, ok x) ∷ p1.replies)
        × (on_answer a typed s (received (ok x)) ≡ ok bytes)
  unfolding build_call
  handle_call-respond client provider a typed p p1 q wf channel s body bytes i sv rec ns hs counter
        fits fits' built started o sink found handler known readable answers room takes typed_ok =
      let c = (next_conn_id client p).1 in
      let fresh = next_conn_id_lem client p counter in
      let waiting = handle_call_lem client p wf p1 channel started in
      let request = called s c body in
      let r = called_lem s c body ns hs fresh.0 fresh.1 fits in
      let made : set_cid wf c ≡ request = ground (arith, built) in
      let served =
        served_lem provider q request i sv rec bytes o r.0
          (ap (λ k. lookup k q.services) r.1 ∙ found) (ap (λ k. lookup k sv.handlers) r.1 ∙ handler)
          (ap (contains i.known) r.1 ∙ known) (ap₂ i.deserializes r.1 r.3 ∙ readable)
          (ap rec.answer r.3 ∙ answers) room in
      let answer =
        respond-handle_incoming client p1 request
          (with_context
            (ctx q (some (sid request)) (some (cid request)) "Peer: Handle incoming call")
            "Services::call_service")
          bytes channel (omega (arith, r.2, fresh.1)) fits' waiting.still_open
          (ap (λ k. lookup k p1.responses) r.2 ∙ waiting.waits) in
      let home = served.2 in
      let out =
        sends_response provider served.0 answer.0 served.1.output (home.output ∙ answer.2)
          (home.sink ∙ sink) (ap (λ l. provider.on_send l answer.0) home.sent ∙ takes answer.0) in
      (
        request,
        answer.0,
        served.1,
        served.0,
        out.0,
        answer.1,
        waiting.went_out ∙ ap (λ l. l ∷ p.sent) made,
        home.handled,
        home.tasks,
        home.given ∙ ap (λ l. record { actor = rec.id; payload = l } ∷ []) r.3,
        out.1,
        out.2 ∙ ap (◌∷◌ answer.0) home.sent,
        answer.3,
        answer.4,
        readable_lem a typed s answer.0 bytes answer.5 typed_ok,
      )
