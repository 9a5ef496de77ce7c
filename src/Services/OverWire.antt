-- ===== src/Services/OverWire.antt =====
-- A call of a remote service, over the byte streams of a connection: the frames of the call and of
-- its answer go through an encoder and a decoder each.
use thespis_impl_remote.Common.{
  ℕ, Bool, ◌+◌, ◌<◌, ◌≤◌, ◌≡◌, ◌≢◌, ap, ap₂, ◌∙◌, true, false, List, [], ◌∷◌, none, some, arith,
  length, ok, lookup,
}
use thespis_impl_remote.Wire.UniqueId.{u64_mod, u64_max}
use thespis_impl_remote.Wire.ServiceId.{ServiceId}
use thespis_impl_remote.Frame.ByteOrder.{ByteOrder}
use thespis_impl_remote.Frame.ThesWf.{ThesWf, len_header, sid, cid, msg, set_cid}
use thespis_impl_remote.Frame.Build.{IsWhole}
use thespis_impl_remote.Codec.Link.{Link, over, IsSound, Fits, over_lem, same_bytes, framed_length}
use thespis_impl_remote.Peer.Errors.{with_context}
use thespis_impl_remote.Peer.State.{Peer, Env, Task, done, ctx}
use thespis_impl_remote.Peer.Outgoing.{handle_call, next_conn_id}
use thespis_impl_remote.Peer.Incoming.{handle_incoming, on_task_output}
use thespis_impl_remote.Peer.Calls.{next_conn_id_lem, handle_call_lem, handle_incoming-response}
use thespis_impl_remote.Services.Address.{LocalAddress, answered, received}
use thespis_impl_remote.Services.Local.{Services, Interface, services_map, contains}
use thespis_impl_remote.Services.Remote.{RemoteAddr, build_call, on_answer}
use thespis_impl_remote.Services.Callers.{readable_lem}
use thespis_impl_remote.Services.Responses.{respond_lem}
use thespis_impl_remote.Services.EndToEnd.{called, called_lem, served_lem, sends_response}

-- A peer that is open and whose sink works has the service in a map of local actors; the macro
-- knows it, the bytes of the message deserialize to its type, the actor answers, and the nursery
-- takes one more task.
pub record Provides ⦃bo : ByteOrder⦄ (env : Env) (q : Peer) (i : Interface) (sv : Services)
    (rec : LocalAddress) (s : ServiceId) (body bytes : List ℕ) : Type 0 where
  pub is_open : q.closed ≡ false
  pub sink : q.outgoing ≡ true
  pub found : lookup s q.services ≡ some (services_map i sv)
  pub handler : lookup s sv.handlers ≡ some rec
  pub known : contains i.known s ≡ true
  pub readable : i.deserializes s body ≡ true
  pub answers : rec.answer body ≡ answered (some bytes)
  pub room : env.can_nurse q.nursery_open q.tasks ≡ true
  pub takes : (x : ThesWf) → env.on_send q.sent x ≡ none

module _ ⦃bo : ByteOrder⦄ where
  whole_Fits :
      (l : Link) (wf : ThesWf) (body : List ℕ)
      → IsWhole wf
      → msg wf ≡ body
      → len_header + length body ≤ l.max_size
      → len_header + length body ≤ length l.answers
      → Fits l wf
  whole_Fits l wf body w is within room = record {
    whole = w;
    within = omega (arith, framed_length wf w.framed, ap length is);
    room = omega (arith, framed_length wf w.framed, ap length is);
  }

  -- A client's call of a remote service comes back with the actor's answer over two byte streams.
  -- On both, the writer always has room, the reader hands over bytes that are there, and what
  -- arrives is what was written; both frames are within the limit and the number of polls of their
  -- writer. The client's counter of connection ids and the sizes of both frames fit a u64. The
  -- frame, built for a service id that is none of the reserved ones, went out by a call that got a
  -- channel, and the provider's peer provides the service, whose actor answers. Then the client's
  -- peer put one frame in its sink; the frame that the provider's decoder makes of its bytes makes
  -- the provider's peer run one task, which hands the message to the actor and whose output makes
  -- it put one response in its sink; and the frame that the client's decoder makes of those bytes
  -- makes the client's peer send on the channel of the call, and on no other, a response of which
  -- the client's address makes the bytes that the actor answered, if these deserialize to the type
  -- of the answer.
  pub call-over :
      (up down : Link) (client provider : Env) (a : RemoteAddr) (typed : List ℕ → Bool)
      (p p1 q : Peer) (wf : ThesWf) (channel : ℕ) (s : ServiceId) (body bytes : List ℕ)
      (i : Interface) (sv : Services) (rec : LocalAddress)
      → IsSound up
      → IsSound down
      → s ≢ 0
      → s < u64_max
      → p.conn_id_counter < u64_mod
      → len_header + length body < u64_mod
      → len_header + length bytes < u64_mod
      → len_header + length body ≤ up.max_size
      → len_header + length body ≤ length up.answers
      → len_header + length bytes ≤ down.max_size
      → len_header + length bytes ≤ length down.answers
      → build_call s (some body) ≡ ok wf
      → handle_call client p wf ≡ done (p1, ok channel)
      → Provides provider q i sv rec s body bytes
      → typed bytes ≡ true
      → (request request' x x' : ThesWf) × (t : Task) × (q1 q2 p2 : Peer) × (p1.sent
          ≡ request ∷ p.sent)
        × (over up request ≡ some request')
        × (handle_incoming provider q (ok request') ≡ done q1)
        × (q1.tasks ≡ t ∷ q.tasks)
        × (t.deliveries ≡ record { actor = rec.id; payload = body } ∷ [])
        × (on_task_output provider q1 t.output ≡ done q2)
        × (q2.sent ≡ x ∷ q.sent)
        × (over down x ≡ some x')
        × (handle_incoming client p1 (ok x') ≡ done p2)
        × (p2.replies ≡ (channel, ok x') ∷ p1.replies)
        × (on_answer a typed s (received (ok x')) ≡ ok bytes)
  unfolding build_call
  call-over up down client provider a typed p p1 q wf channel s body bytes i sv rec sound sound' ns
        hs counter fits fits' w1 n1 w2 n2 built started v typed_ok =
      let c = (next_conn_id client p).1 in
      let fresh = next_conn_id_lem client p counter in
      let waiting = handle_call_lem client p wf p1 channel started in
      let request = called s c body in
      let r = called_lem s c body ns hs fresh.0 fresh.1 fits in
      let made : set_cid wf c ≡ request = ground (arith, built) in
      let arrives = over_lem up request sound (whole_Fits up request body r.4 r.3 w1 n1) in
      let request' = arrives.0 in
      let same = same_bytes request' request arrives.2 in
      let s_is = same.1 ∙ r.1 in
      let c_is = same.2 ∙ r.2 in
      let m_is = same.3 ∙ r.3 in
      let served =
        served_lem provider q request' i sv rec bytes v.is_open (same.0 ∙ r.0)
          (ap (λ k. lookup k q.services) s_is ∙ v.found)
          (ap (λ k. lookup k sv.handlers) s_is ∙ v.handler) (ap (contains i.known) s_is ∙ v.known)
          (ap₂ i.deserializes s_is m_is ∙ v.readable) (ap rec.answer m_is ∙ v.answers) v.room in
      let home = served.2 in
      let answer =
        respond_lem request'
          (with_context
            (ctx q (some (sid request')) (some (cid request')) "Peer: Handle incoming call")
            "Services::call_service")
          bytes (omega (arith, c_is, fresh.1)) fits' in
      let x = answer.0 in
      let out =
        sends_response provider served.0 x served.1.output (home.output ∙ answer.1)
          (home.sink ∙ v.sink) (ap (λ l. provider.on_send l x) home.sent ∙ v.takes x) in
      let back = over_lem down x sound' (whole_Fits down x bytes answer.5 answer.4 w2 n2) in
      let x' = back.0 in
      let same' = same_bytes x' x back.2 in
      let got =
        handle_incoming-response client p1 x' channel waiting.still_open (same'.0 ∙ answer.2)
          (ap (λ k. lookup k p1.responses) (same'.2 ∙ answer.3 ∙ c_is) ∙ waiting.waits) in
      (
        request,
        request',
        x,
        x',
        served.1,
        served.0,
        out.0,
        got.0,
        waiting.went_out ∙ ap (λ l. l ∷ p.sent) made,
        arrives.1,
        home.handled,
        home.tasks,
        home.given ∙ ap (λ l. record { actor = rec.id; payload = l } ∷ []) m_is,
        out.1,
        out.2 ∙ ap (◌∷◌ x) home.sent,
        back.1,
        got.1,
        got.2,
        readable_lem a typed s x' bytes (same'.3 ∙ answer.4) typed_ok,
      )
