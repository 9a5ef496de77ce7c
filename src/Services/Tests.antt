-- ===== src/Services/Tests.antt =====
-- Runs of service maps and of what a peer does with them, in the environment of the peer's tests.
use thespis_impl_remote.Common.{
  ℕ, List, Option, Bool, ◌≡◌, ◌↔◌, refl, ap, ◌∙◌, true, false, [], ◌∷◌, none, some, arith, lookup,
  insert, ◌==◌, lookup-insert_self, Bool-cases, inl, inr, subst, ok,
}
use thespis_impl_remote.Wire.ServiceId.{ServiceId}
use thespis_impl_remote.Wire.WireType.{call_response, kind_of}
use thespis_impl_remote.Frame.ByteOrder.{ByteOrder, little_endian}
use thespis_impl_remote.Frame.ThesWf.{
  ThesWf, as_buf, sid, cid, msg, kind, write, set_sid, set_cid, with_capacity,
}
use thespis_impl_remote.Frame.Addressed.{addressed, addressed_lem}
use thespis_impl_remote.Peer.Errors.{PeerErr, no_ctx, nothing}
use thespis_impl_remote.Peer.State
use thespis_impl_remote.Peer.State.{Peer, ServiceMap, Task, done}
use thespis_impl_remote.Peer.Incoming.{handle_incoming, on_task_output}
use thespis_impl_remote.Peer.Outgoing.{handle_wire_format}
use thespis_impl_remote.Peer.Tests.{env}
use thespis_impl_remote.Services.Address.{
  address, Relay, canceled, received, LocalAddress, answered,
}
use thespis_impl_remote.Services.Relay
use thespis_impl_remote.Services.Relay.{RelayMap, on_answer}
use thespis_impl_remote.Services.ThroughRelay.{IsAnswer, IsPassedOn, relay_map-handle_incoming}
use thespis_impl_remote.Wire.UniqueId.{u64_max}
use thespis_impl_remote.Frame.Build.{IsWhole}
use thespis_impl_remote.Services.PubSub
use thespis_impl_remote.Services.PubSub.{PubSub, subscribe, unsubscribe}
use thespis_impl_remote.Services.Local.{contains, Services, Interface, services_map}
use thespis_impl_remote.Services.Remote
use thespis_impl_remote.Services.Remote.{
  RemoteAddr, build_wf, build_call, call, start_send, err_ctx,
}
use thespis_impl_remote.Services.Callers.{call-ok_iff}
use thespis_impl_remote.Services.Sends.{start_send-handle_incoming}
use thespis_impl_remote.Services.Broadcast.{
  History, created, subscribed, unsubscribed, current, payloads, due, send_service-payloads,
}
use thespis_impl_remote.Services.Contract.{IsServiceMap, services_map-IsServiceMap}
use thespis_impl_remote.Services.Safety.{handle_incoming-Ends}

instance abbrev order : ByteOrder
order = little_endian

-- The services 7 and 8, of which a message is one byte at least.
abbrev pub interface : Interface
interface = record {
  known = 7 ∷ 8 ∷ [];
  deserializes = λ s bytes. elim bytes [ [] ↦ false | b ∷ bs ↦ true ];
}

-- An actor that answers with the message itself.
abbrev pub echo : LocalAddress
echo = record {
  id = 3;
  name = none;
  accepts = λ bytes. true;
  answer = λ bytes. answered (some bytes);
}

abbrev pub local : Services
local = record { handlers = insert 7 echo [] }

services_map-IsServiceMap_example : IsServiceMap (services_map interface local)
services_map-IsServiceMap_example = services_map-IsServiceMap interface local

abbrev pub peer : Peer
peer = record (State.new 1 none none none) { services = insert 7 (services_map interface local) [] }

only_local : (s : ServiceId) (sm : ServiceMap) → lookup s peer.services ≡ some sm → IsServiceMap sm
unfolding lookup insert
only_local s sm h = elim (Bool-cases (s == 7)) [
  | inl same ↦ subst IsServiceMap (ground (arith, same)) (services_map-IsServiceMap interface local)
  | inr other ↦ absurd (ground (arith, other))
]

abbrev request : ThesWf
request = write (addressed 7 9 0) (5 ∷ [])

handle_incoming-Ends_example : (q : Peer) × (handle_incoming env peer (ok request) ≡ done q)
handle_incoming-Ends_example = handle_incoming-Ends env peer (ok request) only_local

abbrev small_cid : cid request ≡ 9
small_cid = (addressed_lem 7 9 0 (5 ∷ []) (omega arith) (omega arith) (omega arith)).2

-- A peer on which a call waits under the connection id of the request.
abbrev caller : Peer
caller = record (State.new 2 none none none) { responses = insert (cid request) 4 [] }

-- A relay that sends back the frame it got.
abbrev mirror : Relay
mirror = record { id = 5; name = none; accepts = λ wf. true; answer = λ wf. received (ok wf) }

abbrev sent : ThesWf
sent = write (addressed 7 0 0) (5 ∷ [])

-- It has subscribed, and another relay has and has left again.
abbrev leaver : Relay
leaver = record mirror { id = 6 }

abbrev publisher : PubSub
publisher = unsubscribe (subscribe (subscribe (PubSub.new (7 ∷ [])) mirror) leaver) 6

abbrev subscriptions : History (7 ∷ []) publisher
subscriptions = unsubscribed 6 (subscribed leaver (subscribed mirror created))

send_service-payloads_example :
    (t : Task) × (PubSub.send_service publisher sent no_ctx ≡ ok t)
    × (payloads 6 t.deliveries ≡ due (current subscriptions 6) sent)
    × (t.output ≡ ok nothing)
send_service-payloads_example = send_service-payloads subscriptions sent no_ctx 6

abbrev pub client : Peer
client = State.new 2 none none none

abbrev pub call_frame : ThesWf
call_frame = write (set_sid (with_capacity 0) 7) (5 ∷ [])

-- The client after its call, which got the channel 0 and the connection id 1.
abbrev pub waiting : Peer
waiting = record client {
  conn_id_counter = 2;
  sent = set_cid call_frame 1 ∷ [];
  next_channel = 1;
  tasks = record { deliveries = []; output = ok nothing } ∷ [];
  timers = (1, sid call_frame) ∷ [];
  responses = insert 1 0 [];
}

-- A relay whose provider answers every call by a response, and a peer in front of it.
abbrev from_provider : ThesWf
from_provider = write (addressed u64_max 3 0) (6 ∷ [])

abbrev forwarder : Relay
forwarder = record {
  id = 5;
  name = none;
  accepts = λ wf. true;
  answer = λ wf. received (ok from_provider);
}

abbrev relays : RelayMap
relays = Relay.new (address forwarder) (7 ∷ [])

abbrev relaying : Peer
relaying = record (State.new 1 none none none) {
  services = insert 7 (Relay.relay_map env relays) [];
}

relay_map-handle_incoming_example :
    (x : ThesWf) × (t : Task) × (q1 q2 p2 : Peer) × (got : State.Reply) × (handle_incoming env
        relaying
        (ok request)
      ≡ done q1)
    × (q1.tasks ≡ t ∷ relaying.tasks)
    × (t.deliveries ≡ record { actor = 5; payload = as_buf request } ∷ [])
    × (on_task_output env q1 t.output ≡ done q2)
    × (q2.sent ≡ x ∷ relaying.sent)
    × (handle_incoming env caller (ok x) ≡ done p2)
    × (p2.replies ≡ (4, got) ∷ caller.replies)
    × IsPassedOn (ok from_provider) got
unfolding State.new kind_of
relay_map-handle_incoming_example =
    relay_map-handle_incoming env env caller relaying request 4 relays (ok from_provider)
      (omega (arith, small_cid)) refl (lookup-insert_self (cid request) 4 []) refl refl
      (addressed_lem 7 9 0 (5 ∷ []) (omega arith) (omega arith) (omega arith)).0
      (ap (λ s. lookup s relaying.services)
          (addressed_lem 7 9 0 (5 ∷ []) (omega arith) (omega arith) (omega arith)).1
        ∙ lookup-insert_self 7 (Relay.relay_map env relays) [])
      refl (λ x. refl) refl (unfold IsAnswer in (whole.4.framed, whole.0))
  where
    whole :
        (kind from_provider ≡ call_response)
        × (sid from_provider ≡ u64_max)
        × (cid from_provider ≡ 3)
        × (msg from_provider ≡ 6 ∷ [])
        × IsWhole from_provider
    whole = addressed_lem u64_max 3 0 (6 ∷ []) (omega arith) (omega arith) (omega arith)

-- The address of the service, through a peer that sends back every frame.
abbrev pub remote : RemoteAddr
remote = Remote.new mirror

abbrev pub any_bytes : List ℕ → Bool
any_bytes bytes = true

call-ok_iff_example : (call remote any_bytes 7 (some (5 ∷ [])) ≡ ok (5 ∷ [])) ↔ (
    (wf resp : ThesWf) × (build_call 7 (some (5 ∷ [])) ≡ ok wf)
    × (mirror.answer wf ≡ received (ok resp))
    × (msg resp ≡ 5 ∷ [])
    × (true ≡ true))
call-ok_iff_example = call-ok_iff remote any_bytes 7 (some (5 ∷ [])) (5 ∷ [])

-- A peer that drops every call.
abbrev lost : Relay
lost = record { id = 6; name = none; accepts = λ wf. false; answer = λ wf. canceled }

abbrev stopped : PeerErr
stopped =
    PeerErr.connection_closed
      (err_ctx lost (some 7) none "Peer stopped before receiving response from remote call")

abbrev one_byte : Option (List ℕ)
one_byte = some (5 ∷ [])

start_send-handle_incoming_example :
    (p1 q1 : Peer) × (t : Task) × (handle_wire_format env client sent ≡ (p1, ok tt))
    × (p1.sent ≡ sent ∷ client.sent)
    × (handle_incoming env peer (ok sent) ≡ done q1)
    × (q1.tasks ≡ t ∷ peer.tasks)
    × (t.deliveries ≡ record { actor = 3; payload = 5 ∷ [] } ∷ [])
    × (on_task_output env q1 t.output ≡ done q1)
    × (q1.sent ≡ peer.sent)
unfolding State.new
start_send-handle_incoming_example =
    start_send-handle_incoming env env remote "full" client peer sent 7 (5 ∷ []) interface local
      echo (omega arith) (omega arith) (omega arith) (unfold start_send in refl) refl refl refl
      (lookup-insert_self 7 (services_map interface local) []) (lookup-insert_self 7 echo [])
      (unfold contains in refl) refl refl refl
