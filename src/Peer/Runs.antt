-- ===== src/Peer/Runs.antt =====
-- Runs of a peer over streams of frames, in the environment of the tests.
use thespis_impl_remote.Common.{
  ℕ, remove, inl, map, replicate, ◌++◌, ◌≤◌, ◌≡◌, refl, true, List, [], ◌∷◌, none, some, arith,
  lookup, insert, ok,
}
use thespis_impl_remote.Wire.WireType.{kind_of}
use thespis_impl_remote.Frame.ByteOrder.{ByteOrder, little_endian, of_bytes}
use thespis_impl_remote.Frame.ThesWf.{ThesWf, as_buf, kind, sid, cid}
use thespis_impl_remote.Peer.Errors.{Response}
use thespis_impl_remote.Peer.BackPressure.{BackPressure}
use thespis_impl_remote.Peer.State
use thespis_impl_remote.Peer.State.{Peer, ServiceMap, Env, Task, Handled, done, panics, ctx, ◌>>=◌}
use thespis_impl_remote.Peer.Outgoing.{resolve}
use thespis_impl_remote.Peer.Requests.{handle_close_connection}
use thespis_impl_remote.Peer.Incoming.{
  handle_incoming, take_slot, on_frame, nurse, on_stream, on_incoming_call,
}
use thespis_impl_remote.Peer.Listening.{listen_incoming, handle_each, listen_incoming-send_all}
use thespis_impl_remote.Codec.Transport.{WriteAnswer, accepts}
use thespis_impl_remote.Codec.Encoder
use thespis_impl_remote.Codec.Decoder
use thespis_impl_remote.Codec.Roundtrip.{send_all}
use thespis_impl_remote.Codec.Tests.{bytes, frame, frame-IsWhole, two_frames}
use thespis_impl_remote.Codec.Streams.{ending, ending-IsEager, ending_ends}
use thespis_impl_remote.Frame.Build.{IsWhole}
use thespis_impl_remote.Peer.Throttle
use thespis_impl_remote.Peer.Matching.{IsGiven, HasCalled, Reach-HasCalled}
use thespis_impl_remote.Peer.Reach
use thespis_impl_remote.Peer.Reach.{
  Reach, streamed, timed_out, closes, here, next, Reach-Inv, Reach-closed,
}
use thespis_impl_remote.Peer.Tests.{env, slots, peer, call_frame, called, response, calls_once}

instance abbrev order : ByteOrder
order = little_endian

-- A service that answers every call by the same response.
abbrev answers : Task
answers = record { deliveries = []; output = ok (Response.call_response response) }

abbrev service : ServiceMap
service = record {
  services = 7 ∷ [];
  send_service = λ m c. ok answers;
  call_service = λ m c. ok answers;
}

abbrev provider : Peer
provider = record peer { services = insert 7 service [] }

-- The bytes of a call of the service 7, under the connection id 9.
abbrev call_bytes : List ℕ
call_bytes = 25 ∷ replicate 7 0 ++ (7 ∷ replicate 7 0 ++ (9 ∷ replicate 7 0 ++ (5 ∷ [])))

abbrev incoming : ThesWf
incoming = record { cursor = record { inner = call_bytes; pos = 0 } }

-- A provider with one slot, before and after that call.
abbrev one_slot : BackPressure
one_slot = record { available = 1; wakers = [] }

abbrev idle : Peer
idle = record provider { backpressure = some one_slot }

abbrev busy : Peer
busy = record (take_slot env idle) { tasks = answers ∷ [] }

takes_call : on_stream env idle (some (ok incoming)) ≡ done busy
unfolding on_stream handle_incoming on_frame on_incoming_call nurse kind sid cid kind_of of_bytes
    State.new lookup insert
takes_call = refl

abbrev run : Reach env idle busy
run = next here (streamed (some (ok incoming)) takes_call)

abbrev full_answers : List WriteAnswer
full_answers = replicate 25 (accepts 3)

abbrev written : List ℕ
written = (send_all full_answers (Encoder.new 100) two_frames).out_bytes

-- A peer without back pressure.
abbrev unlimited : Peer
unlimited = State.new 1 none none none

listen_incoming-send_all_example :
    (got : List ThesWf) × (map as_buf got ≡ bytes ∷ bytes ∷ [])
    × (listen_incoming env true ending 8 3 (Decoder.new written 100) unlimited
        ≡ (handle_each env got unlimited >>= λ q. done (handle_close_connection env q true)))
unfolding State.new
listen_incoming-send_all_example =
    listen_incoming-send_all env true ending two_frames full_answers 8 100 100 written unlimited
      refl ending-IsEager ending_ends (ground arith) (fits, (fits, tt)) refl
  where
    fits : IsWhole frame × (25 ≤ 100) × (25 ≤ 25)
    fits = (frame-IsWhole, omega arith, omega arith)

-- A response under the connection id 1.
abbrev reply_bytes : List ℕ
reply_bytes = 25 ∷ replicate 7 0 ++ (replicate 8 255 ++ (1 ∷ replicate 7 0 ++ (6 ∷ [])))

abbrev reply : ThesWf
reply = record { cursor = record { inner = reply_bytes; pos = 0 } }

abbrev replied : Peer
replied = record called { responses = []; replies = (0, ok reply) ∷ [] }

takes_reply : on_stream env called (some (ok reply)) ≡ done replied
unfolding on_stream handle_incoming on_frame resolve kind sid cid kind_of of_bytes State.new lookup
    insert remove
takes_reply = refl

abbrev answered_call : Reach env peer replied
answered_call =
    next (next here (Reach.called {q = called} call_frame (ok 0) calls_once))
      (streamed (some (ok reply)) takes_reply)

Reach-HasCalled_example : HasCalled env answered_call 0 (cid reply)
Reach-HasCalled_example =
    Reach-HasCalled env 1 (some "peer") (some slots) none answered_call 0 reply
      (unfold IsGiven in inl (refl, refl))
