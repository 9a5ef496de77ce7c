-- ===== src/Services/Runs.antt =====
-- A call over the byte streams of a connection, in the environment of the tests.
use thespis_impl_remote.Common.{
  replicate, ◌≡◌, refl, true, [], ◌∷◌, some, arith, lookup-insert_self, ok,
}
use thespis_impl_remote.Frame.ByteOrder.{ByteOrder, little_endian}
use thespis_impl_remote.Frame.ThesWf.{ThesWf}
use thespis_impl_remote.Peer.State
use thespis_impl_remote.Peer.State.{Peer, ServiceMap, Task, done}
use thespis_impl_remote.Peer.Incoming.{handle_incoming, on_task_output}
use thespis_impl_remote.Peer.Outgoing.{next_conn_id, send_msg, await_response, handle_call}
use thespis_impl_remote.Peer.Tests.{env}
use thespis_impl_remote.Services.Address.{received}
use thespis_impl_remote.Services.Local.{contains, services_map}
use thespis_impl_remote.Services.Remote
use thespis_impl_remote.Services.Remote.{
  RemoteAddr, build_wf, build_call, call, start_send, err_ctx,
}
use thespis_impl_remote.Services.OverWire.{Provides, call-over}
use thespis_impl_remote.Codec.Link.{Link, IsSound, over}
use thespis_impl_remote.Codec.Transport.{accepts}
use thespis_impl_remote.Codec.Streams.{exact, exact-IsEager}
use thespis_impl_remote.Services.Tests.{
  interface, echo, local, peer, client, waiting, call_frame, remote, any_bytes,
}

instance abbrev order : ByteOrder
order = little_endian

-- A connection whose writer takes three bytes at each of 33 polls.
abbrev link : Link
link = record {
  debug = true;
  reader = exact;
  answers = replicate 33 (accepts 3);
  max_size = 100;
  arrived = λ bytes. bytes;
}

link-IsSound : IsSound link
link-IsSound = record { accepts_all = ground arith; eager = exact-IsEager; intact = λ bytes. refl }

peer-Provides : Provides env peer interface local echo 7 (5 ∷ []) (5 ∷ [])
unfolding State.new
peer-Provides = record {
  is_open = refl;
  sink = refl;
  found = lookup-insert_self 7 (services_map interface local) [];
  handler = lookup-insert_self 7 echo [];
  known = unfold contains in refl;
  readable = refl;
  answers = refl;
  room = refl;
  takes = λ x. refl;
}

call-over_example :
    (m m' x x' : ThesWf) × (t : Task) × (q1 q2 p2 : Peer) × (waiting.sent ≡ m ∷ client.sent)
    × (over link m ≡ some m')
    × (handle_incoming env peer (ok m') ≡ done q1)
    × (q1.tasks ≡ t ∷ peer.tasks)
    × (t.deliveries ≡ record { actor = 3; payload = 5 ∷ [] } ∷ [])
    × (on_task_output env q1 t.output ≡ done q2)
    × (q2.sent ≡ x ∷ peer.sent)
    × (over link x ≡ some x')
    × (handle_incoming env waiting (ok x') ≡ done p2)
    × (p2.replies ≡ (0, ok x') ∷ waiting.replies)
    × (Remote.on_answer remote any_bytes 7 (received (ok x')) ≡ ok (5 ∷ []))
unfolding State.new
call-over_example =
    call-over link link env env remote any_bytes client waiting peer call_frame 0 7 (5 ∷ [])
      (5 ∷ []) interface local echo link-IsSound link-IsSound (omega arith) (omega arith)
      (omega arith) (omega arith) (omega arith) (omega arith) (omega arith) (omega arith)
      (omega arith) (unfold build_call in refl)
      (unfold handle_call next_conn_id send_msg await_response in refl) peer-Provides refl
