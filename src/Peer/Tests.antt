-- ===== src/Peer/Tests.antt =====
-- Runs of a peer in a small environment: every frame is sent and every task taken, and an error is
-- printed on the wire as its kind.
use thespis_impl_remote.Common.{
  ℕ, suc, ◌≤◌, ◌≡◌, ◌↔◌, refl, true, false, List, [], ◌∷◌, Option, none, some, arith, lookup,
  insert, lookup-insert_self, lookup_empty, ok, err, pending,
}
use thespis_impl_remote.Wire.UniqueId.{u64_max}
use thespis_impl_remote.Wire.ConnId.{ConnId}
use thespis_impl_remote.Wire.WireErr.{io, unexpected_eof}
use thespis_impl_remote.Frame.ByteOrder.{ByteOrder, little_endian}
use thespis_impl_remote.Frame.ThesWf.{ThesWf, sid, set_cid, write}
use thespis_impl_remote.Frame.Addressed.{addressed}
use thespis_impl_remote.Peer.Errors.{ConnectionError, PeerErr, PeerEvent, Response}
use thespis_impl_remote.Peer.Display.{Printer}
use thespis_impl_remote.Peer.BackPressure.{BackPressure, poll_wait}
use thespis_impl_remote.Peer.State
use thespis_impl_remote.Peer.State.{Peer, ServiceMap, Env, Task, Handled, done, panics, ctx, ◌>>=◌}
use thespis_impl_remote.Peer.Outgoing.{
  next_conn_id, send_msg, await_response, handle_call, handle_timeout,
}
use thespis_impl_remote.Peer.Requests.{
  prep_error, report, handle_request_error, handle_close_connection,
}
use thespis_impl_remote.Peer.Incoming.{handle_incoming}
use thespis_impl_remote.Peer.Closing.{Inv, new-Inv, close_lem}
use thespis_impl_remote.Peer.Answers
use thespis_impl_remote.Peer.Numbering
use thespis_impl_remote.Peer.Numbering.{IsDistinct, Reach-IsDistinct}
use thespis_impl_remote.Peer.Answers.{Reach-answers}
use thespis_impl_remote.Peer.Reach
use thespis_impl_remote.Peer.Reach.{
  Reach, Reach-Moves, streamed, timed_out, closes, here, next, Reach-Inv, Reach-closed,
}
use thespis_impl_remote.Peer.Reports.{
  IsFatal, handle_request_error-cid, handle_incoming-err, prep_error-handle_incoming,
}
use thespis_impl_remote.Peer.Slots.{repeat_call, repeat_call-starves}

instance abbrev order : ByteOrder
order = little_endian

abbrev pub printer : Printer
printer = record { show_usize = λ n. "n"; show_sid = λ n. "sid"; show_cid = λ n. "cid" }

-- Stands for the serialization of errors: time-outs with their service, of others only a tag.
abbrev to_cbor : ConnectionError → List ℕ
to_cbor (ConnectionError.timeout s) = 1 ∷ s ∷ []
to_cbor e = 0 ∷ []

abbrev from_cbor : List ℕ → Option ConnectionError
from_cbor (suc t ∷ s ∷ []) = some (ConnectionError.timeout s)
from_cbor _ = none

abbrev pub env : Env
env = record {
  on_send = λ sent msg. none;
  on_close = λ sent. none;
  can_nurse = λ nursery tasks. nursery;
  to_cbor = to_cbor;
  from_cbor = from_cbor;
  printer = printer;
}

abbrev pub slots : BackPressure
slots = record { available = 2; wakers = [] }

abbrev pub peer : Peer
peer = State.new 1 (some "peer") (some slots) none

-- A peer on which a call waits under the connection id 9.
abbrev caller : Peer
caller = record peer { responses = insert 9 4 [] }

abbrev closed_peer : Peer
closed_peer = handle_close_connection env peer false

Reach-Inv_example : Inv closed_peer
Reach-Inv_example =
    Reach-Inv env (new-Inv 1 (some "peer") (some slots) none) (next here (closes false refl))

Reach-closed_example :
    ((handle_close_connection env closed_peer true).closed ≡ true)
    × ((handle_close_connection env closed_peer true).sent ≡ closed_peer.sent)
    × ((handle_close_connection env closed_peer true).replies ≡ closed_peer.replies)
Reach-closed_example =
    Reach-closed env (close_lem env peer false).1 (close_lem env peer false).0
      (next here (closes true refl))

abbrev pub call_frame : ThesWf
call_frame = addressed 7 0 0

-- The peer after it sent that frame as a call.
abbrev pub called : Peer
called = record peer {
  conn_id_counter = 2;
  sent = set_cid call_frame 1 ∷ [];
  next_channel = 1;
  tasks = record { deliveries = []; output = ok Response.nothing } ∷ [];
  timers = (1, sid call_frame) ∷ [];
  responses = insert 1 0 [];
}

-- The same peer, once that call has timed out.
abbrev answered : Peer
answered = handle_timeout env called 1 7

pub calls_once : handle_call env peer call_frame ≡ done (called, ok 0)
unfolding State.new
calls_once = unfold handle_call next_conn_id send_msg await_response in refl

abbrev timed : Reach env peer answered
timed =
    next (next here (Reach.called {q = called} call_frame (ok 0) calls_once)) (timed_out 1 7 refl)

Reach-IsDistinct_example : IsDistinct answered.timers
unfolding Numbering.calls Numbering.step_calls
Reach-IsDistinct_example =
    Reach-IsDistinct env 1 (some "peer") (some slots) none timed (ground arith)

Reach-answers_example :
    (Answers.answers 0 answered.replies ≤ 1)
    × ((c : ConnId) → lookup c answered.responses ≡ some 0 → Answers.answers 0 answered.replies ≡ 0)
unfolding State.new
Reach-answers_example = Reach-answers env 1 (some "peer") (some slots) none timed 0

abbrev pub response : ThesWf
response = write (addressed u64_max 9 0) (5 ∷ [])

abbrev timeout : ConnectionError
timeout = ConnectionError.timeout 7

prep_error-handle_incoming_example :
    (q : Peer) × (handle_incoming env caller (ok (prep_error env 9 timeout)) ≡ done q)
    × (q.replies ≡ (4, err timeout) ∷ [])
    × (lookup 9 q.responses ≡ none)
    × (q.events ≡ [])
unfolding State.new
prep_error-handle_incoming_example =
    prep_error-handle_incoming env caller 9 timeout 4 refl (omega arith) (omega arith) refl
      (lookup-insert_self 9 4 [])

abbrev no_service : PeerErr
no_service = PeerErr.unknown_service (ctx peer (some 7) (some 9) "call")

abbrev told : ConnectionError
told = ConnectionError.unknown_service (some 7) (some 9)

handle_request_error-cid_example :
    (q : Peer) × (handle_request_error env peer no_service ≡ done q)
    × (q.sent ≡ prep_error env 9 told ∷ [])
    × ((q.closed ≡ true) ↔ IsFatal env no_service)
unfolding State.new
handle_request_error-cid_example =
    handle_request_error-cid env peer no_service 9 told false refl refl refl (unfold report in refl)
      refl

handle_incoming-err_example :
    (q : Peer) × (handle_incoming env peer (err (io unexpected_eof)) ≡ done q)
    × (q.closed ≡ false)
    × (q.sent ≡ [])
    × (q.events
        ≡ PeerEvent.error (
            PeerErr.wire_format
              (ctx peer none none "Deserialize Incoming message or IO error.")
              (io unexpected_eof))
          ∷ [])
unfolding State.new
handle_incoming-err_example = handle_incoming-err env peer (io unexpected_eof) refl

repeat_call-starves_example :
    (q : Peer) × (bp : BackPressure) × (repeat_call env 2 peer 9 7 call_frame ≡ done q)
    × (q.closed ≡ false)
    × (q.tasks ≡ [])
    × (q.backpressure ≡ some bp)
    × (bp.available ≡ 0)
    × ((waker : ℕ) → (poll_wait bp waker).0 ≡ pending)
unfolding State.new
repeat_call-starves_example =
    repeat_call-starves env 2 peer 9 7 call_frame slots refl refl refl (omega arith)
      (lookup_empty 7 [] refl)
