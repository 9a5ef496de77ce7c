-- ===== src/Peer/Reach.antt =====
-- What holds of a peer over every sequence of messages that it handles.
use thespis_impl_remote.Common.{
  ◌≡◌, sym, refl, Bool, true, false, Option, none, some, arith, Result, err,
}
use thespis_impl_remote.Wire.ServiceId.{ServiceId}
use thespis_impl_remote.Wire.ConnId.{ConnId}
use thespis_impl_remote.Wire.WireErr.{WireErr}
use thespis_impl_remote.Frame.ByteOrder.{ByteOrder}
use thespis_impl_remote.Frame.ThesWf.{ThesWf, sid, cid}
use thespis_impl_remote.Peer.Errors.{ConnectionError, PeerErr, Response}
use thespis_impl_remote.Peer.State.{Peer, Env, done}
use thespis_impl_remote.Peer.Outgoing.{Called, handle_wire_format, handle_call, handle_timeout}
use thespis_impl_remote.Peer.Requests.{handle_close_connection}
use thespis_impl_remote.Peer.Incoming.{on_stream, on_task_output}
use thespis_impl_remote.Peer.Moves.{
  caller_answered, connection_closed, Moves, stays, one-Move, chain, calling,
}
use thespis_impl_remote.Peer.Handlers.{send_msg-Moves, handle_call-Moves}
use thespis_impl_remote.Peer.Arrivals.{handle_incoming-Moves, on_task_output-Moves}
use thespis_impl_remote.Peer.Closing.{Inv, Moves-Keeps}

module _ ⦃bo : ByteOrder⦄ (env : Env) where
  -- One message taken from the peer's mailbox and handled, from whomever it came.
  pub data Step (p : Peer) : Peer → Type 0 where
    called : {q : Peer} (wf : ThesWf) (r : Called) → handle_call env p wf ≡ done (q, r) → Step p q
    sends : {q : Peer} (wf : ThesWf) → (handle_wire_format env p wf).0 ≡ q → Step p q
    timed_out :
        {q : Peer} (cid : ConnId) (sid : ServiceId) → handle_timeout env p cid sid ≡ q → Step p q
    streamed :
        {q : Peer} (item : Option (Result ThesWf WireErr))
        → on_stream env p item ≡ done q
        → Step p q
    finished :
        {q : Peer} (out : Result Response PeerErr) → on_task_output env p out ≡ done q → Step p q
    closes : {q : Peer} (remote : Bool) → handle_close_connection env p remote ≡ q → Step p q

  pub data Reach (p : Peer) : Peer → Type 0 where
    here : Reach p p
    next : {q r : Peer} → Reach p q → Step q r → Reach p r

  abbrev pub is_call : {p q : Peer} → Step p q → Bool
  is_call (called wf r h) = true
  is_call (sends wf h) = false
  is_call (timed_out cid sid h) = false
  is_call (streamed item h) = false
  is_call (finished out h) = false
  is_call (closes remote h) = false

  pub Step-Moves : {p q : Peer} (s : Step p q) → Moves env (is_call s) p q
  unfolding on_stream handle_wire_format handle_timeout
  Step-Moves {p} {q} (called wf r h) = handle_call-Moves env p wf q r h
  Step-Moves {p} (sends wf h) = chain env (send_msg-Moves env p wf) (stays (sym h))
  Step-Moves (timed_out cid sid h) =
      one-Move env (caller_answered cid (err (ConnectionError.timeout sid)) tt (sym h))
  Step-Moves (streamed none h) = one-Move env (connection_closed true (ground arith))
  Step-Moves {p} {q} (streamed (some msg) h) = handle_incoming-Moves env p msg q h
  Step-Moves {p} {q} (finished out h) = on_task_output-Moves env p out q h
  Step-Moves (closes remote h) = one-Move env (connection_closed remote (sym h))

  pub Reach-Moves : {p q : Peer} → Reach p q → Moves env true p q
  Reach-Moves here = stays refl
  Reach-Moves (next r s) = chain env (Reach-Moves r) (calling env (Step-Moves s))

  -- Through every sequence of messages, in any order, a peer that keeps the invariant goes on to
  -- keep it: open, it has its sink and its address; closed, it holds no sink, address, service or
  -- waiting call, and its nursery is closed.
  pub Reach-Inv : {p q : Peer} → Inv p → Reach p q → Inv q
  Reach-Inv v r = (Moves-Keeps env v (Reach-Moves r)).inv

  -- Whatever messages a closed peer that keeps the invariant handles afterwards, it stays closed,
  -- puts no frame on the wire, and sends no value to a caller.
  pub Reach-closed :
      {p q : Peer}
      → Inv p
      → p.closed ≡ true
      → Reach p q
      → (q.closed ≡ true) × (q.sent ≡ p.sent) × (q.replies ≡ p.replies)
  Reach-closed v c r =
      let k = Moves-Keeps env v (Reach-Moves r) in (k.stays c, (k.silent c).0, (k.silent c).1)
