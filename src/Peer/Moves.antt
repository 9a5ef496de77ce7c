-- ===== src/Peer/Moves.antt =====
-- The elementary changes of a peer. Every handler makes a sequence of them, so that what each of
-- them keeps is kept by every handler.
use thespis_impl_remote.Common.{ℕ, ◌≡◌, refl, subst, sym, Bool, true, false, ◌∷◌, Option, ok, err}
use thespis_impl_remote.Wire.ServiceId.{ServiceId}
use thespis_impl_remote.Wire.ConnId.{ConnId}
use thespis_impl_remote.Frame.ByteOrder.{ByteOrder}
use thespis_impl_remote.Frame.ThesWf.{ThesWf, cid}
use thespis_impl_remote.Peer.Errors.{PeerEvent}
use thespis_impl_remote.Peer.BackPressure.{BackPressure}
use thespis_impl_remote.Peer.State.{Peer, Env, Task, Reply, shine}
use thespis_impl_remote.Peer.Outgoing.{await_response, resolve}
use thespis_impl_remote.Peer.Requests.{handle_close_connection}

module _ ⦃bo : ByteOrder⦄ (env : Env) where
  -- A response answers the call of its connection id; an error may be for any.
  abbrev pub IsFor : ConnId → Reply → Type 0
  IsFor c (ok frame) = cid frame ≡ c
  IsFor c (err e) = Unit {0}

  -- Each move tells the new state by an equation. Only a call waits for an answer.
  pub data Move (calls : Bool) (p q : Peer) : Type 0 where
    frame_sent :
        (wf : ThesWf) → p.outgoing ≡ true → q ≡ record p { sent = wf ∷ p.sent } → Move calls p q
    event_told : (e : PeerEvent) → q ≡ shine p e → Move calls p q
    task_nursed : (t : Task) → q ≡ record p { tasks = t ∷ p.tasks } → Move calls p q
    slots_set : (bp : Option BackPressure) → q ≡ record p { backpressure = bp } → Move calls p q
    id_counted : (n : ℕ) → q ≡ record p { conn_id_counter = n } → Move calls p q
    answer_awaited :
        (sid : ServiceId) (cid : ConnId)
        → calls ≡ true
        → p.closed ≡ false
        → q ≡ (await_response env p sid cid).0
        → Move calls p q
    caller_answered :
        (cid : ConnId) (r : Reply) → IsFor cid r → q ≡ resolve env p cid r → Move calls p q
    connection_closed : (remote : Bool) → q ≡ handle_close_connection env p remote → Move calls p q

  pub data Moves (calls : Bool) (p : Peer) : Peer → Type 0 where
    stays : {q : Peer} → q ≡ p → Moves calls p q
    after : {q r : Peer} → Moves calls p q → Move calls q r → Moves calls p r

  pub one-Move : {calls : Bool} {p q : Peer} → Move calls p q → Moves calls p q
  one-Move m = after (stays refl) m

  pub chain : {calls : Bool} {p q r : Peer} → Moves calls p q → Moves calls q r → Moves calls p r
  chain {calls} {p} a (stays e) = subst (Moves calls p) (sym e) a
  chain a (after b m) = after (chain a b) m

  calling_one : {calls : Bool} {p q : Peer} → Move calls p q → Move true p q
  calling_one (frame_sent wf out is) = frame_sent wf out is
  calling_one (event_told e is) = event_told e is
  calling_one (task_nursed t is) = task_nursed t is
  calling_one (slots_set bp is) = slots_set bp is
  calling_one (id_counted n is) = id_counted n is
  calling_one (answer_awaited sid cid may o is) = answer_awaited sid cid refl o is
  calling_one (caller_answered cid r for is) = caller_answered cid r for is
  calling_one (connection_closed remote is) = connection_closed remote is

  -- Moves without a call are moves that may have one.
  pub calling : {calls : Bool} {p q : Peer} → Moves calls p q → Moves true p q
  calling (stays e) = stays e
  calling (after a m) = after (calling a) (calling_one m)

  -- What every move keeps, every sequence of moves keeps.
  pub Moves_ind :
      {calls : Bool} (P : Peer → Type 0)
      → ((p q : Peer) → P p → Move calls p q → P q)
      → {p q : Peer} → Moves calls p q
      → P p
      → P q
  Moves_ind P keep (stays e) h = subst P (sym e) h
  Moves_ind P keep (after a m) h = keep _ _ (Moves_ind P keep a h) m
