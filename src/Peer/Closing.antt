-- ===== src/Peer/Closing.antt =====
-- What a peer holds on to while it is open, and what is left of it when it is closed.
use thespis_impl_remote.Common.{
  ℕ, ◌≡◌, refl, Bool, true, false, String, [], Option, arith, lookup_empty, ◌∙◌,
}
use thespis_impl_remote.Wire.ServiceId.{ServiceId}
use thespis_impl_remote.Wire.ConnId.{ConnId}
use thespis_impl_remote.Frame.ByteOrder.{ByteOrder}
use thespis_impl_remote.Peer.BackPressure.{BackPressure}
use thespis_impl_remote.Peer.State.{Peer, Env, Reply, new}
use thespis_impl_remote.Peer.Outgoing.{await_response, resolve}
use thespis_impl_remote.Peer.Requests.{handle_close_connection}
use thespis_impl_remote.Peer.Moves.{
  Move, frame_sent, event_told, task_nursed, slots_set, id_counted, answer_awaited, caller_answered,
  connection_closed, Moves, Moves_ind,
}

-- A closed peer holds no sink, no address, no service and no waiting call; an open one has its
-- address and its sink.
pub record Inv (p : Peer) : Type 0 where
  pub shut :
      p.closed ≡ true
      → (p.outgoing ≡ false)
        × (p.addr ≡ false)
        × (p.services ≡ [])
        × (p.responses ≡ [])
        × (p.nursery_open ≡ false)
  pub alive : p.closed ≡ false → (p.outgoing ≡ true) × (p.addr ≡ true)

-- A handler keeps the invariant, leaves a closed peer closed, and sends nothing for it: no frame
-- and no value on a channel.
pub record Keeps (p q : Peer) : Type 0 where
  pub inv : Inv q
  pub stays : p.closed ≡ true → q.closed ≡ true
  pub silent : p.closed ≡ true → (q.sent ≡ p.sent) × (q.replies ≡ p.replies)

pub new-Inv :
    (id : ℕ) (name : Option String) (bp : Option BackPressure) (grace : Option ℕ)
    → Inv (new id name bp grace)
unfolding new
new-Inv id name bp grace = record { shut = λ e. cc; alive = λ e. (refl, refl) }

module _ ⦃bo : ByteOrder⦄ (env : Env) where
  -- Whatever the peer was, `CloseConnection` leaves it closed: without sink, address, services and
  -- waiting calls, and with its nursery closed.
  pub close_lem :
      (p : Peer) (remote : Bool)
      → ((handle_close_connection env p remote).closed ≡ true)
        × Inv (handle_close_connection env p remote)
  unfolding handle_close_connection
  close_lem p remote = (
    ground arith,
    record { shut = λ e. (ground arith, refl, refl, refl, refl); alive = λ e. ground arith },
  )

  pub close-Keeps : (p : Peer) (remote : Bool) → Keeps p (handle_close_connection env p remote)
  unfolding handle_close_connection
  close-Keeps p remote = record {
    inv = (close_lem p remote).1;
    stays = λ e. (close_lem p remote).0;
    silent = λ e. (ground arith, ground arith);
  }

  same-Keeps : (p : Peer) → Inv p → Keeps p p
  same-Keeps p v = record { inv = v; stays = λ c. c; silent = λ c. (refl, refl) }

  resolve-Keeps : (p : Peer) (cid : ConnId) (r : Reply) → Inv p → Keeps p (resolve env p cid r)
  unfolding resolve
  resolve-Keeps p cid r v = ground (arith, lookup_empty cid p.responses)

  await-Keeps :
      (p : Peer) (sid : ServiceId) (cid : ConnId)
      → Inv p
      → p.closed ≡ false
      → Keeps p (await_response env p sid cid).0
  unfolding await_response
  await-Keeps p sid cid v o = ground arith

  -- Every move keeps a peer well formed.
  pub Move-Keeps : {calls : Bool} (p q : Peer) → Inv p → Move env calls p q → Keeps p q
  Move-Keeps p q v (frame_sent wf out is) = ground arith
  Move-Keeps p q v (event_told e is) = ground arith
  Move-Keeps p q v (task_nursed t is) = ground arith
  Move-Keeps p q v (slots_set bp is) = ground arith
  Move-Keeps p q v (id_counted n is) = ground arith
  Move-Keeps p q v (answer_awaited sid cid may o is) = rw is (await-Keeps p sid cid v o)
  Move-Keeps p q v (caller_answered cid r for is) = rw is (resolve-Keeps p cid r v)
  Move-Keeps p q v (connection_closed remote is) = rw is (close-Keeps p remote)

  pub Moves-Keeps : {calls : Bool} {p q : Peer} → Inv p → Moves env calls p q → Keeps p q
  Moves-Keeps {p = p} v m = Moves_ind env (Keeps p) further m (same-Keeps p v)
    where
      further : {calls : Bool} (q r : Peer) → Keeps p q → Move env calls q r → Keeps p r
      further q r k m =
          let l = Move-Keeps q r k.inv m in
          record {
            inv = l.inv;
            stays = λ c. l.stays (k.stays c);
            silent = λ c. (
              (l.silent (k.stays c)).0 ∙ (k.silent c).0,
              (l.silent (k.stays c)).1 ∙ (k.silent c).1,
            );
          }
