-- ===== src/Peer/Calls.antt =====
-- Outgoing calls: their identifiers, and the one answer that each gets.
use thespis_impl_remote.Common.{
  ℕ, ◌<◌, ◌≡◌, ◌≢◌, refl, true, false, ◌∷◌, none, some, arith, ok, lookup, lookup-insert_self,
  lookup-remove, remove, ◌==◌,
}
use thespis_impl_remote.Wire.UniqueId.{u64_mod}
use thespis_impl_remote.Wire.ConnId.{ConnId}
use thespis_impl_remote.Wire.WireType.{call_response}
use thespis_impl_remote.Frame.ByteOrder.{ByteOrder}
use thespis_impl_remote.Frame.ThesWf.{ThesWf, sid, cid, set_cid, kind}
use thespis_impl_remote.Peer.State.{Peer, Env, done}
use thespis_impl_remote.Peer.Outgoing.{next_conn_id, send_msg, await_response, handle_call, resolve}
use thespis_impl_remote.Peer.Incoming.{handle_incoming, on_frame}

module _ ⦃bo : ByteOrder⦄ (env : Env) where
  -- If the counter fits a u64, the connection id given to a call is not null and fits a u64, and
  -- the counter fits one afterwards, also when it wraps.
  pub next_conn_id_lem :
      (p : Peer)
      → p.conn_id_counter < u64_mod
      → ((next_conn_id env p).1 ≢ 0)
        × ((next_conn_id env p).1 < u64_mod)
        × ((next_conn_id env p).0.conn_id_counter < u64_mod)
  unfolding next_conn_id
  next_conn_id_lem p h = ground arith

  -- What a call that succeeds has done.
  pub record Waiting (p : Peer) (wf : ThesWf) (q : Peer) (channel : ℕ) : Type 0 where
    pub was_open : p.closed ≡ false
    pub went_out : q.sent ≡ set_cid wf (next_conn_id env p).1 ∷ p.sent
    pub fresh : channel ≡ p.next_channel
    pub waits : lookup (next_conn_id env p).1 q.responses ≡ some channel
    pub timed : q.timers ≡ ((next_conn_id env p).1, sid wf) ∷ p.timers
    pub still_open : q.closed ≡ false

  -- A call that is given a channel was made by an open peer that stays open; its frame went out
  -- under the next connection id, the channel is a new one and waits under that id, and a timeout
  -- was started for the id and the service.
  pub handle_call_lem :
      (p : Peer) (wf : ThesWf) (q : Peer) (channel : ℕ)
      → handle_call env p wf ≡ done (q, ok channel)
      → Waiting p wf q channel
  unfolding handle_call next_conn_id send_msg await_response
  handle_call_lem p wf q channel h =
      ground (arith, lookup-insert_self (next_conn_id env p).1 p.next_channel p.responses)

  -- A response that comes to an open peer where a channel waits under its connection id is sent on
  -- that channel and on no other; that entry is gone, and every other call goes on waiting.
  pub handle_incoming-response :
      (p : Peer) (frame : ThesWf) (channel : ℕ)
      → p.closed ≡ false
      → kind frame ≡ call_response
      → lookup (cid frame) p.responses ≡ some channel
      → (q : Peer) × (handle_incoming env p (ok frame) ≡ done q)
        × (q.replies ≡ (channel, ok frame) ∷ p.replies)
        × ((k : ConnId)
            → lookup k q.responses
              ≡ (elim (k == cid frame) [ true ↦ none | false ↦ lookup k p.responses ]))
  unfolding handle_incoming on_frame resolve
  handle_incoming-response p frame channel o k w = (
    record p {
      responses = remove (cid frame) p.responses;
      replies = (channel, ok frame) ∷ p.replies;
    },
    ground arith,
    refl,
    λ k. ground (arith, lookup-remove k (cid frame) p.responses),
  )
