-- ===== src/Peer/Outgoing.antt =====
-- peer.rs, peer/call.rs, peer/call_response.rs, peer/timeout.rs: what the local process sends.
use thespis_impl_remote.Common.{
  ℕ, ◌+◌, ◌%◌, not, [], ◌∷◌, none, some, Result, ok, err, lookup, insert, remove, if◌then◌else◌,
}
use thespis_impl_remote.Wire.UniqueId.{u64_mod}
use thespis_impl_remote.Wire.ServiceId.{ServiceId}
use thespis_impl_remote.Wire.ConnId
use thespis_impl_remote.Wire.ConnId.{ConnId}
use thespis_impl_remote.Frame.ByteOrder.{ByteOrder}
use thespis_impl_remote.Frame.ThesWf.{ThesWf, sid, cid, set_cid}
use thespis_impl_remote.Peer.Errors.{ConnectionError, PeerErr, no_ctx, with_context, nothing}
use thespis_impl_remote.Peer.BackPressure.{add_slots}
use thespis_impl_remote.Peer.State.{Peer, Env, Reply, Handled, done, panics, ctx}

abbrev pub Sent : Type 0
Sent = Result (Unit {0}) PeerErr

-- The number of a oneshot receiver, or why there is none.
abbrev pub Called : Type 0
Called = Result ℕ PeerErr

module _ ⦃bo : ByteOrder⦄ (env : Env) where
  unfoldable pub send_msg : Peer → ThesWf → Peer × Sent
  send_msg p msg =
      if p.outgoing
      then (elim (env.on_send p.sent msg) [
        | none ↦ (record p { sent = msg ∷ p.sent }, ok tt)
        | some source ↦ (
          p,
          err (
              PeerErr.wire_format (ctx p (some (sid msg)) (some (cid msg)) "Sending out WireFormat")
                source),
        )
      ])
      else (p, err (PeerErr.connection_closed (with_context no_ctx "register_relayed_services")))

  -- `Handler<Wf>`
  unfoldable pub handle_wire_format : Peer → ThesWf → Peer × Sent
  unfolding send_msg
  handle_wire_format p msg = send_msg p msg

  -- The next connection id: `fetch_add`, and once more if it gave zero.
  unfoldable pub next_conn_id : Peer → Peer × ConnId
  next_conn_id p =
      let first = p.conn_id_counter in
      let second = (first + 1) % u64_mod in
      if ConnId.is_null first
      then (record p { conn_id_counter = (second + 1) % u64_mod }, second)
      else (record p { conn_id_counter = second }, first)

  -- The task that sends a timeout to the peer is given to the nursery, and the sending half of a
  -- new channel is stored under the connection id.
  unfoldable pub await_response : Peer → ServiceId → ConnId → Peer × Called
  await_response p sid cid =
      let channel = p.next_channel in
      let p' : Peer = record p { next_channel = channel + 1 } in
      if env.can_nurse p'.nursery_open p'.tasks
      then (
        record p' {
          tasks = record { deliveries = []; output = ok nothing } ∷ p'.tasks;
          timers = (cid, sid) ∷ p'.timers;
          responses = insert cid channel p'.responses;
        },
        ok channel,
      )
      else (p', err (PeerErr.spawn (ctx p' (some sid) none "timeout for outgoing Call")))

  -- `Handler<Call>`. Without an address the `unwrap` panics.
  unfoldable pub handle_call : Peer → ThesWf → Handled (Peer × Called)
  handle_call p wf =
      if p.closed
      then done (p, err (PeerErr.connection_closed (ctx p none none "Handler<Call> for Peer")))
      else if not p.addr
      then panics
      else (let (p', cid') = next_conn_id p in
          let (p'', sent) = send_msg p' (set_cid wf cid') in
          elim sent [ err e ↦ done (p'', err e) | ok _ ↦ done (await_response p'' (sid wf) cid') ])

  -- A value is sent on the channel of a connection id, if one waits.
  unfoldable pub resolve : Peer → ConnId → Reply → Peer
  resolve p cid reply = elim (lookup cid p.responses) [
    | none ↦ p
    | some channel ↦ record p {
      responses = remove cid p.responses;
      replies = (channel, reply) ∷ p.replies;
    }
  ]

  -- `Handler<Timeout>`
  unfoldable pub handle_timeout : Peer → ConnId → ServiceId → Peer
  unfolding resolve
  handle_timeout p cid sid = resolve p cid (err (ConnectionError.timeout sid))

  -- `Handler<CallResponse>`: a slot is freed whether the response could be sent or not.
  unfoldable pub handle_call_response : Peer → ThesWf → Peer × Sent
  unfolding send_msg
  handle_call_response p msg =
      let (p', res) = send_msg p msg in
      elim p'.backpressure [
        | none ↦ (p', res)
        | some bp ↦ (record p' { backpressure = some (add_slots bp 1).0 }, res)
      ]
