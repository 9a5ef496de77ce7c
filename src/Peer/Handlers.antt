-- ===== src/Peer/Handlers.antt =====
-- The handlers of peer.rs, peer/call.rs, peer/request_error.rs and their like as sequences of moves.
use thespis_impl_remote.Common.{
  ◌≡◌, refl, ◌∙◌, inl, inr, Bool, true, false, some, arith, ok, err, Bool-cases, Option-cases,
}
use thespis_impl_remote.Wire.ConnId.{ConnId}
use thespis_impl_remote.Frame.ByteOrder.{ByteOrder}
use thespis_impl_remote.Frame.ThesWf.{ThesWf, sid, set_cid}
use thespis_impl_remote.Peer.Errors.{ConnectionError, PeerErr, PeerEvent}
use thespis_impl_remote.Peer.State.{Peer, Env, done, shine}
use thespis_impl_remote.Peer.BackPressure.{add_slots}
use thespis_impl_remote.Peer.Outgoing.{
  Called, Sent, next_conn_id, send_msg, handle_call, handle_call_response,
}
use thespis_impl_remote.Peer.Requests.{prep_error, send_err, try_send, handle_request_error}
use thespis_impl_remote.Peer.Reports.{handle_request_error-Reported, kept_local, sent_out}
use thespis_impl_remote.Peer.Moves.{
  Move, frame_sent, event_told, slots_set, id_counted, answer_awaited, connection_closed, Moves,
  stays, after, one-Move, chain, calling,
}

module _ ⦃bo : ByteOrder⦄ (env : Env) where
  pub send_msg-Moves : (p : Peer) (wf : ThesWf) → Moves env false p (send_msg env p wf).0
  unfolding send_msg
  send_msg-Moves p wf = elim (Bool-cases p.outgoing) [
    | inl out ↦ elim (Option-cases (env.on_send p.sent wf)) [
      | inl takes ↦ one-Move env (frame_sent wf out (ground (arith, out, takes)))
      | inr (e, refuses) ↦ stays (ground (arith, out, refuses))
    ]
    | inr shut ↦ stays (ground (arith, shut))
  ]

  pub handle_call_response-Moves :
      (p : Peer) (wf : ThesWf) → Moves env false p (handle_call_response env p wf).0
  unfolding handle_call_response
  handle_call_response-Moves p wf =
      let q = (send_msg env p wf).0 in
      elim (Option-cases q.backpressure) [
        | inl free ↦ chain env (send_msg-Moves p wf) (stays (ground (arith, free)))
        | inr (bp, bounded) ↦
            after (send_msg-Moves p wf)
              (slots_set (some (add_slots bp 1).0) (ground (arith, bounded)))
      ]

  try_send-Moves :
      (p : Peer) (wf : ThesWf) → p.outgoing ≡ true → Moves env false p (try_send env p wf)
  unfolding try_send
  try_send-Moves p wf out = elim (Option-cases (env.on_send p.sent wf)) [
    | inl takes ↦ one-Move env (frame_sent wf out (ground (arith, takes)))
    | inr (e, refuses) ↦ stays (ground (arith, refuses))
  ]

  pub send_err-Moves :
      (p : Peer) (cid : ConnId) (e : ConnectionError) (close : Bool)
      → Moves env false p (send_err env p cid e close)
  unfolding send_err
  send_err-Moves p cid e close = elim (Bool-cases p.outgoing) [
    | inr shut ↦ stays (ground (arith, shut))
    | inl out ↦ elim (Bool-cases close) [
      | inl closes ↦
          after (try_send-Moves p (prep_error env cid e) out)
            (connection_closed false (ground (arith, out, closes)))
      | inr keeps ↦
          chain env (try_send-Moves p (prep_error env cid e) out)
            (stays (ground (arith, out, keeps)))
    ]
  ]

  pub handle_request_error-Moves :
      (p : Peer) (e : PeerErr) (q : Peer)
      → handle_request_error env p e ≡ done q
      → Moves env false p q
  handle_request_error-Moves p e q h = elim (handle_request_error-Reported env p e q h) [
    | kept_local absent is ↦ one-Move env (event_told e' is)
    | sent_out cid x close present r is ↦
        chain env
          (chain env (one-Move env (event_told e' refl)) (send_err-Moves (shine p e') cid x close))
          (stays is)
  ]
    where
      e' : PeerEvent
      e' = PeerEvent.error e

  pub counted : (p : Peer) → Move env false p (next_conn_id env p).0
  unfolding next_conn_id
  counted p = id_counted (next_conn_id env p).0.conn_id_counter (ground arith)

  sent_open :
      (p : Peer) (wf : ThesWf) → (send_msg env (next_conn_id env p).0 wf).0.closed ≡ p.closed
  unfolding send_msg next_conn_id
  sent_open p wf = ground arith

  pub handle_call-Moves :
      (p : Peer) (wf : ThesWf) (q : Peer) (r : Called)
      → handle_call env p wf ≡ done (q, r)
      → Moves env true p q
  unfolding handle_call
  handle_call-Moves p wf q r h = elim (Bool-cases p.closed) [
    | inl shut ↦ stays (ground (arith, shut))
    | inr open_ ↦ elim (Bool-cases p.addr) [
      | inr absent ↦ absurd (ground (arith, open_, absent))
      | inl present ↦ go open_ present (send_msg env p' msg).1 refl
    ]
  ]
    where
      p' : Peer
      p' = (next_conn_id env p).0

      msg : ThesWf
      msg = set_cid wf (next_conn_id env p).1

      tried : Moves env false p (send_msg env p' msg).0
      tried = chain env (one-Move env (counted p)) (send_msg-Moves p' msg)

      go :
          p.closed ≡ false
          → p.addr ≡ true
          → (s : Sent) → (send_msg env p' msg).1 ≡ s
          → Moves env true p q
      go o a (err e) is = chain env (calling env tried) (stays (ground (arith, o, a, is)))
      go o a (ok u) is = after (calling env tried) (
          answer_awaited (sid wf) (next_conn_id env p).1 refl (sent_open p msg ∙ o)
            (ground (arith, o, a, is)))
