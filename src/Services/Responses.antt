-- ===== src/Services/Responses.antt =====
-- What a peer sends back for an incoming call, by a relay or by a local actor.
use thespis_impl_remote.Common.{
  ℕ, ◌+◌, ◌<◌, ◌≡◌, refl, ap, ◌∙◌, false, List, ◌∷◌, none, some, arith, length, Result, ok, err,
  lookup,
}
use thespis_impl_remote.Wire.UniqueId.{u64_mod, u64_max}
use thespis_impl_remote.Wire.WireType.{connection_error, call_response, kind_of}
use thespis_impl_remote.Frame.ByteOrder.{ByteOrder}
use thespis_impl_remote.Frame.ThesWf.{ThesWf, len_header, sid, cid, msg, kind, set_cid}
use thespis_impl_remote.Frame.Fields.{IsFramed, set_cid_lem}
use thespis_impl_remote.Frame.Build.{IsWhole}
use thespis_impl_remote.Frame.Addressed.{addressed_lem}
use thespis_impl_remote.Peer.Errors.{ConnectionError, PeerErr, PeerErrCtx, Response}
use thespis_impl_remote.Peer.State.{Env, Peer, done}
use thespis_impl_remote.Peer.Requests.{prep_error}
use thespis_impl_remote.Peer.Reports.{prep_error_lem}
use thespis_impl_remote.Peer.Incoming.{handle_incoming}
use thespis_impl_remote.Peer.Calls.{handle_incoming-response}
use thespis_impl_remote.Services.Address.{
  Relay, CallAnswer, mailbox_closed, send_failed, canceled, received, answered,
}
use thespis_impl_remote.Services.Relay.{on_answer}
use thespis_impl_remote.Services.Local.{respond}

module _ ⦃bo : ByteOrder⦄ (env : Env) where
  -- What the answer to a relayed call leads to.
  data Relayed (frame : ThesWf) (ctx : PeerErrCtx) (relay : Relay)
      : CallAnswer → Result Response PeerErr → Type 0 where
    response :
        {a : CallAnswer} {out : Result Response PeerErr} (resp x : ThesWf)
        → a ≡ received (ok resp)
        → out ≡ ok (Response.call_response x)
        → cid x ≡ cid frame
        → sid x ≡ sid resp
        → msg x ≡ msg resp
        → Relayed frame ctx relay a out
    remote_failed :
        {a : CallAnswer} {out : Result Response PeerErr} (e : ConnectionError) (x : ThesWf)
        → a ≡ received (err e)
        → out ≡ ok (Response.wire_format x)
        → kind x ≡ connection_error
        → cid x ≡ cid frame
        → msg x ≡ env.to_cbor e
        → Relayed frame ctx relay a out
    relay_lost :
        {a : CallAnswer} {out : Result Response PeerErr}
        → out ≡ err (PeerErr.relay_gone ctx relay.id relay.name)
        → Relayed frame ctx relay a out

  -- A relayed call whose connection id fits a u64 ends in one of three ways, where a response that
  -- came back holds a whole header and a serialized error fits a frame. The provider's response
  -- goes out under the connection id of the original call, with its service id and message as they
  -- were; an error of the provider goes out as an error frame under that id; anything else, the
  -- relay being gone, is an error that names the relay.
  on_answer-Relayed :
      (relay : Relay) (frame : ThesWf) (ctx : PeerErrCtx) (a : CallAnswer)
      → cid frame < u64_mod
      → ((resp : ThesWf) → a ≡ received (ok resp) → IsFramed resp)
      → ((e : ConnectionError)
          → a ≡ received (err e)
          → len_header + length (env.to_cbor e) < u64_mod)
      → Relayed frame ctx relay a (on_answer env relay frame ctx a)
  unfolding on_answer
  on_answer-Relayed relay frame ctx mailbox_closed h w f = relay_lost refl
  on_answer-Relayed relay frame ctx (send_failed e) h w f = relay_lost refl
  on_answer-Relayed relay frame ctx canceled h w f = relay_lost refl
  on_answer-Relayed relay frame ctx (received (ok resp)) h w f =
      let set = set_cid_lem resp (cid frame) (w resp refl) h in
      response resp (set_cid resp (cid frame)) refl refl set.0 set.1 set.3
  on_answer-Relayed relay frame ctx (received (err e)) h w f =
      let made = prep_error_lem env (cid frame) e h (f e refl) in
      remote_failed e (prep_error env (cid frame) e) refl refl made.0 made.1 made.2

module _ ⦃bo : ByteOrder⦄ where
  -- The response of a local actor is a frame that the caller's peer takes for a response, under the
  -- connection id of the request and with the actor's serialized answer.
  pub respond_lem :
      (request : ThesWf) (ctx : PeerErrCtx) (bytes : List ℕ)
      → cid request < u64_mod
      → len_header + length bytes < u64_mod
      → (x : ThesWf) × (respond request ctx (answered (some bytes)) ≡ ok (Response.call_response x))
        × (kind x ≡ call_response)
        × (cid x ≡ cid request)
        × (msg x ≡ bytes)
        × IsWhole x
  unfolding respond kind_of
  respond_lem request ctx bytes h fits =
      let a = addressed_lem u64_max (cid request) 0 bytes (omega arith) h fits in
      (_, refl, a.0, a.2, a.3, a.4)

  -- What a local actor answers to a request, where the connection id and the size fit a u64,
  -- becomes a response; an open peer where a call waits under that connection id, when the response
  -- comes, sends it on that call's channel and nothing else, the call waits no longer, and the
  -- message of the response is the bytes answered.
  pub respond-handle_incoming :
      (env : Env) (p : Peer) (request : ThesWf) (ctx : PeerErrCtx) (bytes : List ℕ) (channel : ℕ)
      → cid request < u64_mod
      → len_header + length bytes < u64_mod
      → p.closed ≡ false
      → lookup (cid request) p.responses ≡ some channel
      → (x : ThesWf) × (q : Peer) × (respond request ctx (answered (some bytes))
          ≡ ok (Response.call_response x))
        × (handle_incoming env p (ok x) ≡ done q)
        × (q.replies ≡ (channel, ok x) ∷ p.replies)
        × (msg x ≡ bytes)
        × (lookup (cid request) q.responses ≡ none)
  respond-handle_incoming env p request ctx bytes channel h fits o waits =
      let r = respond_lem request ctx bytes h fits in
      let got =
        handle_incoming-response env p r.0 channel o r.2
          (ap (λ c. lookup c p.responses) r.3 ∙ waits) in
      (r.0, got.0, r.1, got.1, got.2, r.4, ground (arith, got.3 (cid request), r.3))
