-- ===== src/Peer/Numbering.antt =====
-- The connection ids of the calls that a peer makes, over every sequence of messages.
use thespis_impl_remote.Common.{
  ℕ, ◌+◌, ◌<◌, ◌≤◌, ◌≡◌, refl, inl, inr, ◌⊎◌, String, Bool, true, false, List, [], ◌∷◌, none, some,
  arith, Option, ok, err, ◌==◌, ◌||◌,
}
use thespis_impl_remote.Wire.UniqueId.{u64_mod}
use thespis_impl_remote.Wire.ServiceId.{ServiceId}
use thespis_impl_remote.Wire.ConnId.{ConnId}
use thespis_impl_remote.Frame.ByteOrder.{ByteOrder}
use thespis_impl_remote.Frame.ThesWf.{ThesWf, sid}
use thespis_impl_remote.Peer.Errors.{ConnectionError, Response}
use thespis_impl_remote.Peer.BackPressure.{BackPressure}
use thespis_impl_remote.Peer.State.{Peer, Env, new, done}
use thespis_impl_remote.Peer.Outgoing.{
  Called, next_conn_id, send_msg, await_response, handle_call, handle_wire_format, handle_timeout,
  handle_call_response,
}
use thespis_impl_remote.Peer.Incoming.{on_stream, on_task_output}
use thespis_impl_remote.Peer.Reach.{
  Step, called, sends, timed_out, streamed, finished, closes, Reach, here, next,
}
use thespis_impl_remote.Peer.Untouched.{
  resolve-Calm, send_msg-Calm, close-Calm, handle_request_error-Calm, handle_incoming-slots,
}

-- A call was made under the connection id.
unfoldable pub mentions : ConnId → List (ConnId × ServiceId) → Bool
mentions c [] = false
mentions c ((d, s) ∷ calls) = c == d || mentions c calls

-- No two calls were made under one connection id.
unfoldable pub IsDistinct : List (ConnId × ServiceId) → Type 0
IsDistinct [] = Unit {0}
IsDistinct ((c, s) ∷ calls) = (mentions c calls ≡ false) × IsDistinct calls

unfoldable AllBelow : ℕ → List (ConnId × ServiceId) → Type 0
AllBelow n [] = Unit {0}
AllBelow n ((c, s) ∷ calls) = (c < n) × AllBelow n calls

AllBelow-mentions :
    (n : ℕ) (calls : List (ConnId × ServiceId)) → AllBelow n calls → mentions n calls ≡ false
unfolding AllBelow mentions
AllBelow-mentions n [] b = refl
AllBelow-mentions n ((c, s) ∷ calls) b = ground (arith, b.0, AllBelow-mentions n calls b.1)

AllBelow-suc :
    (n : ℕ) (calls : List (ConnId × ServiceId)) → AllBelow n calls → AllBelow (n + 1) calls
unfolding AllBelow
AllBelow-suc n [] b = tt
AllBelow-suc n ((c, s) ∷ calls) b = (omega (arith, b.0), AllBelow-suc n calls b.1)

module _ ⦃bo : ByteOrder⦄ (env : Env) where
  -- How many calls were asked for.
  unfoldable pub step_calls : {p q : Peer} → Step env p q → ℕ
  step_calls (called wf r h) = 1
  step_calls s = 0

  unfoldable pub calls : {p q : Peer} → Reach env p q → ℕ
  calls here = 0
  calls (next r s) = calls r + step_calls s

  -- After at most so many calls.
  record Numbered (n : ℕ) (p : Peer) : Type 0 where
    positive : 0 < p.conn_id_counter
    small : p.conn_id_counter ≤ n + 1
    below : AllBelow p.conn_id_counter p.timers
    distinct : IsDistinct p.timers

  numbers :
      (p : Peer) (wf : ThesWf) (q : Peer) (r : Called)
      → 0 < p.conn_id_counter
      → p.conn_id_counter + 1 < u64_mod
      → handle_call env p wf ≡ done (q, r)
      → ((q.conn_id_counter ≡ p.conn_id_counter) × (q.timers ≡ p.timers))
        ⊎ ((q.conn_id_counter ≡ p.conn_id_counter + 1)
            × ((q.timers ≡ p.timers) ⊎ (q.timers ≡ (p.conn_id_counter, sid wf) ∷ p.timers)))
  unfolding handle_call next_conn_id send_msg await_response
  numbers p wf q r pos small h = ground (arith, h, pos, small)

  Calm-Numbered :
      {n : ℕ} {p q : Peer}
      → Numbered n p
      → q.conn_id_counter ≡ p.conn_id_counter
      → q.timers ≡ p.timers
      → Numbered (n + 0) q
  Calm-Numbered v c t = record {
    positive = omega (arith, c, v.positive);
    small = omega (arith, c, v.small);
    below = rw c (rw t v.below);
    distinct = rw t v.distinct;
  }

  call-Numbered :
      {n : ℕ} (p : Peer) (wf : ThesWf) (q : Peer) (r : Called)
      → n + 2 < u64_mod
      → Numbered n p
      → handle_call env p wf ≡ done (q, r)
      → Numbered (n + 1) q
  unfolding AllBelow IsDistinct
  call-Numbered {n} p wf q r few v h =
      elim (numbers p wf q r v.positive (omega (arith, v.small)) h) [
        | inl (c, t) ↦ record {
          positive = omega (arith, c, v.positive);
          small = omega (arith, c, v.small);
          below = rw c (rw t v.below);
          distinct = rw t v.distinct;
        }
        | inr (c, inl t) ↦ record {
          positive = omega (arith, c);
          small = omega (arith, c, v.small);
          below = rw c (rw t (AllBelow-suc p.conn_id_counter p.timers v.below));
          distinct = rw t v.distinct;
        }
        | inr (c, inr t) ↦ record {
          positive = omega (arith, c);
          small = omega (arith, c, v.small);
          below = rw c (rw t (omega arith, AllBelow-suc p.conn_id_counter p.timers v.below));
          distinct = rw t (AllBelow-mentions p.conn_id_counter p.timers v.below, v.distinct);
        }
      ]

  Step-Numbered :
      {n : ℕ} {p q : Peer} (s : Step env p q)
      → n + step_calls s + 1 < u64_mod
      → Numbered n p
      → Numbered (n + step_calls s) q
  unfolding step_calls on_stream handle_wire_format handle_timeout on_task_output
      handle_call_response
  Step-Numbered {p = p} {q = q} (called wf r h) few v =
      call-Numbered p wf q r (omega (arith, few)) v h
  Step-Numbered {p = p} (sends wf h) few v =
      let c = send_msg-Calm env p wf in
      Calm-Numbered v (ground (arith, h, c)) (ground (arith, h, c))
  Step-Numbered {p = p} (timed_out cid sid h) few v =
      let c = resolve-Calm env p cid (err (ConnectionError.timeout sid)) in
      Calm-Numbered v (ground (arith, h, c)) (ground (arith, h, c))
  Step-Numbered {p = p} (streamed none h) few v =
      let c = close-Calm env p true in Calm-Numbered v (ground (arith, h, c)) (ground (arith, h, c))
  Step-Numbered {p = p} {q = q} (streamed (some item) h) few v =
      elim (handle_incoming-slots env p item q h) [
        | inl (free, c) ↦ Calm-Numbered v c.1 c.2
        | inr (takes, c) ↦ Calm-Numbered v (ground (arith, c)) (ground (arith, c))
      ]
  Step-Numbered {p = p} (finished (ok Response.nothing) h) few v =
      Calm-Numbered v (ground (arith, h)) (ground (arith, h))
  Step-Numbered {p = p} (finished (ok (Response.wire_format x)) h) few v =
      let c = send_msg-Calm env p x in Calm-Numbered v (ground (arith, h, c)) (ground (arith, h, c))
  Step-Numbered {p = p} (finished (ok (Response.call_response x)) h) few v =
      let c = send_msg-Calm env p x in Calm-Numbered v (ground (arith, h, c)) (ground (arith, h, c))
  Step-Numbered {p = p} {q = q} (finished (err e) h) few v =
      let c = handle_request_error-Calm env p e q h in Calm-Numbered v c.1 c.2
  Step-Numbered {p = p} (closes remote h) few v =
      let c = close-Calm env p remote in
      Calm-Numbered v (ground (arith, h, c)) (ground (arith, h, c))

  Reach-Numbered :
      {p q : Peer} (r : Reach env p q) → calls r + 1 < u64_mod → Numbered 0 p → Numbered (calls r) q
  unfolding calls
  Reach-Numbered here few v = v
  Reach-Numbered (next r s) few v = Step-Numbered s few (Reach-Numbered r (omega (arith, few)) v)

  new-Numbered :
      (id : ℕ) (name : Option String) (bp : Option BackPressure) (grace : Option ℕ)
      → Numbered 0 (new id name bp grace)
  unfolding new AllBelow IsDistinct
  new-Numbered id name bp grace = record {
    positive = omega arith;
    small = omega arith;
    below = tt;
    distinct = tt;
  }

  -- Whatever messages a new peer handles, in any order, if it is asked for fewer calls than there
  -- are connection ids but the null one, no two of the calls that it makes have one connection id,
  -- so that none takes the place of another.
  pub Reach-IsDistinct :
      {q : Peer} (id : ℕ) (name : Option String) (bp : Option BackPressure) (grace : Option ℕ)
      (r : Reach env (new id name bp grace) q)
      → calls r + 1 < u64_mod
      → IsDistinct q.timers
  Reach-IsDistinct id name bp grace r few =
      (Reach-Numbered r few (new-Numbered id name bp grace)).distinct
