-- ===== src/Peer/Matching.antt =====
-- Which response a caller is given, over every sequence of messages that a peer handles.
use thespis_impl_remote.Common.{
  ℕ, ◌≡◌, refl, sym, ap, ◌∙◌, inl, inr, ◌⊎◌, String, Bool, List, [], ◌∷◌, some, arith, Option, ok,
  err, true, false, lookup, remove, subst, lookup-insert, lookup-remove, ◌==◌, Bool-cases,
  Option-cases,
}
use thespis_impl_remote.Wire.ServiceId.{ServiceId}
use thespis_impl_remote.Wire.ConnId.{ConnId}
use thespis_impl_remote.Frame.ByteOrder.{ByteOrder}
use thespis_impl_remote.Frame.ThesWf.{ThesWf, cid, sid, set_cid}
use thespis_impl_remote.Peer.BackPressure.{BackPressure}
use thespis_impl_remote.Peer.State.{Peer, Env, Reply, new, done}
use thespis_impl_remote.Peer.Outgoing.{
  Called, Sent, next_conn_id, send_msg, await_response, handle_call, resolve,
}
use thespis_impl_remote.Peer.Requests.{handle_close_connection}
use thespis_impl_remote.Peer.Moves.{
  IsFor, Move, frame_sent, event_told, task_nursed, slots_set, id_counted, answer_awaited,
  caller_answered, connection_closed, Moves, stays, after, one-Move, chain,
}
use thespis_impl_remote.Peer.Handlers.{counted, send_msg-Moves}
use thespis_impl_remote.Peer.Reach.{
  Step, called, sends, timed_out, streamed, finished, closes, Reach, here, next, Step-Moves,
}

-- A frame was sent on a channel.
unfoldable pub IsGiven : ⦃bo : ByteOrder⦄ → ℕ → ThesWf → List (ℕ × Reply) → Type 0
IsGiven k frame [] = ⊥
IsGiven k frame ((j, r) ∷ given) = ((j ≡ k) × (r ≡ ok frame)) ⊎ IsGiven k frame given

module _ ⦃bo : ByteOrder⦄ (env : Env) where
  -- A call was given the channel, and put its frame on the wire under the connection id.
  unfoldable pub Calls : {p q : Peer} → Step env p q → ℕ → ConnId → Type 0
  Calls {p} {q} (called wf r h) k c = (r ≡ ok k) × (q.sent ≡ set_cid wf c ∷ p.sent)
  Calls s k c = ⊥

  -- One of the messages was such a call.
  unfoldable pub HasCalled : {p q : Peer} → Reach env p q → ℕ → ConnId → Type 0
  HasCalled here k c = ⊥
  HasCalled (next r s) k c = HasCalled r k c ⊎ Calls s k c

  -- What waits, and what was given, belongs to a channel and the call it was made for.
  record IsMatched (p : Peer) (O : ℕ → ConnId → Type 0) : Type 0 where
    waits : (c : ConnId) (k : ℕ) → lookup c p.responses ≡ some k → O k c
    given : (k : ℕ) (frame : ThesWf) → IsGiven k frame p.replies → O k (cid frame)

  -- Nothing waits or was given that was not before.
  grows :
      {p q : Peer} {O Q : ℕ → ConnId → Type 0}
      → IsMatched p O
      → q.responses ≡ p.responses
      → q.replies ≡ p.replies
      → ((k : ℕ) (c : ConnId) → O k c → Q k c)
      → IsMatched q Q
  grows v r s w = record {
    waits = λ c k h. w k c (v.waits c k (sym (ap (lookup c) r) ∙ h));
    given = λ k frame h. w k (cid frame) (v.given k frame (rw (sym s) h));
  }

  -- One caller was answered.
  answers_one :
      {p q : Peer} {O Q : ℕ → ConnId → Type 0} (c : ConnId) (j : ℕ) (r : Reply)
      → IsMatched p O
      → q.responses ≡ remove c p.responses
      → q.replies ≡ (j, r) ∷ p.replies
      → lookup c p.responses ≡ some j
      → IsFor env c r
      → ((k : ℕ) (c : ConnId) → O k c → Q k c)
      → IsMatched q Q
  unfolding IsGiven
  answers_one {p} {q} {O} {Q} c j r v left told there for w = record {
    waits = λ d k h. elim (Bool-cases (d == c)) [
      | inl same ↦ absurd (ground (arith, same, h, left, lookup-remove d c p.responses))
      | inr apart ↦
          w k d (v.waits d k (ground (arith, apart, h, left, lookup-remove d c p.responses)))
    ];
    given = λ k frame h. go k frame (subst (IsGiven k frame) told h);
  }
    where
      go : (k : ℕ) (frame : ThesWf) → IsGiven k frame ((j, r) ∷ p.replies) → Q k (cid frame)
      go k frame (inl (same, is)) =
          let mine : cid frame ≡ c = subst (IsFor env c) is for in
          w k (cid frame)
            (v.waits (cid frame) k (ap (λ d. lookup d p.responses) mine ∙ there ∙ ap some same))
      go k frame (inr before) = w k (cid frame) (v.given k frame before)

  resolve-IsMatched :
      {p : Peer} {O Q : ℕ → ConnId → Type 0} (c : ConnId) (r : Reply)
      → IsMatched p O
      → IsFor env c r
      → ((k : ℕ) (c : ConnId) → O k c → Q k c)
      → IsMatched (resolve env p c r) Q
  unfolding resolve
  resolve-IsMatched {p} c r v for w = elim (Option-cases (lookup c p.responses)) [
    | inl absent ↦ grows v (ground (arith, absent)) (ground (arith, absent)) w
    | inr (j, there) ↦
        answers_one c j r v (ground (arith, there)) (ground (arith, there)) there for w
  ]

  await-IsMatched :
      {p : Peer} {O Q : ℕ → ConnId → Type 0} (s : ServiceId) (c : ConnId)
      → IsMatched p O
      → ((k : ℕ) (d : ConnId) → O k d → Q k d)
      → (env.can_nurse p.nursery_open p.tasks ≡ true → Q p.next_channel c)
      → IsMatched (await_response env p s c).0 Q
  unfolding await_response
  await-IsMatched {p} {O} {Q} s c v w opened =
      elim (Bool-cases (env.can_nurse p.nursery_open p.tasks)) [
        | inl taken ↦ record {
          waits = λ d k h. elim (Bool-cases (d == c)) [
            | inl same ↦
                subst2 Q
                  (ground (arith, taken, same, h, lookup-insert d c p.next_channel p.responses))
                  (ground (arith, same)) (opened taken)
            | inr apart ↦ w k d (
                v.waits d k
                  (ground (arith, taken, apart, h, lookup-insert d c p.next_channel p.responses)))
          ];
          given = λ k frame h. w k (cid frame) (v.given k frame (ground (arith, taken, h)));
        }
        | inr full ↦ grows v (ground (arith, full)) (ground (arith, full)) w
      ]
    where
      subst2 : (R : ℕ → ConnId → Type 0) {k l : ℕ} {c d : ConnId} → k ≡ l → c ≡ d → R k c → R l d
      subst2 R {k} {l} {c} {d} a b x = subst (λ e. R l e) b (subst (λ e. R e c) a x)

  close-IsMatched :
      {p : Peer} {O Q : ℕ → ConnId → Type 0} (remote : Bool)
      → IsMatched p O
      → ((k : ℕ) (c : ConnId) → O k c → Q k c)
      → IsMatched (handle_close_connection env p remote) Q
  unfolding handle_close_connection lookup
  close-IsMatched remote v w = record {
    waits = λ c k h. absurd (ground (arith, h));
    given = λ k frame h. w k (cid frame) (v.given k frame (ground (arith, h)));
  }

  -- Moves without a call open nothing.
  Move-IsMatched :
      {p q : Peer} {O : ℕ → ConnId → Type 0} → Move env false p q → IsMatched p O → IsMatched q O
  Move-IsMatched (frame_sent wf out is) v =
      grows v (ap (λ p. p.responses) is) (ap (λ p. p.replies) is) (λ k c o. o)
  Move-IsMatched (event_told e is) v =
      grows v (ap (λ p. p.responses) is) (ap (λ p. p.replies) is) (λ k c o. o)
  Move-IsMatched (task_nursed t is) v =
      grows v (ap (λ p. p.responses) is) (ap (λ p. p.replies) is) (λ k c o. o)
  Move-IsMatched (slots_set bp is) v =
      grows v (ap (λ p. p.responses) is) (ap (λ p. p.replies) is) (λ k c o. o)
  Move-IsMatched (id_counted n is) v =
      grows v (ap (λ p. p.responses) is) (ap (λ p. p.replies) is) (λ k c o. o)
  Move-IsMatched (answer_awaited s c may opened is) v = absurd (ground (arith, may))
  Move-IsMatched (caller_answered c r for is) v = rw is (resolve-IsMatched c r v for (λ k d o. o))
  Move-IsMatched (connection_closed remote is) v = rw is (close-IsMatched remote v (λ k d o. o))

  Moves-IsMatched :
      {p q : Peer} {O : ℕ → ConnId → Type 0} → Moves env false p q → IsMatched p O → IsMatched q O
  Moves-IsMatched (stays e) v =
      grows v (ap (λ p. p.responses) e) (ap (λ p. p.replies) e) (λ k c o. o)
  Moves-IsMatched (after ms m) v = Move-IsMatched m (Moves-IsMatched ms v)

  handle_call-IsMatched :
      {p q : Peer} {O : ℕ → ConnId → Type 0} (wf : ThesWf) (r : Called)
      (h : handle_call env p wf ≡ done (q, r))
      → IsMatched p O
      → IsMatched q (λ k c. O k c ⊎ Calls (called wf r h) k c)
  unfolding handle_call Calls
  handle_call-IsMatched {p} {q} {O} wf r h v = elim (Bool-cases p.closed) [
    | inl shut ↦ grows v (ground (arith, shut)) (ground (arith, shut)) (λ k c o. inl o)
    | inr open_ ↦ elim (Bool-cases p.addr) [
      | inr absent ↦ absurd (ground (arith, open_, absent))
      | inl present ↦ go open_ present (send_msg env p' msg).1 refl
    ]
  ]
    where
      c : ConnId
      c = (next_conn_id env p).1

      p' : Peer
      p' = (next_conn_id env p).0

      msg : ThesWf
      msg = set_cid wf c

      p'' : Peer
      p'' = (send_msg env p' msg).0

      O' : ℕ → ConnId → Type 0
      O' k d = O k d ⊎ Calls (called wf r h) k d

      tried : IsMatched p'' O
      tried =
          Moves-IsMatched (chain env (one-Move env (counted env p)) (send_msg-Moves env p' msg)) v

      went_out : (u : Unit {0}) → (send_msg env p' msg).1 ≡ ok u → p''.sent ≡ msg ∷ p.sent
      went_out u is = unfold send_msg next_conn_id in ground (arith, is)

      go :
          p.closed ≡ false
          → p.addr ≡ true
          → (s : Sent) → (send_msg env p' msg).1 ≡ s
          → IsMatched q O'
      go o a (err e) is =
          grows tried (ground (arith, o, a, is)) (ground (arith, o, a, is)) (λ k d x. inl x)
      go o a (ok u) is =
          let waits : (await_response env p'' (sid wf) c) ≡ (q, r) = ground (arith, o, a, is) in
          subst (λ (x : Peer). IsMatched x O') (ap (λ (x : Peer × Called). x.0) waits)
            (await-IsMatched (sid wf) c tried (λ k d x. inl x)
              (λ taken. inr (
                unfold await_response in ground (arith, waits, taken),
                unfold await_response in ground (arith, waits, taken, went_out u is),
              )))

  new-IsMatched :
      (id : ℕ) (name : Option String) (bp : Option BackPressure) (grace : Option ℕ)
      → IsMatched (new id name bp grace) (λ k c. ⊥)
  unfolding new lookup IsGiven
  new-IsMatched id name bp grace = record {
    waits = λ c k h. absurd (ground (arith, h));
    given = λ k frame h. h;
  }

  Step-IsMatched :
      {p q : Peer} {O : ℕ → ConnId → Type 0} (s : Step env p q)
      → IsMatched p O
      → IsMatched q (λ k c. O k c ⊎ Calls s k c)
  Step-IsMatched (called wf r h) v = handle_call-IsMatched wf r h v
  Step-IsMatched (sends wf h) v =
      grows (Moves-IsMatched (Step-Moves env (sends wf h)) v) refl refl (λ k c o. inl o)
  Step-IsMatched (timed_out cid sid h) v =
      grows (Moves-IsMatched (Step-Moves env (timed_out cid sid h)) v) refl refl (λ k c o. inl o)
  Step-IsMatched (streamed item h) v =
      grows (Moves-IsMatched (Step-Moves env (streamed item h)) v) refl refl (λ k c o. inl o)
  Step-IsMatched (finished out h) v =
      grows (Moves-IsMatched (Step-Moves env (finished out h)) v) refl refl (λ k c o. inl o)
  Step-IsMatched (closes remote h) v =
      grows (Moves-IsMatched (Step-Moves env (closes remote h)) v) refl refl (λ k c o. inl o)

  Reach-IsMatched :
      {p q : Peer} (r : Reach env p q) → IsMatched p (λ k c. ⊥) → IsMatched q (HasCalled r)
  unfolding HasCalled
  Reach-IsMatched here v = v
  Reach-IsMatched (next r s) v = Step-IsMatched s (Reach-IsMatched r v)

  -- Whatever messages a new peer handles, in any order: a response that it sends on a channel bears
  -- the connection id under which a call that it handled put its frame on the wire, and this is the
  -- call that was given the channel.
  pub Reach-HasCalled :
      {q : Peer} (id : ℕ) (name : Option String) (bp : Option BackPressure) (grace : Option ℕ)
      (r : Reach env (new id name bp grace) q) (k : ℕ) (frame : ThesWf)
      → IsGiven k frame q.replies
      → HasCalled r k (cid frame)
  Reach-HasCalled id name bp grace r k frame h =
      (Reach-IsMatched r (new-IsMatched id name bp grace)).given k frame h
