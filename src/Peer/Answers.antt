-- ===== src/Peer/Answers.antt =====
-- Every caller is answered at most once, over every sequence of messages that a peer handles.
use thespis_impl_remote.Common.{
  ℕ, ◌+◌, ◌≤◌, ◌≡◌, refl, String, List, [], ◌∷◌, Option, some, arith, Map, lookup, insert, remove,
  ◌==◌, if◌then◌else◌, inl, inr, Option-cases, Bool,
}
use thespis_impl_remote.Wire.ServiceId.{ServiceId}
use thespis_impl_remote.Wire.ConnId.{ConnId}
use thespis_impl_remote.Frame.ByteOrder.{ByteOrder}
use thespis_impl_remote.Peer.BackPressure.{BackPressure}
use thespis_impl_remote.Peer.State.{Peer, Env, Reply, new}
use thespis_impl_remote.Peer.Outgoing.{await_response, resolve}
use thespis_impl_remote.Peer.Requests.{handle_close_connection}
use thespis_impl_remote.Peer.Moves.{
  Move, frame_sent, event_told, task_nursed, slots_set, id_counted, answer_awaited, caller_answered,
  connection_closed, Moves_ind,
}
use thespis_impl_remote.Peer.Reach.{Reach, Reach-Moves}

-- How often a channel waits.
unfoldable pub waiting : ℕ → Map ℕ → ℕ
waiting k [] = 0
waiting k ((c, v) ∷ m) = (if k == v then 1 else 0) + waiting k m

-- How many values were sent on a channel.
unfoldable pub answers : ℕ → List (ℕ × Reply) → ℕ
answers k [] = 0
answers k ((v, r) ∷ m) = (if k == v then 1 else 0) + answers k m

waiting-remove-le : (k c : ℕ) (m : Map ℕ) → waiting k (remove c m) ≤ waiting k m
unfolding waiting remove
waiting-remove-le k c [] = omega arith
waiting-remove-le k c ((j, v) ∷ m) = ground (arith, waiting-remove-le k c m)

-- An entry that is found is gone once it is removed.
waiting-remove :
    (k c v : ℕ) (m : Map ℕ)
    → lookup c m ≡ some v
    → waiting k (remove c m) + (if k == v then 1 else 0) ≤ waiting k m
unfolding waiting remove lookup
waiting-remove k c v [] h = absurd (ground arith)
waiting-remove k c v ((j, w) ∷ m) h =
    ground (arith, waiting-remove k c v m, waiting-remove-le k c m)

waiting-insert-le :
    (k c v : ℕ) (m : Map ℕ) → waiting k (insert c v m) ≤ (if k == v then 1 else 0) + waiting k m
unfolding waiting insert
waiting-insert-le k c v m = ground (arith, waiting-remove-le k c m)

waiting-some : (k c : ℕ) (m : Map ℕ) → lookup c m ≡ some k → 1 ≤ waiting k m
unfolding waiting lookup
waiting-some k c [] h = absurd (ground arith)
waiting-some k c ((j, w) ∷ m) h = ground (arith, waiting-some k c m)

-- A channel waits or was answered, once, and not before it is made.
record IsOnce (k : ℕ) (p : Peer) : Type 0 where
  once : waiting k p.responses + answers k p.replies ≤ 1
  fresh : p.next_channel ≤ k → waiting k p.responses + answers k p.replies ≡ 0

new-IsOnce :
    (k id : ℕ) (name : Option String) (bp : Option BackPressure) (grace : Option ℕ)
    → IsOnce k (new id name bp grace)
unfolding new waiting answers
new-IsOnce k id name bp grace = record { once = omega arith; fresh = λ h. refl }

module _ ⦃bo : ByteOrder⦄ (env : Env) where
  resolve-IsOnce :
      (k : ℕ) (p : Peer) (cid : ConnId) (r : Reply) → IsOnce k p → IsOnce k (resolve env p cid r)
  unfolding resolve answers
  resolve-IsOnce k p cid r o = elim (Option-cases (lookup cid p.responses)) [
    | inl absent ↦ ground (arith, absent)
    | inr (v, present) ↦ ground (arith, present, waiting-remove k cid v p.responses present)
  ]

  await-IsOnce :
      (k : ℕ) (p : Peer) (sid : ServiceId) (cid : ConnId)
      → IsOnce k p
      → IsOnce k (await_response env p sid cid).0
  unfolding await_response
  await-IsOnce k p sid cid o = ground (arith, waiting-insert-le k cid p.next_channel p.responses)

  close-IsOnce :
      (k : ℕ) (p : Peer) (remote : Bool)
      → IsOnce k p
      → IsOnce k (handle_close_connection env p remote)
  unfolding handle_close_connection waiting
  close-IsOnce k p remote o = ground arith

  Move-IsOnce : {calls : Bool} (k : ℕ) (p q : Peer) → IsOnce k p → Move env calls p q → IsOnce k q
  Move-IsOnce k p q o (frame_sent wf out is) = ground arith
  Move-IsOnce k p q o (event_told e is) = ground arith
  Move-IsOnce k p q o (task_nursed t is) = ground arith
  Move-IsOnce k p q o (slots_set bp is) = ground arith
  Move-IsOnce k p q o (id_counted n is) = ground arith
  Move-IsOnce k p q o (answer_awaited sid cid may opened is) = rw is (await-IsOnce k p sid cid o)
  Move-IsOnce k p q o (caller_answered cid r for is) = rw is (resolve-IsOnce k p cid r o)
  Move-IsOnce k p q o (connection_closed remote is) = rw is (close-IsOnce k p remote o)

  -- Whatever messages a new peer handles, in any order, on each channel at most one value is sent;
  -- and on a channel that still waits for an answer none was sent.
  pub Reach-answers :
      (id : ℕ) (name : Option String) (bp : Option BackPressure) (grace : Option ℕ) {q : Peer}
      → Reach env (new id name bp grace) q
      → (k : ℕ)
      → (answers k q.replies ≤ 1)
        × ((c : ConnId) → lookup c q.responses ≡ some k → answers k q.replies ≡ 0)
  Reach-answers id name bp grace {q} r k =
      let o =
        Moves_ind env (IsOnce k) (Move-IsOnce k) (Reach-Moves env r)
          (new-IsOnce k id name bp grace) in
      (omega (arith, o.once), λ c h. omega (arith, o.once, waiting-some k c q.responses h))
