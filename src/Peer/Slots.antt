-- ===== src/Peer/Slots.antt =====
-- The slots of the back pressure over the life of an incoming call.
use thespis_impl_remote.Common.{
  ℕ, zero, suc, ap, ◌∙◌, ◌+◌, ◌%◌, ◌<◌, ◌≡◌, ◌↔◌, refl, Bool, true, false, List, [], ◌∷◌, none,
  some, arith, ok, lookup, pending, ready,
}
use thespis_impl_remote.Wire.UniqueId.{u64_mod}
use thespis_impl_remote.Wire.ServiceId.{ServiceId}
use thespis_impl_remote.Wire.ConnId.{ConnId}
use thespis_impl_remote.Frame.ByteOrder.{ByteOrder}
use thespis_impl_remote.Frame.ThesWf.{ThesWf}
use thespis_impl_remote.Peer.Errors.{ConnectionError, PeerErr, PeerEvent, Response}
use thespis_impl_remote.Peer.BackPressure.{
  BackPressure, is_positive, add_slots, remove_slots, poll_wait, i64_half,
}
use thespis_impl_remote.Peer.State.{Peer, ServiceMap, Task, Env, Handled, done, panics, ctx}
use thespis_impl_remote.Peer.Outgoing.{send_msg, handle_call_response}
use thespis_impl_remote.Peer.Requests.{
  send_err, try_send, report, handle_request_error, handle_close_connection,
}
use thespis_impl_remote.Peer.Incoming.{on_incoming_call, on_task_output, nurse, take_slot}

-- Slots that are taken and given back leave the count as it was, whatever its sign, if the number
-- of slots fits a u64.
pub add_slots-remove_slots :
    (bp : BackPressure) (n : ℕ)
    → bp.available < u64_mod
    → n < u64_mod
    → (add_slots (remove_slots bp n) n).0.available ≡ bp.available
unfolding add_slots remove_slots
add_slots-remove_slots bp n h k = ground arith

-- When added slots bring the count from none free to some free, the task that waits longest is
-- woken, and no other; the rest stay in line.
add_slots_wakes :
    (bp : BackPressure) (n w : ℕ) (rest : List ℕ)
    → bp.wakers ≡ w ∷ rest
    → is_positive bp.available ≡ false
    → is_positive ((bp.available + n) % u64_mod) ≡ true
    → ((add_slots bp n).1 ≡ w ∷ []) × ((add_slots bp n).0.wakers ≡ rest)
unfolding add_slots
add_slots_wakes bp n w rest e a b = (ground arith, ground arith)

-- A task that polls for a slot goes on if and only if the count, read as a signed number, is above
-- zero, and the count does not change by it.
poll_wait_iff :
    (bp : BackPressure) (waker : ℕ)
    → (((poll_wait bp waker).0 ≡ ready tt) ↔ ((0 < bp.available) × (bp.available < i64_half)))
      × ((poll_wait bp waker).1.available ≡ bp.available)
unfolding poll_wait
poll_wait_iff bp waker = (((λ a. ground arith), (λ a. ground arith)), ground arith)

module _ ⦃bo : ByteOrder⦄ (env : Env) where
  send_err_slots :
      (p : Peer) (c : ConnId) (x : ConnectionError) (close : Bool)
      → ((send_err env p c x close).backpressure ≡ p.backpressure)
        × ((send_err env p c x close).tasks ≡ p.tasks)
  unfolding send_err try_send handle_close_connection
  send_err_slots p c x close = (ground arith, ground arith)

  send_err_open :
      (p : Peer) (c : ConnId) (x : ConnectionError)
      → ((send_err env p c x false).closed ≡ p.closed)
        × ((send_err env p c x false).services ≡ p.services)
  unfolding send_err try_send
  send_err_open p c x = (ground arith, ground arith)

  -- What a call to an unknown service leaves behind.
  record Refused (p q : Peer) (bp : BackPressure) : Type 0 where
    slots : q.backpressure ≡ some (remove_slots bp 1)
    tasks : q.tasks ≡ p.tasks
    still_open : q.closed ≡ false
    services : q.services ≡ p.services

  on_incoming_call-Refused :
      (p : Peer) (c : ConnId) (s : ServiceId) (frame : ThesWf) (bp : BackPressure)
      → p.closed ≡ false
      → p.backpressure ≡ some bp
      → lookup s p.services ≡ none
      → (q : Peer) × (on_incoming_call env p c s frame ≡ done q) × Refused p q bp
  unfolding on_incoming_call handle_request_error report
  on_incoming_call-Refused p c s frame bp o b absent =
      let e = PeerErr.unknown_service (ctx p (some s) (some c) "Peer: Handle incoming call") in
      let p' : Peer = record (take_slot env p) { events = PeerEvent.error e ∷ p.events } in
      let x = ConnectionError.unknown_service (some s) (some c) in
      let kept = send_err_slots p' c x false in
      let opened = send_err_open p' c x in
      (
        send_err env p' c x false,
        ground (arith, o, b, absent),
        record {
          slots = ground (arith, kept, b);
          tasks = ground (arith, kept, b);
          still_open = ground (arith, opened, b, o);
          services = ground (arith, opened, b);
        },
      )

  -- So many calls for the same service, one after the other.
  unfoldable pub repeat_call : ℕ → Peer → ConnId → ServiceId → ThesWf → Handled Peer
  repeat_call zero p c s frame = done p
  repeat_call (suc n) p c s frame = elim (on_incoming_call env p c s frame) [
    | done q ↦ repeat_call n q c s frame
    | panics ↦ panics
  ]

  -- After as many calls for a service that an open peer does not provide as it has free slots, no
  -- slot is free, no task was added that could free one, and whoever waits for a slot has to wait,
  -- though the connection is still open.
  pub repeat_call-starves :
      (n : ℕ) (p : Peer) (c : ConnId) (s : ServiceId) (frame : ThesWf) (bp : BackPressure)
      → p.closed ≡ false
      → p.backpressure ≡ some bp
      → bp.available ≡ n
      → n < i64_half
      → lookup s p.services ≡ none
      → (q : Peer) × (bp' : BackPressure) × (repeat_call n p c s frame ≡ done q)
        × (q.closed ≡ false)
        × (q.tasks ≡ p.tasks)
        × (q.backpressure ≡ some bp')
        × (bp'.available ≡ 0)
        × ((waker : ℕ) → (poll_wait bp' waker).0 ≡ pending)
  unfolding repeat_call poll_wait
  repeat_call-starves zero p c s frame bp o b k h absent =
      (p, bp, refl, o, refl, b, k, λ waker. ground (arith, k))
  repeat_call-starves (suc n) p c s frame bp o b k h absent =
      let first = on_incoming_call-Refused p c s frame bp o b absent in
      let q = first.0 in
      let left : (remove_slots bp 1).available ≡ n = unfold remove_slots in omega arith in
      let rest =
        repeat_call-starves n q c s frame (remove_slots bp 1) first.2.still_open first.2.slots left
          (omega arith) (ap (lookup s) first.2.services ∙ absent) in
      (
        rest.0,
        rest.1,
        ground (arith, first.1, rest.2),
        rest.3,
        rest.4 ∙ first.2.tasks,
        rest.5,
        rest.6,
        rest.7,
      )

  -- A call to an open peer that its service answers with a response, once the nursery has taken the
  -- task, takes one slot and gives it back when the output of the task is handled, whether the
  -- response can be sent or not: the count is what it was.
  answered_call_slots :
      (p : Peer) (c : ConnId) (s : ServiceId) (frame x : ThesWf) (sm : ServiceMap) (t : Task)
      (bp : BackPressure)
      → p.closed ≡ false
      → p.backpressure ≡ some bp
      → bp.available < u64_mod
      → lookup s p.services ≡ some sm
      → sm.call_service frame (ctx p (some s) (some c) "Peer: Handle incoming call") ≡ ok t
      → t.output ≡ ok (Response.call_response x)
      → env.can_nurse p.nursery_open p.tasks ≡ true
      → (q r : Peer) × (bp' : BackPressure) × (on_incoming_call env p c s frame ≡ done q)
        × (q.tasks ≡ t ∷ p.tasks)
        × (on_task_output env q t.output ≡ done r)
        × (r.backpressure ≡ some bp')
        × (bp'.available ≡ bp.available)
  unfolding on_incoming_call nurse on_task_output handle_call_response send_msg
  answered_call_slots p c s frame x sm t bp o b small found called out can =
      let q : Peer = record (take_slot env p) { tasks = t ∷ p.tasks } in
      (
        q,
        (handle_call_response env q x).0,
        (add_slots (remove_slots bp 1) 1).0,
        ground (arith, o, b, found, called, can),
        ground arith,
        ground (arith, out),
        ground (arith, b),
        add_slots-remove_slots bp 1 small (omega arith),
      )
