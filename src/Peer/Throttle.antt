-- ===== src/Peer/Throttle.antt =====
-- The slots of the back pressure over every sequence of messages: how many calls wait for an answer,
-- and when the task that reads the stream has to wait.
use thespis_impl_remote.Common.{ℕ, ◌+◌, ◌%◌, ◌≡◌, some, ok, if◌then◌else◌}
use thespis_impl_remote.Wire.UniqueId.{u64_mod}
use thespis_impl_remote.Frame.ByteOrder.{ByteOrder}
use thespis_impl_remote.Frame.ThesWf.{ThesWf}
use thespis_impl_remote.Peer.Errors.{Response}
use thespis_impl_remote.Peer.BackPressure.{BackPressure}
use thespis_impl_remote.Peer.State.{Peer, Env}
use thespis_impl_remote.Peer.Reach.{Step, streamed, finished, Reach, here, next}
use thespis_impl_remote.Peer.Untouched.{takes_slot}

module _ ⦃bo : ByteOrder⦄ (env : Env) where
  -- How many slots a message takes: a call from the stream takes one.
  unfoldable pub step_takes : {p q : Peer} → Step env p q → ℕ
  step_takes {p} (streamed (some item) h) = if takes_slot p item then 1 else 0
  step_takes s = 0

  -- How many slots it frees: a response to a call frees one.
  unfoldable pub step_frees : {p q : Peer} → Step env p q → ℕ
  step_frees (finished (ok (Response.call_response x)) h) = 1
  step_frees s = 0

  -- The same over a sequence of messages.
  unfoldable pub taken : {p q : Peer} → Reach env p q → ℕ
  taken here = 0
  taken (next r s) = taken r + step_takes s

  unfoldable pub freed : {p q : Peer} → Reach env p q → ℕ
  freed here = 0
  freed (next r s) = freed r + step_frees s

  -- The peer has slots, `t` fewer than `f` more than `n`, as far as a u64 tells.
  record Balance (n t f : ℕ) (q : Peer) : Type 0 where
    slots : BackPressure
    held : q.backpressure ≡ some slots
    count : (slots.available + t) % u64_mod ≡ (n + f) % u64_mod
