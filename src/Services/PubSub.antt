-- ===== src/Services/PubSub.antt =====
-- pub_sub.rs: sends that go to every subscriber. The map of subscribers is shared with two tasks,
-- which change it one message at a time; `can_spawn` says whether such a task could be started.
use thespis_impl_remote.Common.{
  ℕ, Bool, true, false, List, [], ◌∷◌, Map, insert, remove, Result, ok, err, Poll, ready, panicked,
  if◌then◌else◌,
}
use thespis_impl_remote.Wire.ServiceId.{ServiceId}
use thespis_impl_remote.Frame.ThesWf.{ThesWf, as_buf}
use thespis_impl_remote.Peer.Errors.{PeerErr, PeerErrCtx, no_ctx, with_context, nothing}
use thespis_impl_remote.Peer.State.{Task, Delivery, ServiceMap}
use thespis_impl_remote.Services.Address.{Relay}

pub record PubSub : Type 0 where
  pub services : List ServiceId
  pub subscribers : Map Relay
  pub rt_sub : Bool
  pub rt_unsub : Bool

unfoldable pub new : List ServiceId → PubSub
new services = record { services = services; subscribers = []; rt_sub = false; rt_unsub = false }

-- A subscriber with the same id is replaced.
unfoldable pub subscribe : PubSub → Relay → PubSub
subscribe p sub = record p { subscribers = insert sub.id sub p.subscribers }

unfoldable pub unsubscribe : PubSub → ℕ → PubSub
unsubscribe p id = record p { subscribers = remove id p.subscribers }

-- A second call panics. The task then does `subscribe` for each subscriber that it receives.
unfoldable pub rt_subscribe : PubSub → Bool → Poll (PubSub × Result (Unit {0}) PeerErr)
rt_subscribe p can_spawn =
    if p.rt_sub
    then panicked
    else if can_spawn
    then ready (record p { rt_sub = true }, ok tt)
    else ready (p, err (PeerErr.spawn (with_context no_ctx "PubSub")))

unfoldable pub rt_unsubscribe : PubSub → Bool → Poll (PubSub × Result (Unit {0}) PeerErr)
rt_unsubscribe p can_spawn =
    if p.rt_unsub
    then panicked
    else if can_spawn
    then ready (record p { rt_unsub = true }, ok tt)
    else ready (p, err (PeerErr.spawn (with_context no_ctx "PubSub")))

-- One copy for each subscriber that takes it; the others are only logged.
unfoldable pub broadcast : Map Relay → ThesWf → List Delivery
broadcast [] msg = []
broadcast ((id, sub) ∷ subs) msg =
    let rest = broadcast subs msg in
    if sub.accepts msg then record { actor = sub.id; payload = as_buf msg } ∷ rest else rest

unfoldable pub send_service : PubSub → ThesWf → PeerErrCtx → Result Task PeerErr
unfolding broadcast
send_service p msg ctx =
    ok (record { deliveries = broadcast p.subscribers msg; output = ok nothing })

unfoldable pub call_service : PubSub → ThesWf → PeerErrCtx → Result Task PeerErr
call_service p frame ctx = err (PeerErr.pub_sub_no_call ctx)

-- `impl ServiceMap for PubSub`
abbrev pub pub_sub : PubSub → ServiceMap
pub_sub p = record {
  services = p.services;
  send_service = send_service p;
  call_service = call_service p;
}
