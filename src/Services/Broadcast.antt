-- ===== src/Services/Broadcast.antt =====
-- Who gets a message that is published: over every history of subscriptions, each subscriber once.
use thespis_impl_remote.Common.{
  ℕ, ◌≡◌, refl, ap, ◌∙◌, inl, inr, List, [], ◌∷◌, Option, none, some, arith, Map, lookup, insert,
  remove, lookup-remove, lookup-remove_self, lookup-insert, ◌==◌, if◌then◌else◌, Bool-cases, ok,
}
use thespis_impl_remote.Wire.ServiceId.{ServiceId}
use thespis_impl_remote.Frame.ThesWf.{ThesWf, as_buf}
use thespis_impl_remote.Peer.Errors.{PeerErrCtx, nothing}
use thespis_impl_remote.Peer.State.{Task, Delivery}
use thespis_impl_remote.Services.Address.{Relay}
use thespis_impl_remote.Services.PubSub.{
  PubSub, new, subscribe, unsubscribe, broadcast, send_service,
}

-- Each subscriber stands under its own id, and no id stands twice.
unfoldable pub IsTidy : Map Relay → Type 0
IsTidy [] = Unit {0}
IsTidy ((id, sub) ∷ m) = (id ≡ sub.id) × (lookup id m ≡ none) × IsTidy m

-- A publisher after a history of subscriptions and their ends, in any order.
pub data History (services : List ServiceId) : PubSub → Type 0 where
  created : History services (new services)
  subscribed : {p : PubSub} (sub : Relay) → History services p → History services (subscribe p sub)
  unsubscribed : {p : PubSub} (id : ℕ) → History services p → History services (unsubscribe p id)

remove-IsTidy : (k : ℕ) (m : Map Relay) → IsTidy m → IsTidy (remove k m)
unfolding IsTidy remove
remove-IsTidy k [] t = tt
remove-IsTidy k ((j, sub) ∷ m) t = ground (arith, remove-IsTidy k m t.2, lookup-remove j k m)

History-IsTidy :
    {services : List ServiceId} {p : PubSub} → History services p → IsTidy p.subscribers
unfolding new subscribe unsubscribe insert IsTidy
History-IsTidy created = tt
History-IsTidy (subscribed {p} sub h) = (
  refl,
  lookup-remove_self sub.id p.subscribers,
  remove-IsTidy sub.id p.subscribers (History-IsTidy h),
)
History-IsTidy (unsubscribed {p} id h) = remove-IsTidy id p.subscribers (History-IsTidy h)

-- The subscriber that a history leaves under an id: the last one, unless it has ended since.
unfoldable pub current :
    {services : List ServiceId} {p : PubSub} → History services p → ℕ → Option Relay
current created k = none
current (subscribed sub h) k = let before = current h k in if k == sub.id then some sub else before
current (unsubscribed id h) k = let before = current h k in if k == id then none else before

lookup-current :
    {services : List ServiceId} {p : PubSub} (h : History services p) (k : ℕ)
    → lookup k p.subscribers ≡ current h k
unfolding current new subscribe unsubscribe lookup
lookup-current created k = refl
lookup-current (subscribed {p} sub h) k =
    ground (arith, lookup-insert k sub.id sub p.subscribers, lookup-current h k)
lookup-current (unsubscribed {p} id h) k =
    ground (arith, lookup-remove k id p.subscribers, lookup-current h k)

-- What an actor is handed by deliveries.
unfoldable pub payloads : ℕ → List Delivery → List (List ℕ)
payloads id [] = []
payloads id (d ∷ ds) = let rest = payloads id ds in if id == d.actor then d.payload ∷ rest else rest

-- What a subscriber, if there is one, is due of a message: its bytes, if it takes it.
abbrev pub due : Option Relay → ThesWf → List (List ℕ)
due none msg = []
due (some sub) msg = if sub.accepts msg then as_buf msg ∷ [] else []

payloads-broadcast :
    (id : ℕ) (m : Map Relay) (msg : ThesWf)
    → IsTidy m
    → payloads id (broadcast m msg) ≡ due (lookup id m) msg
unfolding payloads broadcast lookup IsTidy
payloads-broadcast id [] msg t = refl
payloads-broadcast id ((j, sub) ∷ m) msg t = elim (Bool-cases (id == j)) [
  | inl same ↦ ground (arith, same, payloads-broadcast id m msg t.2, t.0, t.1)
  | inr other ↦ ground (arith, other, payloads-broadcast id m msg t.2, t.0)
]

-- After any history of subscriptions and their ends, a published message is handed, as the bytes of
-- its frame, once to each actor that takes it and whose last subscription has not ended since, and
-- to no other actor.
pub send_service-payloads :
    {services : List ServiceId} {p : PubSub} (h : History services p) (msg : ThesWf)
    (ctx : PeerErrCtx) (id : ℕ)
    → (t : Task) × (send_service p msg ctx ≡ ok t)
      × (payloads id t.deliveries ≡ due (current h id) msg)
      × (t.output ≡ ok nothing)
unfolding send_service
send_service-payloads {p = p} h msg ctx id = (
  _,
  refl,
  payloads-broadcast id p.subscribers msg (History-IsTidy h)
      ∙ ap (λ (x : Option Relay). due x msg) (lookup-current h id),
  refl,
)
