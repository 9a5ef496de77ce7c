-- ===== src/Peer/State.antt =====
-- peer.rs, service_map.rs: the state of a peer, what it is given by the libraries that it calls,
-- and the interface through which it delivers messages.
use thespis_impl_remote.Common.{
  ℕ, String, Bool, true, false, List, [], ◌∷◌, Option, some, Map, Result, ◌≡◌, refl, ◌⊎◌, inl, inr,
}
use thespis_impl_remote.Wire.ServiceId.{ServiceId}
use thespis_impl_remote.Wire.ConnId.{ConnId}
use thespis_impl_remote.Wire.WireErr.{WireErr}
use thespis_impl_remote.Frame.ThesWf.{ThesWf}
use thespis_impl_remote.Peer.Errors.{ConnectionError, PeerErr, PeerErrCtx, PeerEvent, Response}
use thespis_impl_remote.Peer.Display.{Printer}
use thespis_impl_remote.Peer.BackPressure.{BackPressure}

-- A message that a task hands to an actor: the actor's id, and the frame or message bytes.
pub record Delivery : Type 0 where
  pub actor : ℕ
  pub payload : List ℕ

-- A future that processes a request, seen from its end: what it hands to actors and its output.
pub record Task : Type 0 where
  pub deliveries : List Delivery
  pub output : Result Response PeerErr

-- The trait `ServiceMap`.
pub record ServiceMap : Type 0 where
  pub services : List ServiceId
  pub send_service : ThesWf → PeerErrCtx → Result Task PeerErr
  pub call_service : ThesWf → PeerErrCtx → Result Task PeerErr

-- What the environment decides or a library does: whether the sink takes a frame after those sent
-- so far, or closes; whether the nursery takes a task; serde_cbor on connection errors, and
-- printing.
pub record Env : Type 0 where
  pub on_send : List ThesWf → ThesWf → Option WireErr
  pub on_close : List ThesWf → Option WireErr
  pub can_nurse : Bool → List Task → Bool
  pub to_cbor : ConnectionError → List ℕ
  pub from_cbor : List ℕ → Option ConnectionError
  pub printer : Printer

-- The value that a oneshot channel carries back to a caller.
abbrev pub Reply : Type 0
Reply = Result ThesWf ConnectionError

-- The last five fields record what the peer did to the world, the newest first: frames on the
-- wire, values sent on oneshot channels, events for observers, tasks in the nursery, and calls for
-- which a timeout was started. Channels are numbered by `next_channel`.
pub record Peer : Type 0 where
  pub outgoing : Bool
  pub addr : Bool
  pub id : ℕ
  pub name : Option String
  pub services : Map ServiceMap
  pub responses : Map ℕ
  pub timeout : ℕ
  pub backpressure : Option BackPressure
  pub nursery_stream : Bool
  pub nursery_open : Bool
  pub closed : Bool
  pub conn_id_counter : ℕ
  pub grace_period : Option ℕ
  pub next_channel : ℕ
  pub sent : List ThesWf
  pub replies : List (ℕ × Reply)
  pub events : List PeerEvent
  pub tasks : List Task
  pub timers : List (ConnId × ServiceId)

-- `Peer::new`, once its two listening tasks are spawned.
unfoldable pub new : ℕ → Option String → Option BackPressure → Option ℕ → Peer
new id name bp grace_period = record {
  outgoing = true;
  addr = true;
  id = id;
  name = name;
  services = [];
  responses = [];
  timeout = 60_000;
  backpressure = bp;
  nursery_stream = true;
  nursery_open = true;
  closed = false;
  conn_id_counter = 1;
  grace_period = grace_period;
  next_channel = 0;
  sent = [];
  replies = [];
  events = [];
  tasks = [];
  timers = [];
}

-- A handler ends, or panics.
pub data Handled (A : Type 0) : Type 0 where
  done : A → Handled A
  panics : Handled A

pub Handled-cases : {A : Type 0} (x : Handled A) → (x ≡ panics) ⊎ ((a : A) × (x ≡ done a))
Handled-cases panics = inl refl
Handled-cases (done a) = inr (a, refl)

infixl 5 ◌>>=◌
abbrev pub ◌>>=◌ : {A B : Type 0} → Handled A → (A → Handled B) → Handled B
done a >>= f = f a
panics >>= f = panics

unfoldable pub set_timeout : Peer → ℕ → Peer
set_timeout p delay = record p { timeout = delay }

-- `Peer::ctx`
abbrev pub ctx : Peer → Option ServiceId → Option ConnId → String → PeerErrCtx
ctx p sid cid context = record {
  context = some context;
  peer_id = some p.id;
  peer_name = p.name;
  sid = sid;
  cid = cid;
}

abbrev pub shine : Peer → PeerEvent → Peer
shine p event = record p { events = event ∷ p.events }
