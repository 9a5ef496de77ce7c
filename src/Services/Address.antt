-- ===== src/Services/Address.antt =====
-- Addresses of actors, as the environment answers for them (the crates thespis and thespis_impl).
use thespis_impl_remote.Common.{ℕ, String, Bool, List, Option}
use thespis_impl_remote.Wire.ServiceId.{ServiceId}
use thespis_impl_remote.Frame.ThesWf.{ThesWf}
use thespis_impl_remote.Peer.Errors.{PeerErr}
use thespis_impl_remote.Peer.State.{Reply}

-- What comes of a call through a peer: its mailbox is closed, it could not send the call out, the
-- channel was dropped, or a value came through it.
pub data CallAnswer : Type 0 where
  mailbox_closed : CallAnswer
  send_failed : PeerErr → CallAnswer
  canceled : CallAnswer
  received : Reply → CallAnswer

-- The trait `Relay`: the address of a peer that takes frames and calls.
pub record Relay : Type 0 where
  pub id : ℕ
  pub name : Option String
  pub accepts : ThesWf → Bool
  pub answer : ThesWf → CallAnswer

-- `ServiceHandler` of service_handler.rs
pub data ServiceHandler : Type 0 where
  address : Relay → ServiceHandler
  closure : (ServiceId → Relay) → ServiceHandler

-- What a call to a local actor gives: the actor is gone, or it answered, and the answer serializes
-- to these bytes or not at all.
pub data LocalAnswer : Type 0 where
  dead : LocalAnswer
  answered : Option (List ℕ) → LocalAnswer

-- The address of a local actor, for messages given by their bytes.
pub record LocalAddress : Type 0 where
  pub id : ℕ
  pub name : Option String
  pub accepts : List ℕ → Bool
  pub answer : List ℕ → LocalAnswer
