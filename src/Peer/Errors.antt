-- ===== src/Peer/Errors.antt =====
-- peer/peer_err.rs, peer/connection_error.rs, peer/peer_event.rs, peer/response.rs: what can go
-- wrong, what of it the remote is told, and what observers and the listening tasks are handed.
use thespis_impl_remote.Common.{ℕ, String, Option, none, some}
use thespis_impl_remote.Wire.ServiceId.{ServiceId}
use thespis_impl_remote.Wire.ConnId.{ConnId}
use thespis_impl_remote.Wire.WireErr.{WireErr}
use thespis_impl_remote.Frame.ThesWf.{ThesWf}

-- What is sent to the remote, serialized, when its request fails.
pub data ConnectionError : Type 0 where
  deserialize : Option ServiceId → Option ConnId → ConnectionError
  deserialize_wire_format : String → ConnectionError
  internal_server_error : Option ServiceId → Option ConnId → ConnectionError
  timeout : ServiceId → ConnectionError
  unknown_service : Option ServiceId → Option ConnId → ConnectionError
  pub_sub_no_call : Option ServiceId → Option ConnId → ConnectionError

pub record PeerErrCtx : Type 0 where
  pub context : Option String
  pub peer_id : Option ℕ
  pub peer_name : Option String
  pub sid : Option ServiceId
  pub cid : Option ConnId

-- `PeerErrCtx::default`
abbrev pub no_ctx : PeerErrCtx
no_ctx = record { context = none; peer_id = none; peer_name = none; sid = none; cid = none }

abbrev pub with_context : PeerErrCtx → String → PeerErrCtx
with_context ctx context = record ctx { context = some context }

-- The errors of the local process. `thes_err` keeps its source as the text that it displays.
pub data PeerErr : Type 0 where
  connection_closed deserialize handler_dead no_handler peer_gone : PeerErrCtx → PeerErr
  relay_gone : PeerErrCtx → ℕ → Option String → PeerErr
  remote : PeerErrCtx → ConnectionError → PeerErr
  serialize spawn : PeerErrCtx → PeerErr
  thes_err : PeerErrCtx → String → PeerErr
  timeout unknown_service : PeerErrCtx → PeerErr
  wire_format : PeerErrCtx → WireErr → PeerErr
  pub_sub_no_call : PeerErrCtx → PeerErr

-- `PeerErr::ctx`
abbrev pub ctx_of : PeerErr → PeerErrCtx
ctx_of (PeerErr.connection_closed ctx) = ctx
ctx_of (PeerErr.deserialize ctx) = ctx
ctx_of (PeerErr.handler_dead ctx) = ctx
ctx_of (PeerErr.no_handler ctx) = ctx
ctx_of (PeerErr.peer_gone ctx) = ctx
ctx_of (PeerErr.relay_gone ctx relay_id relay_name) = ctx
ctx_of (PeerErr.remote ctx err) = ctx
ctx_of (PeerErr.serialize ctx) = ctx
ctx_of (PeerErr.spawn ctx) = ctx
ctx_of (PeerErr.thes_err ctx source) = ctx
ctx_of (PeerErr.timeout ctx) = ctx
ctx_of (PeerErr.unknown_service ctx) = ctx
ctx_of (PeerErr.wire_format ctx source) = ctx
ctx_of (PeerErr.pub_sub_no_call ctx) = ctx

pub data PeerEvent : Type 0 where
  closed closed_by_remote : PeerEvent
  relay_disappeared : ℕ → PeerEvent
  error : PeerErr → PeerEvent
  remote_error : ConnectionError → PeerEvent

-- What a task that processes a request leaves for the peer to do.
pub data Response : Type 0 where
  wire_format : ThesWf → Response
  call_response : ThesWf → Response
  nothing : Response
