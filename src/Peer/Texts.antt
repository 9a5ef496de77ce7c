-- ===== src/Peer/Texts.antt =====
-- peer.rs, peer/peer_err.rs, peer/connection_error.rs: how a peer and its errors are printed in logs,
-- and the setters of an error's context.
use Prim.Native.String.{◌++◌}
use thespis_impl_remote.Common.{ℕ, String, Option, none, some}
use thespis_impl_remote.Wire.ServiceId.{ServiceId}
use thespis_impl_remote.Wire.ConnId.{ConnId}
use thespis_impl_remote.Wire.Registry.{Services}
use thespis_impl_remote.Wire.Texts.{
  Formats, display_service, debug_service, display_conn, debug_conn, display_wire_err,
}
use thespis_impl_remote.Peer.Errors.{ConnectionError, PeerErr, PeerErrCtx}
use thespis_impl_remote.Peer.Display.{Printer, display_ctx}
use thespis_impl_remote.Peer.State.{Peer}

-- `PeerErrCtx::peer_id` and so on
abbrev pub with_peer_id : PeerErrCtx → Option ℕ → PeerErrCtx
with_peer_id ctx peer_id = record ctx { peer_id = peer_id }

abbrev pub with_peer_name : PeerErrCtx → Option String → PeerErrCtx
with_peer_name ctx peer_name = record ctx { peer_name = peer_name }

abbrev pub with_sid : PeerErrCtx → Option ServiceId → PeerErrCtx
with_sid ctx sid = record ctx { sid = sid }

abbrev pub with_cid : PeerErrCtx → Option ConnId → PeerErrCtx
with_cid ctx cid = record ctx { cid = cid }

-- How `{:?}` prints an optional value, a text, and a `ConnectionError`.
pub record Debugs : Type 0 where
  pub opt : Option String → String
  pub text : String → String
  pub connection_error : ConnectionError → String

module _ (fmt : Formats) (dbg : Debugs) (s : Services) where
  -- How a context prints what it holds.
  abbrev pub printer : Printer
  printer = record {
    show_usize = fmt.decimal;
    show_sid = display_service fmt s;
    show_cid = display_conn fmt;
  }

  abbrev context : PeerErrCtx → String
  context ctx = display_ctx printer ctx

  -- `Peer::identify`, which `Debug for Peer` prints too.
  unfoldable pub identify : ℕ → Option String → String
  identify id none = "Peer: id: " ++ fmt.decimal id
  identify id (some name) = "Peer: id: " ++ (fmt.decimal id ++ (", name: " ++ name))

  unfoldable pub debug_peer : Peer → String
  unfolding identify
  debug_peer p = identify p.id p.name

  abbrev map_opt : {A : Type 0} → (A → String) → Option A → Option String
  map_opt f none = none
  map_opt f (some a) = some (f a)

  abbrev opt_sid : Option ServiceId → String
  opt_sid sid = dbg.opt (map_opt (debug_service fmt s) sid)

  abbrev opt_cid : Option ConnId → String
  opt_cid cid = dbg.opt (map_opt (debug_conn fmt) cid)

  -- `Display for ConnectionError`
  unfoldable pub display_connection_error : ConnectionError → String
  display_connection_error (ConnectionError.deserialize sid cid) =
      "Remote failed to deserialize your actor message (sid: "
      ++ (opt_sid sid ++ (", cid: " ++ (opt_cid cid ++ ").")))
  display_connection_error (ConnectionError.deserialize_wire_format context) =
      "Remote failed to deserialize the wire format: " ++ context
  display_connection_error (ConnectionError.internal_server_error sid cid) =
      "Remote ran into an internal server error (this isn't your fault). More information should be in their logs (sid: "
      ++ (opt_sid sid ++ (", cid: " ++ (opt_cid cid ++ ").")))
  display_connection_error (ConnectionError.timeout sid) =
      "Timed out waiting for a response to a call (sid: " ++ (display_service fmt s sid ++ ").")
  display_connection_error (ConnectionError.unknown_service sid cid) =
      "Remote does not expose the service you are trying to call (sid: " ++ (opt_sid sid ++ ").")
  display_connection_error (ConnectionError.pub_sub_no_call sid cid) =
      "Remote broadcasts this message type using thespis_remote::PubSub which does not support the `call` operation. Only `send` is supported (sid: "
      ++ (opt_sid sid ++ ").")

  -- `Display for PeerErr`
  unfoldable pub display_peer_err : PeerErr → String
  display_peer_err (PeerErr.connection_closed ctx) =
      "Cannot use peer after the connection is closed, operation." ++ context ctx
  display_peer_err (PeerErr.deserialize ctx) =
      "Failed to deserialize an Actor message." ++ context ctx
  display_peer_err (PeerErr.handler_dead ctx) =
      "Cannot deliver because the handling actor is no longer running." ++ context ctx
  display_peer_err (PeerErr.no_handler ctx) =
      "No handler has been set for this service." ++ context ctx
  display_peer_err (PeerErr.peer_gone ctx) = "The Peer actor has panicked." ++ context ctx
  display_peer_err (PeerErr.relay_gone ctx relay_id relay_name) =
      "Failed to relay a request because the connection to the relay has been closed. context."
      ++ (context ctx
          ++ (" relay_id: "
              ++ (fmt.decimal relay_id
                  ++ (", relay_name: " ++ dbg.opt (map_opt dbg.text relay_name)))))
  display_peer_err (PeerErr.remote ctx err) =
      "A remote could not process a message we sent it"
      ++ (dbg.connection_error err ++ ("." ++ context ctx))
  display_peer_err (PeerErr.serialize ctx) = "Failed to serialize:" ++ context ctx
  display_peer_err (PeerErr.spawn ctx) = "Failed to spawn task:" ++ context ctx
  display_peer_err (PeerErr.thes_err ctx source) = "ThesErr " ++ (source ++ ("." ++ context ctx))
  display_peer_err (PeerErr.timeout ctx) = "Operation Timed out." ++ context ctx
  display_peer_err (PeerErr.unknown_service ctx) =
      "Cannot deliver message to unknown service." ++ context ctx
  display_peer_err (PeerErr.wire_format ctx source) =
      "An error happened on the underlying stream: "
      ++ (display_wire_err fmt source ++ ("." ++ context ctx))
  display_peer_err (PeerErr.pub_sub_no_call ctx) =
      "PubSub does not support `Address::call` operation, only `Sink::send`." ++ context ctx
