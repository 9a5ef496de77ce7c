-- ===== src/Peer/Display.antt =====
-- peer/peer_err.rs: the text of an error's context, and the text that a remote is sent. How the
-- standard library prints numbers and identifiers is a parameter.
use Prim.Native.String.{◌++◌}
use thespis_impl_remote.Common.{ℕ, String, Option, none, some, Poll, ready, panicked, ◌≡◌, refl}
use thespis_impl_remote.Wire.WireErr.{WireErr, message_size_exceeded, deserialize, io}
use thespis_impl_remote.Peer.Errors.{PeerErr, PeerErrCtx}

pub record Printer : Type 0 where
  pub show_usize : ℕ → String
  pub show_sid : ℕ → String
  pub show_cid : ℕ → String

abbrev part : String → Option String → String
part label none = ""
part label (some text) = label ++ (text ++ ".")

abbrev shown : (ℕ → String) → Option ℕ → Option String
shown show none = none
shown show (some n) = some (show n)

module _ (p : Printer) where
  open p use {show_usize, show_sid, show_cid}

  -- `Display for PeerErrCtx`
  unfoldable pub display_ctx : PeerErrCtx → String
  display_ctx ctx =
      part " Context: " ctx.context
      ++ (part " peer_id: " (shown show_usize ctx.peer_id)
          ++ (part " peer_name: " ctx.peer_name
              ++ (part " sid: " (shown show_sid ctx.sid)
                  ++ part " cid: " (shown show_cid ctx.cid))))

  abbrev stripped : PeerErrCtx → PeerErrCtx
  stripped ctx = record ctx { peer_id = none; peer_name = none }

  wire_text : PeerErrCtx → WireErr → String
  unfolding display_ctx
  wire_text ctx (message_size_exceeded context size max_size) =
      "Maximum message size exceeded: context: "
      ++ (context
          ++ (", actual: "
              ++ (show_usize size ++ (" bytes, allowed: " ++ (show_usize max_size ++ " bytes.")))))
  wire_text ctx (deserialize context) = "Could not deserialize your message." ++ display_ctx ctx
  wire_text ctx (io kind) = "An error happened on the underlying transport." ++ display_ctx ctx

  -- `PeerErr::remote_err`, which panics for any other error.
  unfoldable pub remote_err : PeerErr → Poll String
  unfolding wire_text display_ctx
  remote_err (PeerErr.wire_format ctx source) = ready (wire_text (stripped ctx) source)
  remote_err (PeerErr.deserialize ctx) =
      ready ("Could not deserialize your message." ++ display_ctx ctx)
  remote_err (PeerErr.connection_closed ctx) = panicked
  remote_err (PeerErr.handler_dead ctx) = panicked
  remote_err (PeerErr.no_handler ctx) = panicked
  remote_err (PeerErr.peer_gone ctx) = panicked
  remote_err (PeerErr.relay_gone ctx relay_id relay_name) = panicked
  remote_err (PeerErr.remote ctx err) = panicked
  remote_err (PeerErr.serialize ctx) = panicked
  remote_err (PeerErr.spawn ctx) = panicked
  remote_err (PeerErr.thes_err ctx source) = panicked
  remote_err (PeerErr.timeout ctx) = panicked
  remote_err (PeerErr.unknown_service ctx) = panicked
  remote_err (PeerErr.pub_sub_no_call ctx) = panicked

  -- The text for a remote on an error of the wire is the same whatever id and name of the local
  -- peer its context holds.
  pub remote_err_hides_peer :
      (ctx : PeerErrCtx) (source : WireErr) (id : Option ℕ) (name : Option String)
      → remote_err (PeerErr.wire_format ctx source)
        ≡ remote_err (PeerErr.wire_format (record ctx { peer_id = id; peer_name = name }) source)
  unfolding remote_err
  remote_err_hides_peer ctx source id name = refl
