-- ===== src/Wire/Texts.antt =====
-- wire_format/unique_id.rs, service_id.rs, conn_id.rs, wire_err.rs: how identifiers and errors are
-- printed. What `format!` makes of a number or a kind of error is a parameter.
use Prim.Native.String.{◌++◌}
use thespis_impl_remote.Common.{ℕ, String, none, some}
use thespis_impl_remote.Wire.UniqueId.{UniqueId}
use thespis_impl_remote.Wire.ServiceId.{ServiceId}
use thespis_impl_remote.Wire.ConnId.{ConnId}
use thespis_impl_remote.Wire.WireErr.{ErrorKind, WireErr, message_size_exceeded, deserialize, io}
use thespis_impl_remote.Wire.Registry.{Services, service_name}

-- `decimal` is `{}`, `hex` is `{:x}` and `padded` is `{:#018x}`, each of a number; `kind` is `{:?}`.
pub record Formats : Type 0 where
  pub decimal : ℕ → String
  pub hex : ℕ → String
  pub padded : ℕ → String
  pub kind : ErrorKind → String

module _ (fmt : Formats) where
  -- `Debug for UniqueID`
  unfoldable pub debug_unique : UniqueId → String
  debug_unique id = fmt.padded id

  -- `Display for UniqueID`
  unfoldable pub display_unique : UniqueId → String
  unfolding debug_unique
  display_unique id = debug_unique id

  -- `LowerHex for UniqueID`
  unfoldable pub hex_unique : UniqueId → String
  hex_unique id = fmt.hex id

  -- `Display for ServiceID`: the name, if it is in the table.
  unfoldable pub display_service : Services → ServiceId → String
  unfolding display_unique
  display_service s sid = elim (service_name s sid) [ some name ↦ name | none ↦ display_unique sid ]

  -- `Debug for ServiceID`
  unfoldable pub debug_service : Services → ServiceId → String
  unfolding debug_unique
  debug_service s sid = elim (service_name s sid) [
    | some name ↦ "ServiceID: " ++ (name ++ (" (" ++ (debug_unique sid ++ ")")))
    | none ↦ debug_unique sid
  ]

  -- `LowerHex for ServiceID`
  unfoldable pub hex_service : ServiceId → String
  unfolding hex_unique
  hex_service sid = hex_unique sid

  -- `Debug for ConnID`
  unfoldable pub debug_conn : ConnId → String
  unfolding debug_unique
  debug_conn cid = debug_unique cid

  -- `Display for ConnID`
  unfoldable pub display_conn : ConnId → String
  unfolding debug_conn
  display_conn cid = debug_conn cid

  -- `LowerHex for ConnID`
  unfoldable pub hex_conn : ConnId → String
  unfolding hex_unique
  hex_conn cid = hex_unique cid

  -- `Display for WireErr`
  unfoldable pub display_wire_err : WireErr → String
  display_wire_err (message_size_exceeded context size max_size) =
      "Maximum message size exceeded: context: "
      ++ (context
          ++ (", actual: "
              ++ (fmt.decimal size
                  ++ (" bytes, allowed: " ++ (fmt.decimal max_size ++ " bytes.")))))
  display_wire_err (deserialize context) =
      "Failed to deserialize incoming data. The connection will be closed because the stream integrity can no longer be assumed"
      ++ context
  display_wire_err (io kind) = "Io: " ++ fmt.kind kind
