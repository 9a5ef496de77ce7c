-- ===== src/Wire/WireType.antt =====
-- wire_format/wire_type.rs, and `WireFormat::kind` of wire_format.rs.
use thespis_impl_remote.Common.{if◌then◌else◌}
use thespis_impl_remote.Wire.ServiceId
use thespis_impl_remote.Wire.ServiceId.{ServiceId}
use thespis_impl_remote.Wire.ConnId
use thespis_impl_remote.Wire.ConnId.{ConnId}

pub data WireType : Type 0 where
  connection_error incoming_send incoming_call call_response : WireType

-- What a message is, by its service and connection identifiers.
unfoldable pub kind_of : ServiceId → ConnId → WireType
kind_of sid cid =
    if ServiceId.is_null sid
    then connection_error
    else if ServiceId.is_full sid
    then call_response
    else if ConnId.is_null cid
    then incoming_send
    else incoming_call
