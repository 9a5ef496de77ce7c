-- ===== src/Wire/Registry.antt =====
-- wire_format/service_id.rs: the global table of service names, used in log output.
use thespis_impl_remote.Common.{
  String, Option, none, some, ◌≡◌, arith, Map, lookup, insert, lookup-insert, ◌==◌, if◌then◌else◌,
}
use thespis_impl_remote.Wire.ServiceId.{ServiceId}

abbrev pub Services : Type 0
Services = Map String

unfoldable pub register_service : Services → ServiceId → String → Services
register_service s sid name = elim (lookup sid s) [ none ↦ insert sid name s | some _ ↦ s ]

unfoldable pub service_name : Services → ServiceId → Option String
service_name s sid = lookup sid s

-- After a registration the service has its first name, and no other service's name changes.
service_name-register_service :
    (s : Services) (sid k : ServiceId) (name : String)
    → service_name (register_service s sid name) k
      ≡ (elim (service_name s k) [ none ↦ if k == sid then some name else none | some n ↦ some n ])
unfolding register_service service_name
service_name-register_service s sid k name = ground (arith, lookup-insert k sid name s)
