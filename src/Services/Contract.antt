-- ===== src/Services/Contract.antt =====
-- What a peer relies on of a service map, that the three maps of the library keep to it, and that
-- no incoming message makes a peer panic then.
use thespis_impl_remote.Common.{
  ◌≡◌, refl, subst, inl, inr, arith, Result, ok, err, lookup, Option-cases, Bool-cases,
}
use thespis_impl_remote.Frame.ByteOrder.{ByteOrder}
use thespis_impl_remote.Frame.ThesWf.{ThesWf, sid, msg}
use thespis_impl_remote.Peer.Errors.{PeerErr, PeerErrCtx, with_context}
use thespis_impl_remote.Peer.State.{ServiceMap, Env, Task, ctx}
use thespis_impl_remote.Services.Relay
use thespis_impl_remote.Services.Relay.{RelayMap, relay_map}
use thespis_impl_remote.Services.PubSub
use thespis_impl_remote.Services.PubSub.{PubSub, pub_sub}
use thespis_impl_remote.Services.Local
use thespis_impl_remote.Services.Local.{Services, Interface, services_map}

-- The errors that the handler of request errors has an arm for.
abbrev pub IsReportable : PeerErr → Type 0
IsReportable (PeerErr.connection_closed ctx) = ⊥
IsReportable (PeerErr.peer_gone ctx) = ⊥
IsReportable (PeerErr.remote ctx e) = ⊥
IsReportable (PeerErr.thes_err ctx source) = ⊥
IsReportable (PeerErr.timeout ctx) = ⊥
IsReportable _ = Unit {0}

-- The errors that the handler of sends has an arm for.
abbrev pub IsSendError : PeerErr → Type 0
IsSendError (PeerErr.no_handler ctx) = Unit {0}
IsSendError (PeerErr.deserialize ctx) = Unit {0}
IsSendError _ = ⊥

-- The contract of a service map.
pub record IsServiceMap (sm : ServiceMap) : Type 0 where
  pub sends :
      (m : ThesWf) (c : PeerErrCtx) (e : PeerErr) → sm.send_service m c ≡ err e → IsSendError e
  pub calls :
      (m : ThesWf) (c : PeerErrCtx) (e : PeerErr) → sm.call_service m c ≡ err e → IsReportable e

-- A relay map keeps to the contract.
pub relay_map-IsServiceMap :
    ⦃bo : ByteOrder⦄ (env : Env) (m : RelayMap) → IsServiceMap (relay_map env m)
unfolding Relay.send_service Relay.call_service
relay_map-IsServiceMap env m = record {
  sends = λ f c e h. absurd (ground arith);
  calls = λ f c e h. absurd (ground arith);
}

err_inj : {x : Result Task PeerErr} {e f : PeerErr} → x ≡ err e → x ≡ err f → e ≡ f
err_inj h k = cc

-- A publisher keeps to it.
pub pub_sub-IsServiceMap : (p : PubSub) → IsServiceMap (pub_sub p)
unfolding PubSub.send_service PubSub.call_service
pub_sub-IsServiceMap p = record {
  sends = λ f c e h. absurd (ground arith);
  calls = λ f c e h.
      subst IsReportable
        (err_inj {x = PubSub.call_service p f c} {e = PeerErr.pub_sub_no_call c} refl h) tt;
}

-- The errors that a call of a map can end in.
data Refusal (x : Result Task PeerErr) : Type 0 where
  accepted : (t : Task) → x ≡ ok t → Refusal x
  unhandled : (c : PeerErrCtx) → x ≡ err (PeerErr.no_handler c) → Refusal x
  unreadable : (c : PeerErrCtx) → x ≡ err (PeerErr.deserialize c) → Refusal x
  unknown : (c : PeerErrCtx) → x ≡ err (PeerErr.unknown_service c) → Refusal x

Refusal-IsReportable :
    (x : Result Task PeerErr) (e : PeerErr) → Refusal x → x ≡ err e → IsReportable e
Refusal-IsReportable x e (accepted t r) h = absurd (ground arith)
Refusal-IsReportable x e (unhandled c r) h = subst IsReportable (err_inj {x = x} r h) tt
Refusal-IsReportable x e (unreadable c r) h = subst IsReportable (err_inj {x = x} r h) tt
Refusal-IsReportable x e (unknown c r) h = subst IsReportable (err_inj {x = x} r h) tt

module _ ⦃bo : ByteOrder⦄ (i : Interface) where
  send_service-IsSendError :
      (s : Services) (m : ThesWf) (c : PeerErrCtx) (e : PeerErr)
      → Local.send_service i s m c ≡ err e
      → IsSendError e
  unfolding Local.send_service
  send_service-IsSendError s m c e h = elim (Option-cases (lookup (sid m) s.handlers)) [
    | inl absent ↦ settled (ground (arith, absent)) h
    | inr (rec, present) ↦ elim (Bool-cases (Local.contains i.known (sid m))) [
      | inl known ↦ elim (Bool-cases (i.deserializes (sid m) (msg m))) [
        | inl readable ↦ absurd (ground (arith, present, known, readable))
        | inr garbled ↦ garbage (ground (arith, present, known, garbled)) h
      ]
      | inr other ↦ settled (ground (arith, present, other)) h
    ]
  ]
    where
      settled :
          {x : Result Task PeerErr}
          → x ≡ err (PeerErr.no_handler (with_context c "Services::send_service"))
          → x ≡ err e
          → IsSendError e
      settled {x} r k = subst IsSendError (err_inj {x = x} r k) tt

      garbage :
          {x : Result Task PeerErr}
          → x ≡ err (PeerErr.deserialize (with_context c "Services::send_service"))
          → x ≡ err e
          → IsSendError e
      garbage {x} r k = subst IsSendError (err_inj {x = x} r k) tt

  call_service-Refusal :
      (s : Services) (m : ThesWf) (c : PeerErrCtx) → Refusal (Local.call_service i s m c)
  unfolding Local.call_service
  call_service-Refusal s m c = elim (Option-cases (lookup (sid m) s.handlers)) [
    | inl absent ↦ unhandled (with_context c "Services::call_service") (ground (arith, absent))
    | inr (rec, present) ↦ elim (Bool-cases (Local.contains i.known (sid m))) [
      | inl known ↦ elim (Bool-cases (i.deserializes (sid m) (msg m))) [
        | inl readable ↦
            accepted
              (record {
                deliveries = Local.handed rec (msg m);
                output =
                    Local.respond m (with_context c "Services::call_service") (rec.answer (msg m));
              })
              (ground (arith, present, known, readable))
        | inr garbled ↦
            unreadable (with_context c "Services::call_service")
              (ground (arith, present, known, garbled))
      ]
      | inr other ↦
          unknown (with_context c "Services::call_service") (ground (arith, present, other))
    ]
  ]

  -- The map of local actors, whatever its handlers, keeps to the contract of service maps: the
  -- errors it ends a send in are the missing handler and the failed deserialization, and those of a
  -- call are ones that the handler of request errors has an arm for.
  pub services_map-IsServiceMap : (s : Services) → IsServiceMap (services_map i s)
  services_map-IsServiceMap s = record {
    sends = send_service-IsSendError s;
    calls = λ m c e h.
        Refusal-IsReportable (Local.call_service i s m c) e (call_service-Refusal s m c) h;
  }
