-- ===== src/Frame/Kinds.antt =====
-- What a receiver takes a frame for, from the identifiers that the sender put in it.
use thespis_impl_remote.Common.{ℕ, ◌<◌, ◌≡◌, ◌≢◌, ◌↔◌, ap₂, ◌∙◌, arith}
use thespis_impl_remote.Wire.UniqueId.{u64_mod, u64_max}
use thespis_impl_remote.Wire.WireType.{
  connection_error, incoming_send, incoming_call, call_response, kind_of,
}
use thespis_impl_remote.Frame.ByteOrder.{ByteOrder}
use thespis_impl_remote.Frame.ThesWf.{ThesWf, sid, cid, set_sid, set_cid, kind}
use thespis_impl_remote.Frame.Fields.{IsFramed, set_sid_lem, set_cid_lem}

module _ ⦃bo : ByteOrder⦄ where
  -- The four kinds are told apart exactly: a null service id is an error, a full one a response,
  -- and any other a send if the connection id is null and a call if it is not.
  pub kind_iff :
      (wf : ThesWf)
      → ((kind wf ≡ connection_error) ↔ (sid wf ≡ 0))
        × ((kind wf ≡ call_response) ↔ (sid wf ≡ u64_max))
        × ((kind wf ≡ incoming_send) ↔ ((sid wf ≢ 0) × (sid wf ≢ u64_max) × (cid wf ≡ 0)))
        × ((kind wf ≡ incoming_call) ↔ ((sid wf ≢ 0) × (sid wf ≢ u64_max) × (cid wf ≢ 0)))
  unfolding kind kind_of
  kind_iff wf = (
    ((λ h. ground arith), (λ h. ground arith)),
    ((λ h. ground arith), (λ h. ground arith)),
    ((λ h. ground arith), (λ h. ground arith)),
    ((λ h. ground arith), (λ h. ground arith)),
  )

  -- The kind of a frame that was addressed by `set_sid` and `set_cid` is that of the two
  -- identifiers, whatever stood in the header before.
  pub kind-set_cid-set_sid :
      (wf : ThesWf) (s c : ℕ)
      → IsFramed wf
      → s < u64_mod
      → c < u64_mod
      → kind (set_cid (set_sid wf s) c) ≡ kind_of s c
  unfolding kind
  kind-set_cid-set_sid wf s c f hs hc =
      let one = set_sid_lem wf s f hs in
      let framed : IsFramed (set_sid wf s) = omega (arith, one.4, f) in
      let two = set_cid_lem (set_sid wf s) c framed hc in ap₂ kind_of (two.1 ∙ one.0) two.0
