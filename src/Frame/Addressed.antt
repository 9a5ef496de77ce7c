-- ===== src/Frame/Addressed.antt =====
-- A frame as every sender makes it: `with_capacity`, then `set_sid`, `set_cid` and the message.
use thespis_impl_remote.Common.{ℕ, ◌+◌, ◌<◌, ◌≡◌, ap, ap₂, ◌∙◌, List, [], ◌++◌, arith, length}
use thespis_impl_remote.Wire.UniqueId.{u64_mod}
use thespis_impl_remote.Wire.WireType.{kind_of}
use thespis_impl_remote.Frame.ByteOrder.{ByteOrder}
use thespis_impl_remote.Frame.ThesWf.{
  ThesWf, as_buf, len_header, sid, cid, msg, kind, set_sid, set_cid, with_capacity, write,
}
use thespis_impl_remote.Frame.Fields.{IsFramed, set_sid_lem, set_cid_lem}
use thespis_impl_remote.Frame.Build.{IsWhole, with_capacity_lem, write_lem}

module _ ⦃bo : ByteOrder⦄ where
  abbrev pub addressed : ℕ → ℕ → ℕ → ThesWf
  addressed s c size = set_cid (set_sid (with_capacity size) s) c

  addressed-blank :
      (s c size : ℕ)
      → s < u64_mod
      → c < u64_mod
      → IsWhole (addressed s c size)
        × (sid (addressed s c size) ≡ s)
        × (cid (addressed s c size) ≡ c)
        × (msg (addressed s c size) ≡ [])
        × (length (as_buf (addressed s c size)) ≡ len_header)
  addressed-blank s c size hs hc =
      let fresh = with_capacity_lem size in
      let blank = with_capacity size in
      let one = set_sid_lem blank s fresh.0.framed hs in
      let framed : IsFramed (set_sid blank s) = omega (arith, one.4, fresh.4) in
      let two = set_cid_lem (set_sid blank s) c framed hc in
      (
        record {
          framed = omega (arith, two.4, one.4, fresh.4);
          consistent = two.2 ∙ one.2 ∙ fresh.0.consistent ∙ omega (arith, two.4, one.4);
        },
        two.1 ∙ one.0,
        two.0,
        two.3 ∙ one.3 ∙ fresh.3,
        omega (arith, two.4, one.4, fresh.4),
      )

  -- A frame made by `with_capacity`, `set_sid`, `set_cid` and one `write` of a message, where both
  -- identifiers and the size fit a u64, is read back with these identifiers and this message, has
  -- the kind that the identifiers say, and a whole header with the right length.
  pub addressed_lem :
      (s c size : ℕ) (body : List ℕ)
      → s < u64_mod
      → c < u64_mod
      → len_header + length body < u64_mod
      → (kind (write (addressed s c size) body) ≡ kind_of s c)
        × (sid (write (addressed s c size) body) ≡ s)
        × (cid (write (addressed s c size) body) ≡ c)
        × (msg (write (addressed s c size) body) ≡ body)
        × IsWhole (write (addressed s c size) body)
  unfolding kind
  addressed_lem s c size body hs hc fits =
      let blank = addressed-blank s c size hs hc in
      let w = write_lem (addressed s c size) body blank.0 (omega (arith, blank.4)) in
      (
        ap₂ kind_of (w.1 ∙ blank.1) (w.2 ∙ blank.2),
        w.1 ∙ blank.1,
        w.2 ∙ blank.2,
        w.3 ∙ ap (λ l. l ++ body) blank.3,
        w.0,
      )
