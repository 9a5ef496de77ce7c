-- ===== src/Services/Requests.antt =====
-- What a client of a remote service puts on the wire, and what it gets back.
use thespis_impl_remote.Common.{ℕ, ◌+◌, ◌<◌, ◌≡◌, ◌≢◌, List, some, arith, length, ok}
use thespis_impl_remote.Wire.UniqueId.{u64_mod, u64_max}
use thespis_impl_remote.Wire.ServiceId.{ServiceId}
use thespis_impl_remote.Wire.WireType.{incoming_send, kind_of}
use thespis_impl_remote.Frame.ByteOrder.{ByteOrder}
use thespis_impl_remote.Frame.ThesWf.{ThesWf, len_header, sid, cid, msg, kind}
use thespis_impl_remote.Frame.Addressed.{addressed_lem}
use thespis_impl_remote.Services.Remote.{build_wf}

module _ ⦃bo : ByteOrder⦄ where
  -- The frame of a message sent to a remote service, whose id is none of the reserved ones and
  -- where the size fits a u64, is taken for a send, with that service id, no connection id, and the
  -- serialized message.
  pub build_wf_lem :
      (s : ServiceId) (bytes : List ℕ) (wf : ThesWf)
      → s ≢ 0
      → s < u64_max
      → len_header + length bytes < u64_mod
      → build_wf s (some bytes) 0 ≡ ok wf
      → (kind wf ≡ incoming_send) × (sid wf ≡ s) × (cid wf ≡ 0) × (msg wf ≡ bytes)
  unfolding build_wf kind_of
  build_wf_lem s bytes wf ne lt fits built =
      let a = addressed_lem s 0 0 bytes (omega arith) (omega arith) fits in ground (arith, a, built)
