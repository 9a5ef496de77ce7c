-- ===== src/Codec/Transport.antt =====
-- What the codec takes from the byte stream under it (the AsyncRead and AsyncWrite of the futures
-- crate), as answers that the environment chooses.
use thespis_impl_remote.Common.{ℕ, ◌≤◌, ◌<◌, ◌≡◌, List, [], ◌++◌, length}
use thespis_impl_remote.Wire.WireErr.{ErrorKind}

-- What a writer answers to a poll: it is not ready, has room for so many bytes (of which it takes
-- what is offered), or fails.
pub data WriteAnswer : Type 0 where
  blocked : WriteAnswer
  accepts : ℕ → WriteAnswer
  fails : ErrorKind → WriteAnswer

-- What a reader answers: it is not ready, hands over bytes, or fails. It goes on in a new state.
pub data Read (T : Type 0) : Type 0 where
  wait : T → Read T
  got : T → List ℕ → Read T
  fail : T → ErrorKind → Read T

-- `read_exact`: the answer comes when so many bytes are there; until then none count as read.
pub record ExactReader : Type 1 where
  pub T : Type 0
  pub unread : T → List ℕ
  pub poll_exact : ℕ → T → Read T
  pub exact_wait : (n : ℕ) (t t' : T) → poll_exact n t ≡ wait t' → unread t' ≡ unread t
  pub exact_got :
      (n : ℕ) (t t' : T) (bytes : List ℕ)
      → poll_exact n t ≡ got t' bytes
      → (length bytes ≡ n) × (unread t ≡ bytes ++ unread t')

-- `poll_read` with a buffer of so many bytes. At the end of the stream it hands over none.
pub record Reader : Type 1 where
  pub T : Type 0
  pub unread : T → List ℕ
  pub poll_read : ℕ → T → Read T
  pub read_wait : (n : ℕ) (t t' : T) → poll_read n t ≡ wait t' → unread t' ≡ unread t
  pub read_got :
      (n : ℕ) (t t' : T) (bytes : List ℕ)
      → poll_read n t ≡ got t' bytes
      → (length bytes ≤ n) × (unread t ≡ bytes ++ unread t')
  pub read_none : (n : ℕ) (t t' : T) → 0 < n → poll_read n t ≡ got t' [] → unread t ≡ []
