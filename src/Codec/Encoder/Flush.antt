-- ===== src/Codec/Encoder/Flush.antt =====
-- The encoder's state and operations.
use Prim.Native.Nat.{min}
use thespis_impl_remote.Common.{
  ℕ, ◌+◌, List, [], ◌∷◌, ◌++◌, Option, none, some, length, take, drop, Result, ok, err, Poll,
  pending, ready, panicked, ◌==◌, if◌then◌else◌,
}
use thespis_impl_remote.Wire.WireErr.{WireErr, connection_aborted, from_io}
use thespis_impl_remote.Frame.ThesWf.{ThesWf, as_buf}
use thespis_impl_remote.Codec.Transport.{WriteAnswer, blocked, accepts, fails}

-- `out_bytes` is what the writer has taken so far.
pub record Encoder : Type 0 where
  pub out_bytes : List ℕ
  pub buffer : Option (ThesWf × ℕ)
  pub max_size : ℕ

pub record Flushed : Type 0 where
  pub result : Poll (Result (Unit {0}) WireErr)
  pub encoder : Encoder
  pub answers : List WriteAnswer

abbrev pub new : ℕ → Encoder
new max_size = record { out_bytes = []; buffer = none; max_size = max_size }

-- The loop of `poll_flush`: the buffer is taken out, and put back while bytes are left.
unfoldable pub flush : Encoder → Option (ThesWf × ℕ) → List WriteAnswer → Flushed
flush e none answers = record {
  result = ready (ok tt);
  encoder = record e { buffer = none };
  answers = answers;
}
flush e (some (msg, pos)) [] = record {
  result = pending;
  encoder = record e { buffer = some (msg, pos) };
  answers = [];
}
flush e (some (msg, pos)) (blocked ∷ answers) = record {
  result = pending;
  encoder = record e { buffer = some (msg, pos) };
  answers = answers;
}
flush e (some (msg, pos)) (fails kind ∷ answers) = record {
  result = ready (err (from_io kind));
  encoder = record e { buffer = none };
  answers = answers;
}
flush e (some (msg, pos)) (accepts room ∷ answers) =
    let offered = drop pos (as_buf msg) in
    let x = min room (length offered) in
    let e' = record e { out_bytes = e.out_bytes ++ take x offered; buffer = none } in
    let rest = flush e' (some (msg, pos + x)) answers in
    if x == 0
    then record {
      result = ready (err (from_io connection_aborted));
      encoder = e';
      answers = answers;
    }
    else if pos + x == length (as_buf msg)
    then record { result = ready (ok tt); encoder = e'; answers = answers }
    else rest

unfoldable pub poll_flush : Encoder → List WriteAnswer → Flushed
unfolding flush
poll_flush e answers = flush e e.buffer answers

unfoldable pub poll_ready : Encoder → List WriteAnswer → Flushed
unfolding poll_flush
poll_ready e answers = poll_flush e answers

unfoldable pub poll_close : Encoder → List WriteAnswer → Flushed
unfolding poll_flush
poll_close e answers = poll_flush e answers

-- It panics if a message is still in the buffer.
unfoldable pub start_send : Encoder → ThesWf → Poll Encoder
start_send e msg = elim e.buffer [
  | none ↦ ready (record e { buffer = some (msg, 0) })
  | some _ ↦ panicked
]
