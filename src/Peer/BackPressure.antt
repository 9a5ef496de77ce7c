-- ===== src/Peer/BackPressure.antt =====
-- peer/backpressure.rs: a counter of free slots. The i64 is its bit pattern, a number below 2^64
-- that stands for a negative one from 2^63 on; wakers are numbered.
use thespis_impl_remote.Common.{
  ℕ, ◌+◌, ◌-◌, ◌%◌, ◌^◌, Bool, List, [], ◌∷◌, ◌++◌, Poll, pending, ready, ltb, not, ◌&&◌,
  if◌then◌else◌,
}
use thespis_impl_remote.Wire.UniqueId.{u64_mod}

pub record BackPressure : Type 0 where
  pub available : ℕ
  pub wakers : List ℕ

abbrev pub i64_half : ℕ
i64_half = 2 ^ 63

-- The pattern stands for a number above 0.
abbrev pub is_positive : ℕ → Bool
is_positive n = ltb 0 n && ltb n i64_half

abbrev pub new : ℕ → BackPressure
new slots = record { available = slots; wakers = [] }

-- The wakers that an operation woke are returned.
abbrev pub wake_first : BackPressure → BackPressure × List ℕ
wake_first bp = elim bp.wakers [ [] ↦ (bp, []) | w ∷ rest ↦ (record bp { wakers = rest }, w ∷ []) ]

unfoldable pub add_slots : BackPressure → ℕ → BackPressure × List ℕ
add_slots bp num =
    let old = bp.available in
    let bp' : BackPressure = record bp { available = (old + num) % u64_mod } in
    if not (is_positive old) && is_positive ((old + num) % u64_mod)
    then wake_first bp'
    else (bp', [])

unfoldable pub remove_slots : BackPressure → ℕ → BackPressure
remove_slots bp num = record bp { available = (bp.available + u64_mod - num) % u64_mod }

-- `BPInner::poll` by the task of the given waker.
unfoldable pub poll_wait : BackPressure → ℕ → Poll (Unit {0}) × BackPressure × List ℕ
poll_wait bp waker =
    if is_positive bp.available
    then (let (bp', woken) = (if ltb 1 bp.available then wake_first bp else (bp, [])) in
        (ready tt, bp', woken))
    else (pending, record bp { wakers = bp.wakers ++ waker ∷ [] }, [])
