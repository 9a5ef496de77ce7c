-- ===== src/Common/Results.antt =====
-- Results of fallible code, and what a poll of a future or a stream answers.

pub data Result (A E : Type 0) : Type 0 where
  ok : A → Result A E
  err : E → Result A E

abbrev pub map_err : {A E F : Type 0} → (E → F) → Result A E → Result A F
map_err f (ok a) = ok a
map_err f (err e) = err (f e)

-- `?` and the do notation.
infixl 5 ◌>>=◌
abbrev pub ◌>>=◌ : {A B E : Type 0} → Result A E → (A → Result B E) → Result B E
ok a >>= f = f a
err e >>= f = err e

-- `panicked` is a failed `unwrap`, slice bound or assertion.
pub data Poll (A : Type 0) : Type 0 where
  pending : Poll A
  ready : A → Poll A
  panicked : Poll A

abbrev pub poll_map : {A B : Type 0} → (A → B) → Poll A → Poll B
poll_map f pending = pending
poll_map f (ready a) = ready (f a)
poll_map f panicked = panicked
