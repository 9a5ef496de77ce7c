-- ===== src/Frame/Ranges.antt =====
-- Reading a range of a list of which another range was overwritten.
use thespis_impl_remote.Common.{
  ℕ, zero, suc, ◌+◌, ◌≤◌, ◌≡◌, refl, ap, ◌∙◌, List, [], ◌∷◌, ◌++◌, arith, length, take, drop, slice,
  splice, length-append, length-take, length-drop, take-append, drop-append,
}

module _ {ℓ} {A : Type ℓ} where
  pub length-splice :
      (xs : List A) (i : ℕ) (w : List A)
      → i + length w ≤ length xs
      → length (splice xs i w) ≡ length xs
  length-splice xs i w h = omega (
    arith,
    length-append (take i xs) (w ++ drop (i + length w) xs),
    length-append w (drop (i + length w) xs),
    length-take i xs (omega arith),
    length-drop (i + length w) xs,
  )

  drop-splice :
      (xs : List A) (i : ℕ) (w : List A)
      → i ≤ length xs
      → drop i (splice xs i w) ≡ w ++ drop (i + length w) xs
  drop-splice xs i w h = drop-append i (take i xs) _ (length-take i xs h)

  -- What was written is read back.
  pub slice-splice_self :
      (xs : List A) (i n : ℕ) (w : List A)
      → i ≤ length xs
      → length w ≡ n
      → slice (splice xs i w) i n ≡ w
  slice-splice_self xs i n w h e = ap (take n) (drop-splice xs i w h) ∙ take-append n w _ e

  pub take_below :
      (xs ys : List A) (i n : ℕ) → n ≤ i → i ≤ length xs → take n (take i xs ++ ys) ≡ take n xs
  take_below xs ys i zero h k = refl
  take_below xs ys zero (suc n) h k = absurd (omega arith)
  take_below [] ys (suc i) (suc n) h k = absurd (omega arith)
  take_below (x ∷ xs) ys (suc i) (suc n) h k =
      ap (◌∷◌ x) (take_below xs ys i n (omega arith) (omega arith))

  -- A range before the written one keeps its items.
  pub slice-splice_below :
      (xs : List A) (i j n : ℕ) (ys : List A)
      → j + n ≤ i
      → i ≤ length xs
      → slice (take i xs ++ ys) j n ≡ slice xs j n
  slice-splice_below xs i zero n ys h k = take_below xs ys i n (omega arith) k
  slice-splice_below xs zero (suc j) n ys h k = absurd (omega arith)
  slice-splice_below [] (suc i) (suc j) n ys h k = absurd (omega arith)
  slice-splice_below (x ∷ xs) (suc i) (suc j) n ys h k =
      slice-splice_below xs i j n ys (omega arith) (omega arith)

  drop_above :
      (xs w : List A) (k j : ℕ)
      → length w ≡ k
      → k ≤ j
      → k ≤ length xs
      → drop j (w ++ drop k xs) ≡ drop j xs
  drop_above xs [] zero j e h l = refl
  drop_above xs [] (suc k) j e h l = absurd (omega arith)
  drop_above xs (y ∷ w) zero j e h l = absurd (omega arith)
  drop_above xs (y ∷ w) (suc k) zero e h l = absurd (omega arith)
  drop_above [] (y ∷ w) (suc k) (suc j) e h l = absurd (omega arith)
  drop_above (x ∷ xs) (y ∷ w) (suc k) (suc j) e h l =
      drop_above xs w k j (omega arith) (omega arith) (omega arith)

  -- So do all items behind it.
  pub drop-splice_above :
      (xs : List A) (i j k : ℕ) (w : List A)
      → i + length w ≡ k
      → k ≤ j
      → k ≤ length xs
      → drop j (take i xs ++ (w ++ drop k xs)) ≡ drop j xs
  drop-splice_above xs zero j k w e h l = drop_above xs w k j (omega arith) h l
  drop-splice_above [] (suc i) j k w e h l = absurd (omega arith)
  drop-splice_above (x ∷ xs) (suc i) zero k w e h l = absurd (omega arith)
  drop-splice_above (x ∷ xs) (suc i) (suc j) zero w e h l = absurd (omega arith)
  drop-splice_above (x ∷ xs) (suc i) (suc j) (suc k) w e h l =
      drop-splice_above xs i j k w (omega arith) (omega arith) (omega arith)
