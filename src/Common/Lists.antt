-- ===== src/Common/Lists.antt =====
-- Byte sequences: lists measured by native numbers, ranges read and written.
use Prim.Native.Nat.{ℕ, zero, suc, ◌+◌, ◌-◌, ◌≤◌}
use mathlib.Core.Path.{◌≡◌, refl, ap}
use mathlib.Core.List.{List, [], ◌∷◌, ◌++◌}
use native.Mathlib.Omega.{arith}

module _ {ℓ} {A : Type ℓ} where
  abbrev pub length : List A → ℕ
  length [] = 0
  length (x ∷ xs) = suc (length xs)

  abbrev pub take : ℕ → List A → List A
  take zero xs = []
  take (suc n) [] = []
  take (suc n) (x ∷ xs) = x ∷ take n xs

  abbrev pub drop : ℕ → List A → List A
  drop zero xs = xs
  drop (suc n) [] = []
  drop (suc n) (x ∷ xs) = drop n xs

  abbrev pub replicate : ℕ → A → List A
  replicate zero a = []
  replicate (suc n) a = a ∷ replicate n a

  -- The `n` items from index `i` on, `xs[i..i+n]`.
  abbrev pub slice : List A → ℕ → ℕ → List A
  slice xs i n = take n (drop i xs)

  -- Overwrites the items from index `i` on by `w`.
  abbrev pub splice : List A → ℕ → List A → List A
  splice xs i w = take i xs ++ (w ++ drop (i + length w) xs)

  pub length-append : (xs ys : List A) → length (xs ++ ys) ≡ length xs + length ys
  length-append [] ys = omega arith
  length-append (x ∷ xs) ys = omega (arith, length-append xs ys)

  pub length-drop : (n : ℕ) (xs : List A) → length (drop n xs) ≡ length xs - n
  length-drop zero xs = omega arith
  length-drop (suc n) [] = omega arith
  length-drop (suc n) (x ∷ xs) = omega (arith, length-drop n xs)

  pub length-take : (n : ℕ) (xs : List A) → n ≤ length xs → length (take n xs) ≡ n
  length-take zero xs h = refl
  length-take (suc n) [] h = absurd (omega arith)
  length-take (suc n) (x ∷ xs) h = ap suc (length-take n xs (omega arith))

  pub length-replicate : (n : ℕ) (a : A) → length (replicate n a) ≡ n
  length-replicate zero a = refl
  length-replicate (suc n) a = ap suc (length-replicate n a)

  pub take-append-drop : (n : ℕ) (xs : List A) → take n xs ++ drop n xs ≡ xs
  take-append-drop zero xs = refl
  take-append-drop (suc n) [] = refl
  take-append-drop (suc n) (x ∷ xs) = ap (◌∷◌ x) (take-append-drop n xs)

  pub drop-drop : (i j k : ℕ) (xs : List A) → i + j ≡ k → drop j (drop i xs) ≡ drop k xs
  drop-drop zero j k xs h = ap (λ n. drop n xs) (omega arith)
  drop-drop (suc i) zero zero xs h = absurd (omega arith)
  drop-drop (suc i) (suc j) zero xs h = absurd (omega arith)
  drop-drop (suc i) zero (suc k) [] h = refl
  drop-drop (suc i) (suc j) (suc k) [] h = refl
  drop-drop (suc i) j (suc k) (x ∷ xs) h = drop-drop i j k xs (omega arith)

  -- A prefix of known length is what `take` finds, and `drop` leaves the rest.
  pub take-append : (n : ℕ) (xs ys : List A) → length xs ≡ n → take n (xs ++ ys) ≡ xs
  take-append zero [] ys h = refl
  take-append zero (x ∷ xs) ys h = absurd (omega arith)
  take-append (suc n) [] ys h = absurd (omega arith)
  take-append (suc n) (x ∷ xs) ys h = ap (◌∷◌ x) (take-append n xs ys (omega arith))

  pub drop-append : (n : ℕ) (xs ys : List A) → length xs ≡ n → drop n (xs ++ ys) ≡ ys
  drop-append zero [] ys h = refl
  drop-append zero (x ∷ xs) ys h = absurd (omega arith)
  drop-append (suc n) [] ys h = absurd (omega arith)
  drop-append (suc n) (x ∷ xs) ys h = drop-append n xs ys (omega arith)

  -- Reading before the end of a list does not see what is appended.
  pub slice-append :
      (xs ys : List A) (i n : ℕ) → i + n ≤ length xs → slice (xs ++ ys) i n ≡ slice xs i n
  slice-append xs ys zero zero h = refl
  slice-append [] ys zero (suc n) h = absurd (omega arith)
  slice-append (x ∷ xs) ys zero (suc n) h = ap (◌∷◌ x) (slice-append xs ys zero n (omega arith))
  slice-append [] ys (suc i) zero h = absurd (omega arith)
  slice-append [] ys (suc i) (suc n) h = absurd (omega arith)
  slice-append (x ∷ xs) ys (suc i) n h = slice-append xs ys i n (omega arith)

  pub drop-append_below :
      (n : ℕ) (xs ys : List A) → n ≤ length xs → drop n (xs ++ ys) ≡ drop n xs ++ ys
  drop-append_below zero xs ys h = refl
  drop-append_below (suc n) [] ys h = absurd (omega arith)
  drop-append_below (suc n) (x ∷ xs) ys h = drop-append_below n xs ys (omega arith)

  pub take_all : (n : ℕ) (xs : List A) → length xs ≤ n → take n xs ≡ xs
  take_all zero [] h = refl
  take_all (suc n) [] h = refl
  take_all zero (x ∷ xs) h = absurd (omega arith)
  take_all (suc n) (x ∷ xs) h = ap (◌∷◌ x) (take_all n xs (omega arith))

  pub drop_all : (n : ℕ) (xs : List A) → length xs ≤ n → drop n xs ≡ []
  drop_all zero [] h = refl
  drop_all (suc n) [] h = refl
  drop_all zero (x ∷ xs) h = absurd (omega arith)
  drop_all (suc n) (x ∷ xs) h = drop_all n xs (omega arith)
