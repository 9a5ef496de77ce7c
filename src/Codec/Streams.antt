-- ===== src/Codec/Streams.antt =====
-- Byte streams for the tests: one that holds all its bytes, one that has ended, one that fails.
use thespis_impl_remote.Common.{
  ℕ, zero, suc, ◌<◌, ◌≤◌, ◌≡◌, refl, List, [], ◌∷◌, ◌++◌, arith, length, take, drop, length-take,
  take-append-drop, ltb, if◌then◌else◌, Bool-cases, inl, inr,
}
use thespis_impl_remote.Wire.WireErr.{unexpected_eof, connection_aborted}
use thespis_impl_remote.Codec.Transport.{Read, wait, got, fail, ExactReader, Reader}

abbrev pub poll_list : ℕ → List ℕ → Read (List ℕ)
poll_list n t = if ltb (length t) n then wait t else got (drop n t) (take n t)

pub list_wait : (n : ℕ) (t t' : List ℕ) → poll_list n t ≡ wait t' → t' ≡ t
list_wait n t t' h = ground arith

pub list_got : (n : ℕ) (t t' w : List ℕ) → poll_list n t ≡ got t' w → (length w ≡ n) × (t ≡ w ++ t')
list_got n t t' w h = elim (Bool-cases (ltb (length t) n)) [
  | inl short ↦ absurd (ground (arith, short))
  | inr there ↦ ground (arith, there, length-take n t, take-append-drop n t)
]

-- A stream of which all bytes are there.
abbrev pub exact : ExactReader
exact = record {
  T = List ℕ;
  unread = λ t. t;
  poll_exact = poll_list;
  exact_wait = list_wait;
  exact_got = list_got;
}

pub length-take_at_most : (n : ℕ) (t : List ℕ) → length (take n t) ≤ n
length-take_at_most zero t = omega arith
length-take_at_most (suc n) [] = omega arith
length-take_at_most (suc n) (x ∷ t) = omega (arith, length-take_at_most n t)

pub some_wait : (n : ℕ) (t t' : List ℕ) → got (drop n t) (take n t) ≡ wait t' → t' ≡ t
some_wait n t t' h = absurd (ground arith)

pub some_got :
    (n : ℕ) (t t' w : List ℕ)
    → got (drop n t) (take n t) ≡ got t' w
    → (length w ≤ n) × (t ≡ w ++ t')
some_got n t t' w h = ground (arith, length-take_at_most n t, take-append-drop n t)

pub none_got : (n : ℕ) (t t' : List ℕ) → 0 < n → got (drop n t) (take n t) ≡ got t' [] → t ≡ []
none_got zero t t' h e = absurd (omega arith)
none_got (suc n) [] t' h e = refl
none_got (suc n) (x ∷ t) t' h e = absurd (ground arith)

-- The same, for reads of at most so many bytes; it ends after these.
abbrev pub plain : Reader
plain = record {
  T = List ℕ;
  unread = λ t. t;
  poll_read = λ n t. got (drop n t) (take n t);
  read_wait = some_wait;
  read_got = some_got;
  read_none = none_got;
}

pub never_wait : (t t' : List ℕ) → fail t connection_aborted ≡ wait t' → t' ≡ t
never_wait t t' h = absurd (ground arith)

pub never_got :
    (n : ℕ) (t t' w : List ℕ)
    → fail t connection_aborted ≡ got t' w
    → (length w ≤ n) × (t ≡ w ++ t')
never_got n t t' w h = absurd (ground arith)

pub never_none : (t t' : List ℕ) → fail t connection_aborted ≡ got t' [] → t ≡ []
never_none t t' h = absurd (ground arith)

-- A stream that always fails.
abbrev pub failing : Reader
failing = record {
  T = List ℕ;
  unread = λ t. t;
  poll_read = λ n t. fail t connection_aborted;
  read_wait = λ n t t' h. never_wait t t' h;
  read_got = never_got;
  read_none = λ n t t' k h. never_none t t' h;
}

pub exact-IsEager :
    (n : ℕ) (t : List ℕ) → n ≤ length t → (t' : List ℕ) × (w : List ℕ) × (poll_list n t ≡ got t' w)
exact-IsEager n t h = (drop n t, take n t, ground arith)

pub plain-IsEager :
    (n : ℕ) (t : List ℕ)
    → 0 < n
    → 0 < length t
    → (t' : List ℕ) × (w : List ℕ) × (got (drop n t) (take n t) ≡ got t' w)
plain-IsEager n t pos some_left = (drop n t, take n t, refl)

abbrev pub poll_ending : ℕ → List ℕ → Read (List ℕ)
poll_ending n t = if ltb (length t) n then fail t unexpected_eof else got (drop n t) (take n t)

pub ending_wait : (n : ℕ) (t t' : List ℕ) → poll_ending n t ≡ wait t' → t' ≡ t
ending_wait n t t' h = absurd (ground arith)

pub ending_got :
    (n : ℕ) (t t' w : List ℕ) → poll_ending n t ≡ got t' w → (length w ≡ n) × (t ≡ w ++ t')
ending_got n t t' w h = elim (Bool-cases (ltb (length t) n)) [
  | inl short ↦ absurd (ground (arith, short))
  | inr there ↦ ground (arith, there, length-take n t, take-append-drop n t)
]

-- A stream of which all bytes are there, and which ends with them.
abbrev pub ending : ExactReader
ending = record {
  T = List ℕ;
  unread = λ t. t;
  poll_exact = poll_ending;
  exact_wait = ending_wait;
  exact_got = ending_got;
}

pub ending-IsEager :
    (n : ℕ) (t : List ℕ)
    → n ≤ length t
    → (t' : List ℕ) × (w : List ℕ) × (poll_ending n t ≡ got t' w)
ending-IsEager n t h = (drop n t, take n t, ground arith)

pub ending_ends :
    (n : ℕ) (t : List ℕ) → length t < n → (t' : List ℕ) × (poll_ending n t ≡ fail t' unexpected_eof)
ending_ends n t h = (t, ground arith)
