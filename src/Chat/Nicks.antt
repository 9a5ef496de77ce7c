-- ===== src/Chat/Nicks.antt =====
-- The map of users: each under its own id, no id twice, no nickname twice, and every nickname valid.
use thespis_impl_remote.Common.{
  ℕ, Bool, true, false, [], ◌∷◌, none, some, arith, Map, lookup, insert, remove, lookup-remove,
  lookup-remove_self, ◌==◌, ◌≡◌, refl, inl, inr, Bool-cases, ap,
}
use thespis_impl_remote.Chat.Format.{Text, text_eq_refl, text_eq_sound}
use thespis_impl_remote.Chat.Server.{UserData, any_nick}

module _ (is_match : Text → Bool) where
  unfoldable pub IsTidy : Map UserData → Type 0
  IsTidy [] = Unit {0}
  IsTidy ((sid, ud) ∷ m) =
      (ud.addr ≡ sid)
      × (lookup sid m ≡ none)
      × (any_nick m ud.nick ≡ false)
      × (is_match ud.nick ≡ true)
      × IsTidy m

  any_nick-remove :
      (k : ℕ) (m : Map UserData) (nick : Text)
      → any_nick m nick ≡ false
      → any_nick (remove k m) nick ≡ false
  unfolding any_nick remove
  any_nick-remove k [] nick h = refl
  any_nick-remove k ((j, ud) ∷ m) nick h = ground (arith, any_nick-remove k m nick)

  pub remove-IsTidy : (k : ℕ) (m : Map UserData) → IsTidy m → IsTidy (remove k m)
  unfolding IsTidy remove
  remove-IsTidy k [] t = tt
  remove-IsTidy k ((j, ud) ∷ m) t = ground (
    arith,
    remove-IsTidy k m t.4,
    lookup-remove j k m,
    any_nick-remove k m ud.nick,
    t.0,
    t.1,
    t.2,
    t.3,
  )

  -- A user whose nickname is valid and nobody else's.
  pub insert-IsTidy :
      (k : ℕ) (ud : UserData) (m : Map UserData)
      → IsTidy m
      → ud.addr ≡ k
      → any_nick (remove k m) ud.nick ≡ false
      → is_match ud.nick ≡ true
      → IsTidy (insert k ud m)
  unfolding IsTidy insert
  insert-IsTidy k ud m t own free valid =
      (own, lookup-remove_self k m, free, valid, remove-IsTidy k m t)

  pub insert-IsTidy_free :
      (k : ℕ) (ud : UserData) (m : Map UserData)
      → IsTidy m
      → ud.addr ≡ k
      → any_nick m ud.nick ≡ false
      → is_match ud.nick ≡ true
      → IsTidy (insert k ud m)
  insert-IsTidy_free k ud m t own free valid =
      insert-IsTidy k ud m t own (any_nick-remove k m ud.nick free) valid

  -- A nickname that nobody has is not that of a user.
  pub any_nick-lookup :
      (k : ℕ) (ud : UserData) (m : Map UserData) → lookup k m ≡ some ud → any_nick m ud.nick ≡ true
  unfolding any_nick lookup
  any_nick-lookup k ud [] h = absurd (ground arith)
  any_nick-lookup k ud ((j, other) ∷ m) h =
      ground (arith, any_nick-lookup k ud m, text_eq_refl ud.nick)

  -- What holds of a user that is found.
  pub found :
      (k : ℕ) (ud : UserData) (m : Map UserData)
      → IsTidy m
      → lookup k m ≡ some ud
      → (ud.addr ≡ k) × (is_match ud.nick ≡ true) × (any_nick (remove k m) ud.nick ≡ false)
  unfolding IsTidy lookup remove any_nick
  found k ud [] t h = absurd (ground arith)
  found k ud ((j, other) ∷ m) t h = elim (Bool-cases (k == j)) [
    | inl same ↦ ground (arith, same, t.0, t.2, t.3, any_nick-remove k m ud.nick)
    | inr apart ↦ ground (
      arith,
      apart,
      found k ud m t.4,
      t.2,
      any_nick-lookup k ud m,
      text_eq_sound other.nick ud.nick,
    )
  ]

  -- Two users with one nickname are one.
  pub same_nick :
      (j k : ℕ) (a b : UserData) (m : Map UserData)
      → IsTidy m
      → lookup j m ≡ some a
      → lookup k m ≡ some b
      → a.nick ≡ b.nick
      → j ≡ k
  same_nick j k a b m t h i n = elim (Bool-cases (j == k)) [
    | inl same ↦ ground (arith, same)
    | inr apart ↦ absurd (
        ground (
          arith,
          (found k b m t i).2,
          ap (any_nick (remove k m)) n,
          any_nick-lookup j a (remove k m) (ground (arith, lookup-remove j k m, apart, h)),
        ))
  ]
