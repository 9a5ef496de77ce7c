-- ===== src/Chat/Handling.antt =====
-- What each message that the server handles makes of its map of users.
use thespis_impl_remote.Common.{
  ℕ, true, false, none, some, arith, lookup, insert, remove, ◌≡◌, refl, inl, inr, ◌⊎◌, Option-cases,
  Result, ok, err, Option,
}
use thespis_impl_remote.Peer.State.{Handled-cases, done}
use thespis_impl_remote.Chat.Format.{Text, ChatErr, Welcome, user_joined, nick_changed}
use thespis_impl_remote.Chat.Server.{
  Server, welcome, Env, UserData, any_nick, broadcast, validate_nick, handle_user_data,
  handle_change_nick,
}
use thespis_impl_remote.Chat.Broadcast.{broadcast_users}

pub Result-cases :
    {A E : Type 0} (x : Result A E) → ((e : E) × (x ≡ err e)) ⊎ ((a : A) × (x ≡ ok a))
Result-cases (err e) = inl (e, refl)
Result-cases (ok a) = inr (a, refl)

module _ (env : Env) where
  -- A nickname that passes is nobody's, and valid.
  pub passes :
      (s : Server) (new : Text) (old : Option Text) (x : Unit {0})
      → validate_nick env s new old ≡ ok x
      → (any_nick s.users new ≡ false) × (env.is_match new ≡ true)
  unfolding validate_nick
  passes s new none x h = ground (arith, h)
  passes s new (some o) x h = ground (arith, h)

  -- A join that the server handles was refused, or its user is in the map now.
  pub join_users :
      (time : ℕ) (s s' : Server) (ud : UserData) (res : Result Welcome ChatErr)
      → handle_user_data env time s ud ≡ done (s', res)
      → (((e : ChatErr) × (res ≡ err e)) × (s'.users ≡ s.users))
        ⊎ ((res ≡ ok (welcome time ud.addr (insert ud.addr ud s.users)))
            × (s'.users ≡ insert ud.addr ud s.users)
            × (any_nick s.users ud.nick ≡ false)
            × (env.is_match ud.nick ≡ true)
            × (lookup ud.addr s.users ≡ none))
  unfolding handle_user_data
  join_users time s s' ud res h = elim (Result-cases (validate_nick env s ud.nick none)) [
    | inl (e, refused) ↦ inl ((e, ground (arith, refused, h)), ground (arith, refused, h))
    | inr (x, passed) ↦ elim (Handled-cases (broadcast env s (user_joined time ud.nick ud.addr))) [
      | inl dead ↦ absurd (ground (arith, passed, dead, h))
      | inr (t, all) ↦
          let same = broadcast_users env s t (user_joined time ud.nick ud.addr) all in
          elim (Option-cases (lookup ud.addr t.users)) [
            | inl fresh ↦ inr (
              ground (arith, passed, all, fresh, h, same),
              ground (arith, passed, all, fresh, h, same),
              (passes s ud.nick none x passed).0,
              (passes s ud.nick none x passed).1,
              ground (arith, fresh, same),
            )
            | inr (old, there) ↦ absurd (ground (arith, passed, all, there, h))
          ]
    ]
  ]

  -- A change of nickname that the server handles is one of a user in the map, who afterwards has
  -- the old or the new one.
  pub change_users :
      (time : ℕ) (s s' : Server) (id : ℕ) (nick : Text) (res : Result (Unit {0}) ChatErr)
      → handle_change_nick env time s id nick ≡ done (s', res)
      → (ud : UserData) × (lookup id s.users ≡ some ud)
        × (((e : ChatErr) × (res ≡ err e) × (s'.users ≡ insert id ud (remove id s.users)))
            ⊎ ((res ≡ ok tt)
                × (s'.users ≡ insert id (record ud { nick = nick }) (remove id s.users))
                × (any_nick (remove id s.users) nick ≡ false)
                × (env.is_match nick ≡ true)))
  unfolding handle_change_nick
  change_users time s s' id nick res h = elim (Option-cases (lookup id s.users)) [
    | inl absent ↦ absurd (ground (arith, absent, h))
    | inr (ud, there) ↦ (ud, there, outcome ud there)
  ]
    where
      outcome :
          (ud : UserData)
          → lookup id s.users ≡ some ud
          → ((e : ChatErr) × (res ≡ err e) × (s'.users ≡ insert id ud (remove id s.users)))
            ⊎ ((res ≡ ok tt)
                × (s'.users ≡ insert id (record ud { nick = nick }) (remove id s.users))
                × (any_nick (remove id s.users) nick ≡ false)
                × (env.is_match nick ≡ true))
      outcome ud there =
          let without : Server = record s { users = remove id s.users } in
          elim (Result-cases (validate_nick env without nick (some ud.nick))) [
            | inl (e, refused) ↦
                inl (e, ground (arith, there, refused, h), ground (arith, there, refused, h))
            | inr (x, passed) ↦
                elim (Handled-cases (broadcast env without (nick_changed time id nick))) [
                  | inl dead ↦ absurd (ground (arith, there, passed, dead, h))
                  | inr (t, all) ↦
                      let same = broadcast_users env without t (nick_changed time id nick) all in
                      inr (
                        ground (arith, there, passed, all, h),
                        ground (arith, there, passed, all, h, same),
                        (passes without nick (some ud.nick) x passed).0,
                        (passes without nick (some ud.nick) x passed).1,
                      )
                ]
          ]
