-- ===== src/Chat/Renaming.antt =====
-- When a new nickname takes the chat server down.
use thespis_impl_remote.Common.{
  ℕ, true, false, [], ◌∷◌, none, some, arith, Map, lookup, remove, lookup-remove, ◌==◌, ◌≡◌, ◌≢◌,
  ◌↔◌, ◌⊎◌, inl, inr, refl, ap, sym, subst, Bool-cases, Option-cases, ok,
}
use thespis_impl_remote.Peer.State.{Handled-cases, panics}
use thespis_impl_remote.Chat.Format.{Text, text_eq, text_eq_refl, text_eq_sound, nick_changed}
use thespis_impl_remote.Chat.Server.{
  Server, Env, UserData, any_nick, validate_nick, broadcast, handle_change_nick,
}
use thespis_impl_remote.Chat.User.{User, handle_set_nick}
use thespis_impl_remote.Chat.Nicks.{IsTidy, remove-IsTidy, any_nick-lookup}
use thespis_impl_remote.Chat.Sole.{in_tail, at_head}
use thespis_impl_remote.Chat.Handling.{Result-cases, passes}
use thespis_impl_remote.Chat.Told.{differs}
use thespis_impl_remote.Chat.Broadcast.{HasGone, broadcast-panics_iff}
use thespis_impl_remote.Chat.Room.{Room, Reach, Stands_id}
use thespis_impl_remote.Chat.Safety.{Reach-Inv}

module _ (env : Env) where
  -- The nickname is valid, and no user has it.
  abbrev pub IsFree : Map UserData → Text → Type 0
  IsFree m nick =
      ((k : ℕ) (ud : UserData) → lookup k m ≡ some ud → ud.nick ≢ nick) × (env.is_match nick ≡ true)

  free_any :
      (m : Map UserData) (nick : Text)
      → IsTidy env.is_match m
      → ((k : ℕ) (ud : UserData) → lookup k m ≡ some ud → ud.nick ≢ nick)
      → any_nick m nick ≡ false
  unfolding any_nick IsTidy
  free_any [] nick t h = refl
  free_any ((j, ud) ∷ m) nick t h =
      let rest = free_any m nick t.4 (λ k v r. h k v (in_tail k j ud v m t.1 r)) in
      elim (Bool-cases (text_eq ud.nick nick)) [
        | inl same ↦ absurd (h j ud (at_head j ud m) (text_eq_sound ud.nick nick same))
        | inr apart ↦ ground (arith, apart, rest)
      ]

  -- A user's new nickname passes exactly if it is free.
  passes_iff :
      (s : Server) (id : ℕ) (ud : UserData) (nick : Text)
      → IsTidy env.is_match s.users
      → lookup id s.users ≡ some ud
      → (validate_nick env (record s { users = remove id s.users }) nick (some ud.nick) ≡ ok tt)
        ↔ IsFree s.users nick
  passes_iff s id ud nick t there = (
    λ h. (λ k v l e. taken k v l e h, (passes env without nick (some ud.nick) tt h).1),
    λ (free, valid).
        let none_left =
          free_any without.users nick (remove-IsTidy env.is_match id s.users t)
            (λ k v l. free k v (ground (arith, l, lookup-remove k id s.users))) in
        elim (Bool-cases (text_eq ud.nick nick)) [
          | inl same ↦ absurd (free id ud there (text_eq_sound ud.nick nick same))
          | inr apart ↦ unfold validate_nick in ground (arith, apart, none_left, valid)
        ],
  )
    where
      without : Server
      without = record s { users = remove id s.users }

      taken :
          (k : ℕ) (v : UserData)
          → lookup k s.users ≡ some v
          → v.nick ≡ nick
          → validate_nick env without nick (some ud.nick) ≡ ok tt
          → ⊥
      taken k v l e h = elim (Bool-cases (k == id)) [
        | inl same ↦ ground (
          arith,
          same,
          l,
          there,
          differs env without nick ud.nick tt h,
          ap (text_eq v.nick) e,
          text_eq_refl v.nick,
        )
        | inr apart ↦ ground (
          arith,
          (passes env without nick (some ud.nick) tt h).0,
          ap (any_nick without.users) e,
          any_nick-lookup env.is_match k v without.users
              (ground (arith, apart, l, lookup-remove k id s.users)),
        )
      ]

  change-panics_iff :
      (time : ℕ) (s : Server) (id : ℕ) (nick : Text)
      → IsTidy env.is_match s.users
      → (handle_change_nick env time s id nick ≡ panics)
        ↔ ((lookup id s.users ≡ none) ⊎ (IsFree s.users nick × HasGone env (remove id s.users)))
  unfolding handle_change_nick
  change-panics_iff time s id nick t = elim (Option-cases (lookup id s.users)) [
    | inl absent ↦ (λ h. inl absent, λ x. ground (arith, absent))
    | inr (ud, there) ↦ there_iff ud there
  ]
    where
      without : Server
      without = record s { users = remove id s.users }

      gone_iff :
          (broadcast env without (nick_changed time id nick) ≡ panics) ↔ HasGone env without.users
      gone_iff =
          broadcast-panics_iff env without (nick_changed time id nick)
            (remove-IsTidy env.is_match id s.users t)

      there_iff :
          (ud : UserData)
          → lookup id s.users ≡ some ud
          → (handle_change_nick env time s id nick ≡ panics)
            ↔ ((lookup id s.users ≡ none) ⊎ (IsFree s.users nick × HasGone env (remove id s.users)))
      there_iff ud there =
          let free = passes_iff s id ud nick t there in
          elim (Result-cases (validate_nick env without nick (some ud.nick))) [
            | inl (e, refused) ↦ (
              λ h. absurd (ground (arith, there, refused, h)),
              λ x. elim x [
                | inl out ↦ absurd (ground (arith, there, out))
                | inr (f, g) ↦ absurd (ground (arith, refused, free.1 f))
              ],
            )
            | inr (x, passed) ↦ (
              λ h. inr (
                free.0 passed,
                elim (Handled-cases (broadcast env without (nick_changed time id nick))) [
                  | inl dead ↦ gone_iff.0 dead
                  | inr (s', all) ↦ absurd (ground (arith, there, passed, all, h))
                ],
              ),
              λ y. elim y [
                | inl out ↦ absurd (ground (arith, there, out))
                | inr (f, g) ↦ ground (arith, there, passed, gone_iff.1 g)
              ],
            )
          ]

  -- Whatever clients did, and whichever peers were there at each message: a client that changes its
  -- nickname makes the server panic exactly if it is not a user of the room, or if the nickname is
  -- valid and no user's, and the peer of another user is gone.
  pub set_nick-panics_iff :
      {r : Room} (id time : ℕ) (u : User) (nick : Text)
      → Reach env.is_match r
      → lookup id r.users ≡ some u
      → (handle_set_nick env time u r.server nick ≡ panics) ↔ (
          (lookup id r.server.users ≡ none)
          ⊎ (IsFree r.server.users nick × HasGone env (remove id r.server.users)))
  unfolding handle_set_nick
  set_nick-panics_iff {r} id time u nick q there =
      let v = Reach-Inv env.is_match q in
      subst
        (λ (n : ℕ). (handle_change_nick env time r.server n nick ≡ panics) ↔ (
          (lookup id r.server.users ≡ none)
          ⊎ (IsFree r.server.users nick × HasGone env (remove id r.server.users))))
        (sym (Stands_id (v.stands id u there))) (change-panics_iff time r.server id nick v.tidy)
