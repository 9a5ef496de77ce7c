-- ===== src/Chat/Told.antt =====
-- What each message that the server handles tells the peers of its users.
use thespis_impl_remote.Common.{
  ℕ, false, zero, suc, List, [], ◌∷◌, none, some, arith, Map, lookup, insert, remove, ◌==◌, ◌≡◌,
  refl, inl, inr, ◌⊎◌, Option-cases, Result, ok, err, if◌then◌else◌, ap,
}
use thespis_impl_remote.Peer.State.{Handled-cases, done}
use thespis_impl_remote.Chat.Format.{
  Text, text_eq, ChatErr, Welcome, ServerMsg, user_joined, nick_changed,
}
use thespis_impl_remote.Chat.Server.{
  Server, welcome, Env, UserData, broadcast_to, broadcast, validate_nick, handle_user_data,
  handle_change_nick,
}
use thespis_impl_remote.Chat.Broadcast.{standing, broadcast_users}
use thespis_impl_remote.Chat.Handling.{Result-cases}

-- What a peer was handed, the newest first.
unfoldable pub inbox : ℕ → List (ℕ × ServerMsg) → List ServerMsg
inbox p [] = []
inbox p ((q, msg) ∷ handed) = let older = inbox p handed in if p == q then msg ∷ older else older

unfoldable copies : ℕ → ServerMsg → List ServerMsg → List ServerMsg
copies zero msg older = older
copies (suc n) msg older = msg ∷ copies n msg older

copies-cons :
    (n : ℕ) (msg : ServerMsg) (older : List ServerMsg)
    → copies n msg (msg ∷ older) ≡ msg ∷ copies n msg older
unfolding copies
copies-cons zero msg older = refl
copies-cons (suc n) msg older = ap (◌∷◌ msg) (copies-cons n msg older)

module _ (env : Env) where
  inbox-broadcast_to :
      (p : ℕ) (m : Map UserData) (msg : ServerMsg) (handed handed' : List (ℕ × ServerMsg))
      → broadcast_to env m msg handed ≡ done handed'
      → inbox p handed' ≡ copies (standing p m) msg (inbox p handed)
  unfolding broadcast_to inbox standing copies
  inbox-broadcast_to p [] msg handed handed' h = ground (arith, h)
  inbox-broadcast_to p ((sid, u) ∷ m) msg handed handed' h = ground (
    arith,
    h,
    inbox-broadcast_to p m msg ((u.peer_addr, msg) ∷ handed) handed',
    copies-cons (standing p m) msg (inbox p handed),
  )

  -- A peer that stands for one user is handed the message once.
  pub inbox-broadcast :
      (p : ℕ) (s s' : Server) (msg : ServerMsg)
      → broadcast env s msg ≡ done s'
      → standing p s.users ≡ 1
      → inbox p s'.handed ≡ msg ∷ inbox p s.handed
  unfolding broadcast copies
  inbox-broadcast p s s' msg h one = elim (Handled-cases (broadcast_to env s.users msg s.handed)) [
    | inl dead ↦ absurd (ground (arith, dead, h))
    | inr (handed, all) ↦
        let told = inbox-broadcast_to p s.users msg s.handed handed all in
        ground (arith, h, all, told, one)
  ]

  -- A peer that stands for nobody is told nothing.
  pub inbox-broadcast_none :
      (p : ℕ) (s s' : Server) (msg : ServerMsg)
      → broadcast env s msg ≡ done s'
      → standing p s.users ≡ 0
      → inbox p s'.handed ≡ inbox p s.handed
  unfolding broadcast copies
  inbox-broadcast_none p s s' msg h none_left =
      elim (Handled-cases (broadcast_to env s.users msg s.handed)) [
        | inl dead ↦ absurd (ground (arith, dead, h))
        | inr (handed, all) ↦
            let told = inbox-broadcast_to p s.users msg s.handed handed all in
            ground (arith, h, all, told, none_left)
      ]

  pub join_told :
      (time : ℕ) (s s' : Server) (ud : UserData) (res : Result Welcome ChatErr)
      → handle_user_data env time s ud ≡ done (s', res)
      → (s' ≡ s)
        ⊎ ((t : Server) × (broadcast env s (user_joined time ud.nick ud.addr) ≡ done t)
            × (s'.handed ≡ t.handed)
            × (s'.users ≡ insert ud.addr ud s.users)
            × (lookup ud.addr s.users ≡ none)
            × (res ≡ ok (welcome time ud.addr s'.users)))
  unfolding handle_user_data
  join_told time s s' ud res h = elim (Result-cases (validate_nick env s ud.nick none)) [
    | inl (e, refused) ↦ inl (ground (arith, refused, h))
    | inr (x, passed) ↦ elim (Handled-cases (broadcast env s (user_joined time ud.nick ud.addr))) [
      | inl dead ↦ absurd (ground (arith, passed, dead, h))
      | inr (t, all) ↦
          let same = broadcast_users env s t (user_joined time ud.nick ud.addr) all in
          elim (Option-cases (lookup ud.addr t.users)) [
            | inl fresh ↦ inr (
              t,
              all,
              ground (arith, passed, all, fresh, h),
              ground (arith, passed, all, fresh, h, same),
              ground (arith, fresh, same),
              ground (arith, passed, all, fresh, h),
            )
            | inr (old, there) ↦ absurd (ground (arith, passed, all, there, h))
          ]
    ]
  ]

  pub differs :
      (s : Server) (new old : Text) (x : Unit {0})
      → validate_nick env s new (some old) ≡ ok x
      → text_eq old new ≡ false
  unfolding validate_nick
  differs s new old x h = ground (arith, h)

  pub change_told :
      (time : ℕ) (s s' : Server) (id : ℕ) (nick : Text) (ud : UserData)
      (res : Result (Unit {0}) ChatErr)
      → lookup id s.users ≡ some ud
      → handle_change_nick env time s id nick ≡ done (s', res)
      → ((s'.handed ≡ s.handed)
          × (s'.users ≡ insert id ud (remove id s.users))
          × (e : ChatErr) × (res ≡ err e))
        ⊎ ((t : Server) × (broadcast env
                (record s { users = remove id s.users })
                (nick_changed time id nick)
              ≡ done t)
            × (s'.handed ≡ t.handed)
            × (s'.users ≡ insert id (record ud { nick = nick }) (remove id s.users))
            × (text_eq ud.nick nick ≡ false))
  unfolding handle_change_nick
  change_told time s s' id nick ud res there h =
      let without : Server = record s { users = remove id s.users } in
      elim (Result-cases (validate_nick env without nick (some ud.nick))) [
        | inl (e, refused) ↦ inl (
          ground (arith, there, refused, h),
          ground (arith, there, refused, h),
          e,
          ground (arith, there, refused, h),
        )
        | inr (x, passed) ↦
            elim (Handled-cases (broadcast env without (nick_changed time id nick))) [
              | inl dead ↦ absurd (ground (arith, there, passed, dead, h))
              | inr (t, all) ↦
                  let same = broadcast_users env without t (nick_changed time id nick) all in
                  inr (
                    t,
                    all,
                    ground (arith, there, passed, all, h),
                    ground (arith, there, passed, all, h, same),
                    differs without nick ud.nick x passed,
                  )
            ]
      ]
