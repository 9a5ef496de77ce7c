-- ===== src/Chat/Keeping.antt =====
-- Every message that the chat server handles keeps the invariant of its room.
use thespis_impl_remote.Common.{
  ℕ, true, false, none, some, arith, Map, lookup, insert, remove, lookup-insert, lookup-remove,
  ◌==◌, ◌≡◌, refl, sym, inl, inr, ◌⊎◌, Bool-cases, Result, ok, err, ap, ◌∙◌, subst,
}
use thespis_impl_remote.Peer.State.{Handled-cases, done}
use thespis_impl_remote.Chat.Format.{Text, ChatErr, Welcome, already_joined, ServerMsg}
use thespis_impl_remote.Chat.Server.{
  Server, Env, UserData, any_nick, welcome, broadcast, handle_user_data, handle_change_nick,
}
use thespis_impl_remote.Chat.User
use thespis_impl_remote.Chat.User.{User, handle_join, handle_set_nick, handle_new_chat_msg}
use thespis_impl_remote.Chat.Nicks.{IsTidy, remove-IsTidy, insert-IsTidy_free, found}
use thespis_impl_remote.Chat.Broadcast.{broadcast_users}
use thespis_impl_remote.Chat.Handling.{join_users, change_users}
use thespis_impl_remote.Chat.Room.{Room, Stands, waiting, settled, Inv}

-- No user comes to the map of the server under an id that it did not have.
abbrev KeepsOut : Server → Server → ℕ → Type 0
KeepsOut s s' id = lookup id s.users ≡ none → lookup id s'.users ≡ none

module _ (env : Env) where
  Stands-KeepsOut :
      {s s' : Server} {id : ℕ} {u : User} → Stands s id u → KeepsOut s s' id → Stands s' id u
  Stands-KeepsOut (waiting peer i a p out) k = waiting peer i a p (k out)
  Stands-KeepsOut (settled i a) k = settled i a

  -- The users stay, and the server keeps out whoever was not there.
  server_keeps :
      {r : Room} (s' : Server)
      → Inv env.is_match r
      → IsTidy env.is_match s'.users
      → ((id : ℕ) → KeepsOut r.server s' id)
      → Inv env.is_match (record r { server = s' })
  server_keeps s' v t out = record {
    tidy = t;
    stands = λ id u h. Stands-KeepsOut (v.stands id u h) (out id);
    known = λ id h. out id (v.known id h);
  }

  -- What a join does to its user and to the map.
  pub join_effect :
      (time id : ℕ) (u u' : User) (s s' : Server) (nick : Text) (res : Result Welcome ChatErr)
      → Stands s id u
      → handle_join env time u s nick ≡ done (u', s', res)
      → (u'.id ≡ id)
        × (u'.addr ≡ none)
        × ((((e : ChatErr) × (res ≡ err e)) × (s'.users ≡ s.users))
            ⊎ ((peer : ℕ) × (res
                  ≡ ok (
                      welcome time id
                        (insert id (record { nick = nick; addr = id; peer_addr = peer }) s.users)))
                × (s'.users
                    ≡ insert id (record { nick = nick; addr = id; peer_addr = peer }) s.users)
                × (any_nick s.users nick ≡ false)
                × (env.is_match nick ≡ true)
                × (lookup id s.users ≡ none)))
  unfolding handle_join
  join_effect time id u u' s s' nick res (settled i a) h = (
    ground (arith, a, h, i),
    ground (arith, a, h),
    inl ((already_joined, ground (arith, a, h)), ground (arith, a, h)),
  )
  join_effect time id u u' s s' nick res (waiting peer i a p out) h =
      let ud : UserData = record { nick = nick; addr = id; peer_addr = peer } in
      elim (Handled-cases (handle_user_data env time s ud)) [
        | inl dead ↦ absurd (ground (arith, a, p, dead, h))
        | inr ((t, x), handled) ↦ (
          ground (arith, a, p, handled, h, i),
          ground (arith, a, p, handled, h),
          elim (join_users env time s t ud x handled) [
            | inl ((e, refused), same) ↦ inl (
              (e, ground (arith, a, p, handled, h, refused)),
              ground (arith, a, p, handled, h, same),
            )
            | inr (welcomed, now, free, valid, fresh) ↦ inr (
              peer,
              ground (arith, a, p, handled, h, welcomed),
              ground (arith, a, p, handled, h, now),
              free,
              valid,
              fresh,
            )
          ],
        )
      ]

  -- The map with one entry replaced.
  replaced_out :
      (id k : ℕ) (ud v : UserData) (m : Map UserData)
      → lookup id m ≡ some ud
      → lookup k m ≡ none
      → lookup k (insert id v (remove id m)) ≡ none
  replaced_out id k ud v m there out = elim (Bool-cases (k == id)) [
    | inl same ↦ absurd (ground (arith, same, there, out))
    | inr apart ↦
        ground (arith, lookup-insert k id v (remove id m), lookup-remove k id m, apart, out)
  ]

  pub change_keeps :
      {r : Room} (time id : ℕ) (s' : Server) (nick : Text) (res : Result (Unit {0}) ChatErr)
      → Inv env.is_match r
      → handle_change_nick env time r.server id nick ≡ done (s', res)
      → Inv env.is_match (record r { server = s' })
  change_keeps {r} time id s' nick res v h =
      let c = change_users env time r.server s' id nick res h in
      let f = found env.is_match id c.0 r.server.users v.tidy c.1 in
      let rest = remove-IsTidy env.is_match id r.server.users v.tidy in
      elim c.2 [
        | inl (e, refused, now) ↦
            server_keeps s' v
              (subst (IsTidy env.is_match) (sym now) (
                insert-IsTidy_free env.is_match id c.0 (remove id r.server.users) rest f.0 f.2 f.1))
              (λ k out. ap (lookup k) now ∙ replaced_out id k c.0 c.0 r.server.users c.1 out)
        | inr (accepted, now, free, valid) ↦
            server_keeps s' v
              (subst (IsTidy env.is_match) (sym now) (
                insert-IsTidy_free env.is_match id (record c.0 { nick = nick })
                  (remove id r.server.users) rest f.0 free valid))
              (λ k out.
                ap (lookup k) now
                ∙ replaced_out id k c.0 (record c.0 { nick = nick }) r.server.users c.1 out)
      ]

  pub told_keeps :
      {r : Room} (s s' : Server) (msg : ServerMsg)
      → Inv env.is_match r
      → IsTidy env.is_match s.users
      → ((k : ℕ) → KeepsOut r.server s k)
      → broadcast env s msg ≡ done s'
      → Inv env.is_match (record r { server = s' })
  told_keeps s s' msg v t out h =
      let same = broadcast_users env s s' msg h in
      server_keeps s' v (subst (IsTidy env.is_match) (sym same) t)
        (λ k o. ap (lookup k) same ∙ out k o)

  pub connect_keeps :
      {r : Room} (id peer : ℕ)
      → Inv env.is_match r
      → lookup id r.users ≡ none
      → Inv env.is_match (record r { users = insert id (User.new id peer) r.users })
  unfolding User.new
  connect_keeps {r} id peer v fresh = record {
    tidy = v.tidy;
    stands = λ k u h. elim (Bool-cases (k == id)) [
      | inl same ↦
          waiting peer (ground (arith, same, h, lookup-insert k id (User.new id peer) r.users))
            (ground (arith, same, h, lookup-insert k id (User.new id peer) r.users))
            (ground (arith, same, h, lookup-insert k id (User.new id peer) r.users))
            (ground (arith, same, v.known id fresh))
      | inr apart ↦
          v.stands k u (ground (arith, apart, h, lookup-insert k id (User.new id peer) r.users))
    ];
    known = λ k h. v.known k (ground (arith, h, lookup-insert k id (User.new id peer) r.users));
  }

  pub join_keeps :
      {r : Room} (id time : ℕ) (u u' : User) (s' : Server) (nick : Text)
      (res : Result Welcome ChatErr)
      → Inv env.is_match r
      → lookup id r.users ≡ some u
      → handle_join env time u r.server nick ≡ done (u', s', res)
      → Inv env.is_match (record { users = insert id u' r.users; server = s' })
  join_keeps {r} id time u u' s' nick res v there h =
      let j = join_effect time id u u' r.server s' nick res (v.stands id u there) h in
      elim j.2 [
        | inl (refused, same) ↦
            joined j.0 j.1 (subst (IsTidy env.is_match) (sym same) v.tidy)
              (λ k apart out. ap (lookup k) same ∙ out)
        | inr (peer, welcomed, now, free, valid, fresh) ↦
            let ud : UserData = record { nick = nick; addr = id; peer_addr = peer } in
            joined j.0 j.1
              (subst (IsTidy env.is_match) (sym now)
                (insert-IsTidy_free env.is_match id ud r.server.users v.tidy refl free valid))
              (λ k apart out.
                ap (lookup k) now
                ∙ ground (arith, lookup-insert k id ud r.server.users, apart, out))
      ]
    where
      joined :
          u'.id ≡ id
          → u'.addr ≡ none
          → IsTidy env.is_match s'.users
          → ((k : ℕ) → (k == id) ≡ false → KeepsOut r.server s' k)
          → Inv env.is_match (record { users = insert id u' r.users; server = s' })
      joined i a t out = record {
        tidy = t;
        stands = λ k x l. elim (Bool-cases (k == id)) [
          | inl same ↦
              settled (ground (arith, same, l, i, lookup-insert k id u' r.users))
                (ground (arith, same, l, a, lookup-insert k id u' r.users))
          | inr apart ↦
              Stands-KeepsOut
                (v.stands k x (ground (arith, apart, l, lookup-insert k id u' r.users)))
                (out k apart)
        ];
        known = λ k l. elim (Bool-cases (k == id)) [
          | inl same ↦ absurd (ground (arith, same, l, lookup-insert k id u' r.users))
          | inr apart ↦
              out k apart (v.known k (ground (arith, apart, l, lookup-insert k id u' r.users)))
        ];
      }
