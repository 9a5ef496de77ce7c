-- ===== src/Chat/Joining.antt =====
-- What a client gets that joins the room, and what the others are told.
use thespis_impl_remote.Common.{
  ℕ, ◌+◌, true, false, none, some, arith, lookup, insert, lookup-insert, ◌==◌, ◌≡◌, ok,
  if◌then◌else◌, ap, ◌∙◌,
}
use thespis_impl_remote.Peer.State.{done}
use thespis_impl_remote.Chat.Format.{Text, user_joined}
use thespis_impl_remote.Chat.Server.{
  Server, Env, UserData, any_nick, welcome, validate_nick, handle_user_data,
}
use thespis_impl_remote.Chat.User.{User, handle_join}
use thespis_impl_remote.Chat.Broadcast.{AllAlive, told, standing, broadcast_lem}
use thespis_impl_remote.Chat.Room.{Room, Reach, waiting, settled}
use thespis_impl_remote.Chat.Nicks.{IsTidy}
use thespis_impl_remote.Chat.Safety.{Reach-Inv}

module _ (env : Env) where
  accepted :
      (time : ℕ) (s : Server) (ud : UserData)
      → IsTidy env.is_match s.users
      → AllAlive env s.users
      → lookup ud.addr s.users ≡ none
      → any_nick s.users ud.nick ≡ false
      → env.is_match ud.nick ≡ true
      → (s' : Server) × (handle_user_data env time s ud
          ≡ done (s', ok (welcome time ud.addr s'.users)))
        × (s'.users ≡ insert ud.addr ud s.users)
        × ((p : ℕ) → told p s'.handed ≡ told p s.handed + standing p s.users)
  unfolding handle_user_data validate_nick
  accepted time s ud t alive fresh free valid =
      let sent = broadcast_lem env s (user_joined time ud.nick ud.addr) t alive in
      (
        record sent.0 { users = insert ud.addr ud sent.0.users },
        ground (arith, free, valid, sent.1, sent.2, fresh),
        ap (insert ud.addr ud) sent.2,
        sent.3,
      )

  -- Whatever clients did, a connected client that has not yet tried to join does join if its
  -- nickname is valid and nobody's, and the peers of all users in the room are there: the server
  -- does not panic, and it answers with the users, of which this one is one now, with its nickname
  -- and peer, while the others are as they were; and each peer was handed one message for each
  -- user that it stood for before.
  pub join-welcome :
      {r : Room} (id time addr : ℕ) (u : User) (nick : Text)
      → Reach env.is_match r
      → lookup id r.users ≡ some u
      → u.addr ≡ some addr
      → AllAlive env r.server.users
      → any_nick r.server.users nick ≡ false
      → env.is_match nick ≡ true
      → (u' : User) × (s' : Server) × (peer : ℕ) × (u.peer_addr ≡ some peer)
        × (handle_join env time u r.server nick ≡ done (u', s', ok (welcome time id s'.users)))
        × ((k : ℕ)
            → lookup k s'.users ≡ (
                if k == id
                then some (record { nick = nick; addr = id; peer_addr = peer })
                else lookup k r.server.users))
        × ((p : ℕ) → told p s'.handed ≡ told p r.server.handed + standing p r.server.users)
  unfolding handle_join
  join-welcome {r} id time addr u nick q there here alive free valid =
      let v = Reach-Inv env.is_match q in
      elim (v.stands id u there) [
        | settled i a ↦ absurd (ground (arith, a, here))
        | waiting peer i a p out ↦
            let ud : UserData = record { nick = nick; addr = id; peer_addr = peer } in
            let j = accepted time r.server ud v.tidy alive out free valid in
            (
              record u { addr = none; peer_addr = none },
              j.0,
              peer,
              p,
              ground (arith, a, p, j.1),
              λ k. ap (lookup k) j.2 ∙ lookup-insert k id ud r.server.users,
              j.3,
            )
      ]
