-- ===== src/Chat/Safety.antt =====
-- What clients of the chat server may count on, and what takes the server down.
use thespis_impl_remote.Common.{
  ℕ, Bool, true, some, arith, lookup, remove, lookup-remove, ◌≡◌, ◌↔◌, refl, Result, err,
}
use thespis_impl_remote.Peer.State.{done, panics}
use thespis_impl_remote.Chat.Format.{Text, ChatErr, already_joined, Welcome, user_left, chat_msg}
use thespis_impl_remote.Chat.Server
use thespis_impl_remote.Chat.Server.{
  Server, Env, UserData, any_nick, welcome, broadcast, handle_user_data, handle_change_nick,
  handle_chat_msg_in, handle_connection_closed,
}
use thespis_impl_remote.Chat.User.{User, handle_join, handle_set_nick, handle_new_chat_msg}
use thespis_impl_remote.Chat.Nicks.{IsTidy, remove-IsTidy, found, same_nick}
use thespis_impl_remote.Chat.Broadcast.{HasGone, broadcast-panics_iff}
use thespis_impl_remote.Chat.Room.{
  Room, opened, Step, connects, joins, sets_nick, chats, leaves, Reach, starts, goes_on, Inv,
}
use thespis_impl_remote.Chat.Keeping.{
  change_keeps, told_keeps, connect_keeps, join_keeps, join_effect,
}

module _ (env : Env) where
  Step-Inv : {q r : Room} → Inv env.is_match q → Step env q r → Inv env.is_match r
  unfolding handle_set_nick handle_new_chat_msg handle_chat_msg_in handle_connection_closed
  Step-Inv v (connects id peer fresh) = connect_keeps env id peer v fresh
  Step-Inv v (joins id time u u' s' nick res there h) =
      join_keeps env id time u u' s' nick res v there h
  Step-Inv v (sets_nick id time u s' nick res there h) = change_keeps env time u.id s' nick res v h
  Step-Inv {q} v (chats id time u s' txt there h) =
      told_keeps env q.server s' (chat_msg time u.id txt) v v.tidy (λ k out. out) h
  Step-Inv {q} v (leaves id time u s' there h) =
      told_keeps env (record q.server { users = remove id q.server.users }) s' (user_left time id) v
        (remove-IsTidy env.is_match id q.server.users v.tidy)
        (λ k out. ground (arith, lookup-remove k id q.server.users, out)) h

module _ (is_match : Text → Bool) where
  opened-Inv : Inv is_match opened
  unfolding Server.new IsTidy lookup
  opened-Inv = record { tidy = tt; stands = λ id u h. absurd (ground arith); known = λ id h. refl }

  pub Reach-Inv : {r : Room} → Reach is_match r → Inv is_match r
  Reach-Inv starts = opened-Inv
  Reach-Inv (goes_on alive q s) =
      Step-Inv (record { is_match = is_match; is_alive = alive }) (Reach-Inv q) s

module _ (env : Env) where
  -- Whatever clients do, in any order, no two users of the room have one nickname, and every
  -- nickname is valid.
  pub Reach-nicks :
      {r : Room} (j k : ℕ) (a b : UserData)
      → Reach env.is_match r
      → lookup j r.server.users ≡ some a
      → lookup k r.server.users ≡ some b
      → a.nick ≡ b.nick
      → (j ≡ k) × (env.is_match a.nick ≡ true)
  Reach-nicks {r} j k a b q h i n =
      let v = Reach-Inv env.is_match q in
      (
        same_nick env.is_match j k a b r.server.users v.tidy h i n,
        (found env.is_match j a r.server.users v.tidy h).1,
      )

  -- Whatever clients did, and whichever peers were there at each message: a chat message makes the
  -- server panic exactly if the peer of a user in the room is gone when it is handled.
  pub chat_msg-panics_iff :
      {r : Room} (time : ℕ) (u : User) (txt : Text)
      → Reach env.is_match r
      → (handle_new_chat_msg env time u r.server txt ≡ panics) ↔ HasGone env r.server.users
  unfolding handle_new_chat_msg handle_chat_msg_in
  chat_msg-panics_iff {r} time u txt q =
      broadcast-panics_iff env r.server (chat_msg time u.id txt) (Reach-Inv env.is_match q).tidy

  -- After a join that the server handled, whether the nickname was accepted or not, the client can
  -- never join: each further try, with any nickname and at any time, is answered that it has
  -- joined, and changes nothing.
  pub join-join :
      {r : Room} (id time : ℕ) (u u' : User) (s' : Server) (nick : Text)
      (res : Result Welcome ChatErr) (s : Server) (later : ℕ) (other : Text)
      → Reach env.is_match r
      → lookup id r.users ≡ some u
      → handle_join env time u r.server nick ≡ done (u', s', res)
      → handle_join env later u' s other ≡ done (u', s, err already_joined)
  unfolding handle_join
  join-join {r} id time u u' s' nick res s later other q there h =
      let j =
        join_effect env time id u u' r.server s' nick res
          ((Reach-Inv env.is_match q).stands id u there) h in
      ground (arith, j.1)
