-- ===== src/Chat/Server.antt =====
-- examples/chat/chat_server/src/server.rs: the room. The clock, the regular expression for
-- nicknames, and whether the mailbox of a user's peer takes a message, are parameters.
use thespis_impl_remote.Common.{
  ℕ, Bool, false, List, [], ◌∷◌, Option, none, some, Map, lookup, insert, remove, Result, ok, err,
  ◌||◌, if◌then◌else◌,
}
use thespis_impl_remote.Peer.State.{Handled, done, panics, ◌>>=◌}
use thespis_impl_remote.Chat.Format.{
  Text, text_eq, ChatErr, nick_invalid, nick_inuse, nick_unchanged, ServerMsg, chat_msg,
  user_joined, user_left, nick_changed, Welcome,
}

-- The addresses of a user and of its peer are the ids of these actors.
pub record UserData : Type 0 where
  pub nick : Text
  pub addr : ℕ
  pub peer_addr : ℕ

-- The users, and a history of the messages that were handed to peers, the newest first.
pub record Server : Type 0 where
  pub users : Map UserData
  pub handed : List (ℕ × ServerMsg)

-- What the environment decides: the regular expression `^\w{1,15}$`, and the mailboxes that take
-- messages.
pub record Env : Type 0 where
  pub is_match : Text → Bool
  pub is_alive : ℕ → Bool

unfoldable pub new : Server
new = record { users = []; handed = [] }

-- Some user has the nickname.
unfoldable pub any_nick : Map UserData → Text → Bool
any_nick [] nick = false
any_nick ((sid, c) ∷ users) nick = text_eq c.nick nick || any_nick users nick

-- `users.values().map( … ).collect()`
unfoldable pub user_list : Map UserData → List (ℕ × Text)
user_list [] = []
user_list ((sid, ud) ∷ users) = (ud.addr, ud.nick) ∷ user_list users

-- The answer to a user that has joined.
abbrev pub welcome : ℕ → ℕ → Map UserData → Welcome
welcome time sid users = record {
  time = time;
  sid = sid;
  users = user_list users;
  txt = "Welcome to the thespis Chat Server!";
}

module _ (env : Env) where
  -- The rest of `broadcast` after some users. A peer that is gone makes the `expect` panic.
  unfoldable pub broadcast_to :
      Map UserData → ServerMsg → List (ℕ × ServerMsg) → Handled (List (ℕ × ServerMsg))
  broadcast_to [] msg handed = done handed
  broadcast_to ((sid, user) ∷ users) msg handed =
      let rest = broadcast_to users msg ((user.peer_addr, msg) ∷ handed) in
      if env.is_alive user.peer_addr then rest else panics

  unfoldable pub broadcast : Server → ServerMsg → Handled Server
  unfolding broadcast_to
  broadcast s msg =
      broadcast_to s.users msg s.handed >>= λ handed. done (record s { handed = handed })

  unfoldable pub validate_nick : Server → Text → Option Text → Result (Unit {0}) ChatErr
  unfolding any_nick
  validate_nick s new old =
      if (elim old [ some o ↦ text_eq o new | none ↦ false ])
      then err nick_unchanged
      else if any_nick s.users new
      then err nick_inuse
      else if env.is_match new
      then ok tt
      else err nick_invalid

  -- `Handler<UserData>`; the assertion that the user is new comes last.
  unfoldable pub handle_user_data :
      ℕ → Server → UserData → Handled (Server × Result Welcome ChatErr)
  handle_user_data time s new_user = elim (validate_nick s new_user.nick none) [
    | ok _ ↦
        let id = new_user.addr in
        broadcast s (user_joined time new_user.nick id) >>= λ s'.
        let opt = lookup id s'.users in
        let joined : Server = record s' { users = insert id new_user s'.users } in
        let answer = welcome time id joined.users in
        elim opt [ none ↦ done (joined, ok answer) | some _ ↦ panics ]
    | err e ↦ done (s, err e)
  ]

  -- `Handler<ChangeNick>`: the user is not in the map while the others are told.
  unfoldable pub handle_change_nick :
      ℕ → Server → ℕ → Text → Handled (Server × Result (Unit {0}) ChatErr)
  handle_change_nick time s sid nick = elim (lookup sid s.users) [
    | none ↦ panics
    | some user_data ↦
        let without : Server = record s { users = remove sid s.users } in
        elim (validate_nick without nick (some user_data.nick)) [
          | ok _ ↦ broadcast without (nick_changed time sid nick) >>= λ s'.
              done (
                record s' { users = insert sid (record user_data { nick = nick }) s'.users },
                ok tt,
              )
          | err e ↦ done (record without { users = insert sid user_data without.users }, err e)
        ]
  ]

  -- `Handler<ChatMsgIn>`
  unfoldable pub handle_chat_msg_in : ℕ → Server → ℕ → Text → Handled Server
  handle_chat_msg_in time s sid txt = broadcast s (chat_msg time sid txt)

  -- `Handler<ConnectionClosed>`
  unfoldable pub handle_connection_closed : ℕ → Server → ℕ → Handled Server
  handle_connection_closed time s sid =
      broadcast (record s { users = remove sid s.users }) (user_left time sid)
