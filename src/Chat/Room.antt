-- ===== src/Chat/Room.antt =====
-- The chat server over every sequence of what its clients do: connections, joins, new nicknames,
-- chat messages, and closed connections.
use thespis_impl_remote.Common.{ℕ, Bool, [], none, some, Map, lookup, insert, ◌≡◌, Result}
use thespis_impl_remote.Peer.State.{done}
use thespis_impl_remote.Chat.Format.{Text, ChatErr, Welcome}
use thespis_impl_remote.Chat.Server
use thespis_impl_remote.Chat.Server.{Server, Env, UserData, handle_connection_closed}
use thespis_impl_remote.Chat.User
use thespis_impl_remote.Chat.User.{User, handle_join, handle_set_nick, handle_new_chat_msg}
use thespis_impl_remote.Chat.Nicks.{IsTidy}

-- The actor of each connection, and that of the server.
pub record Room : Type 0 where
  pub users : Map User
  pub server : Server

abbrev pub opened : Room
opened = record { users = []; server = Server.new }

-- A user has both addresses and is not in the map of the server, or has none.
pub data Stands (s : Server) (id : ℕ) (u : User) : Type 0 where
  waiting :
      (peer : ℕ)
      → u.id ≡ id
      → u.addr ≡ some id
      → u.peer_addr ≡ some peer
      → lookup id s.users ≡ none
      → Stands s id u
  settled : u.id ≡ id → u.addr ≡ none → Stands s id u

pub Stands_id : {s : Server} {id : ℕ} {u : User} → Stands s id u → u.id ≡ id
Stands_id (waiting peer i a q out) = i
Stands_id (settled i a) = i

module _ (env : Env) where
  -- A message that an actor of the server handles without a panic. A connection is given a new id.
  pub data Step (r : Room) : Room → Type 0 where
    connects :
        (id peer : ℕ)
        → lookup id r.users ≡ none
        → Step r (record r { users = insert id (User.new id peer) r.users })
    joins :
        (id time : ℕ) (u u' : User) (s' : Server) (nick : Text) (res : Result Welcome ChatErr)
        → lookup id r.users ≡ some u
        → handle_join env time u r.server nick ≡ done (u', s', res)
        → Step r (record { users = insert id u' r.users; server = s' })
    sets_nick :
        (id time : ℕ) (u : User) (s' : Server) (nick : Text) (res : Result (Unit {0}) ChatErr)
        → lookup id r.users ≡ some u
        → handle_set_nick env time u r.server nick ≡ done (s', res)
        → Step r (record r { server = s' })
    chats :
        (id time : ℕ) (u : User) (s' : Server) (txt : Text)
        → lookup id r.users ≡ some u
        → handle_new_chat_msg env time u r.server txt ≡ done s'
        → Step r (record r { server = s' })
    leaves :
        (id time : ℕ) (u : User) (s' : Server)
        → lookup id r.users ≡ some u
        → handle_connection_closed env time r.server id ≡ done s'
        → Step r (record r { server = s' })

module _ (is_match : Text → Bool) where
  -- Any sequence of such messages. At each of them, other mailboxes may be there or gone.
  pub data Reach : Room → Type 0 where
    starts : Reach opened
    goes_on :
        {q r : Room} (alive : ℕ → Bool)
        → Reach q
        → Step (record { is_match = is_match; is_alive = alive }) q r
        → Reach r

  pub record Inv (r : Room) : Type 0 where
    pub tidy : IsTidy is_match r.server.users
    pub stands : (id : ℕ) (u : User) → lookup id r.users ≡ some u → Stands r.server id u
    pub known : (id : ℕ) → lookup id r.users ≡ none → lookup id r.server.users ≡ none
