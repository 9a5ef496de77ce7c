-- ===== src/Chat/Tests.antt =====
-- Runs of the chat server, whose nicknames are of one to fifteen bytes, and where all peers are there.
use thespis_impl_remote.Common.{
  ℕ, true, false, [], ◌∷◌, none, lookup, insert, lookup-insert_self, length, ltb, ◌&&◌, ◌≡◌, ◌↔◌,
  ◌⊎◌, remove, refl, ok, err,
}
use thespis_impl_remote.Peer.State.{done, panics}
use thespis_impl_remote.Chat.Format.{Text, already_joined}
use thespis_impl_remote.Chat.Server
use thespis_impl_remote.Chat.Server.{
  Server, Env, UserData, any_nick, welcome, broadcast_to, broadcast, validate_nick,
  handle_user_data,
}
use thespis_impl_remote.Chat.User
use thespis_impl_remote.Chat.User.{User, handle_join, handle_set_nick, handle_new_chat_msg}
use thespis_impl_remote.Chat.Broadcast.{HasGone}
use thespis_impl_remote.Chat.Room.{Room, Reach, starts, goes_on, connects, joins}
use thespis_impl_remote.Chat.Safety.{Reach-nicks, chat_msg-panics_iff, join-join}
use thespis_impl_remote.Chat.Renaming.{IsFree, set_nick-panics_iff}

abbrev pub env : Env
env = record {
  is_match = λ nick. ltb 0 (length nick) && ltb (length nick) 16;
  is_alive = λ peer. true;
}

abbrev pub client : User
client = User.new 4 14

-- One client has connected.
abbrev pub connected : Room
connected = record { users = insert 4 client []; server = Server.new }

pub connected-Reach : Reach env.is_match connected
unfolding lookup
connected-Reach = goes_on env.is_alive starts (connects 4 14 refl)

abbrev pub nick : Text
nick = 97 ∷ []

abbrev pub data_of : UserData
data_of = record { nick = nick; addr = 4; peer_addr = 14 }

-- It has joined.
abbrev pub room : Server
room = record { users = insert 4 data_of []; handed = [] }

abbrev pub member : User
member = record { addr = none; peer_addr = none; id = 4 }

abbrev pub joined : Room
joined = record { users = insert 4 member connected.users; server = room }

pub joins_room :
    handle_join env 0 client Server.new nick ≡ done (member, room, ok (welcome 0 4 room.users))
unfolding handle_join handle_user_data validate_nick broadcast broadcast_to any_nick User.new
    Server.new lookup
joins_room = refl

pub joined-Reach : Reach env.is_match joined
joined-Reach = goes_on env.is_alive connected-Reach (
    joins 4 0 client member room nick (ok (welcome 0 4 room.users)) (lookup-insert_self 4 client [])
      joins_room)

abbrev key : ℕ
key = 4

Reach-nicks_example : (key ≡ key) × (env.is_match nick ≡ true)
Reach-nicks_example =
    Reach-nicks env 4 4 data_of data_of joined-Reach (lookup-insert_self 4 data_of [])
      (lookup-insert_self 4 data_of []) refl

-- The peer of the member has ended since.
abbrev ended : Env
ended = record env { is_alive = λ peer. false }

set_nick-panics_iff_example : (handle_set_nick ended 1 client Server.new nick ≡ panics) ↔ (
    (lookup 4 Server.new.users ≡ none)
    ⊎ (IsFree ended Server.new.users nick × HasGone ended (remove 4 Server.new.users)))
set_nick-panics_iff_example =
    set_nick-panics_iff ended 4 1 client nick connected-Reach (lookup-insert_self 4 client [])

chat_msg-panics_iff_example :
    (handle_new_chat_msg ended 1 member room nick ≡ panics) ↔ HasGone ended room.users
chat_msg-panics_iff_example = chat_msg-panics_iff ended 1 member nick joined-Reach

join-join_example :
    handle_join env 3 member room (98 ∷ []) ≡ done (member, room, err already_joined)
join-join_example =
    join-join env 4 0 client member room nick (ok (welcome 0 4 room.users)) room 3 (98 ∷ [])
      connected-Reach (lookup-insert_self 4 client []) joins_room
