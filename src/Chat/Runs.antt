-- ===== src/Chat/Runs.antt =====
-- Runs of the chat server with a client that shows its users.
use thespis_impl_remote.Common.{
  true, List, [], ◌↔◌, ◌∷◌, none, some, arith, lookup, insert, remove, lookup-insert_self, ◌≡◌, ◌≢◌,
  refl, ok,
}
use thespis_impl_remote.Peer.State.{done, panics, ◌>>=◌}
use thespis_impl_remote.Chat.Format.{Text, ServerMsg, text_eq, user_joined, user_left, chat_msg}
use thespis_impl_remote.Chat.Server.{
  Server, broadcast, broadcast_to, any_nick, validate_nick, handle_chat_msg_in, handle_change_nick,
  handle_connection_closed,
}
use thespis_impl_remote.Chat.User.{handle_new_chat_msg}
use thespis_impl_remote.Chat.Room.{Room, chats}
use thespis_impl_remote.Chat.Sole.{Sole}
use thespis_impl_remote.Chat.News.{roster}
use thespis_impl_remote.Chat.Told.{inbox}
use thespis_impl_remote.Chat.Together.{stays, goes, CaughtUp, Others-CaughtUp}
use thespis_impl_remote.Chat.Strays.{leave-panics, own_nick}
use thespis_impl_remote.Chat.Client.Color.{Color}
use thespis_impl_remote.Chat.Client.User.{User}
use thespis_impl_remote.Chat.Client.Page
use thespis_impl_remote.Chat.Client.App
use thespis_impl_remote.Chat.Client.App.{Client, from_server, set_nick, named, resume}
use thespis_impl_remote.Chat.Client.UserList
use thespis_impl_remote.Chat.Client.ChatWindow
use thespis_impl_remote.Chat.Client.Turns.{Turn, app, list, window, arrives, answers, run, deliver}
use thespis_impl_remote.Chat.Client.Single.{rest}
use thespis_impl_remote.Chat.Client.Follow.{IsStray, deliver-panics_iff}
use thespis_impl_remote.Chat.Client.AnyOrder.{after_turns, run-InSync}
use thespis_impl_remote.Chat.Client.Overtaking.{window-overtakes}
use thespis_impl_remote.Chat.Client.Chains.{rounds}
use thespis_impl_remote.Chat.Client.Progress.{settles-InSync}
use thespis_impl_remote.Chat.Client.Sync.{after, InSync, IsShown}
use thespis_impl_remote.Chat.Tests.{
  env, nick, data_of, room, member, connected, joined, joined-Reach,
}

abbrev grey : Color
grey = record { r = 200; g = 200; b = 200; a = 200 }

abbrev client_env : Page.Env
client_env = record { random = λ n. grey; printer = record { hex = λ n. "c8"; decimal = λ n. "4" } }

abbrev shown : User
shown = record {
  sid = 4;
  nick = nick;
  color = grey;
  p = record { inner_text = nick; color = "#c8c8c8"; id = "user_4" };
  indom = true;
}

-- The client of the member.
abbrev client : Client
client = record {
  connection = some (record { time = 0; sid = 4; users = []; txt = "" });
  page = record {
    list = record { users = insert 4 0 []; indom = true };
    window = record { lines = []; users = insert 4 0 []; srv_color = grey; clt_color = grey };
    actors = insert 0 shown [];
    next = 1;
    list_box = [];
    window_box = [];
    answer = none;
  };
  app_box = [];
  task = App.idle;
  sent = [];
  is_alive = true;
}

member-Sole : Sole 14 4 joined.server.users
unfolding lookup insert
member-Sole = record {
  user = data_of;
  there = refl;
  peer = refl;
  only = λ j ud h e. ground (arith, h);
}

client-InSync : InSync (roster joined.server) client
unfolding lookup insert roster
client-InSync = record {
  quiet = refl;
  shows = record {
    absent = λ k free. (ground (arith, free), ground (arith, free));
    present = λ k n known. record {
      addr = 0;
      user = shown;
      listed = ground (arith, known);
      known = ground (arith, known);
      here = refl;
      named = ground (arith, known);
      drawn = (ground (arith, known), refl);
      older = omega arith;
    };
    apart = λ j k addr h i. ground (arith, h, i);
  };
}

-- The member writes.
abbrev written : Server
written = record room { handed = (14, chat_msg 7 4 nick) ∷ [] }

abbrev after_writing : Room
after_writing = record joined { server = written }

writes : handle_new_chat_msg env 7 member room nick ≡ done written
unfolding handle_new_chat_msg handle_chat_msg_in broadcast broadcast_to lookup insert
writes = refl

-- The window takes a turn first.
abbrev window_first : List ServerMsg → List Turn
window_first older = window ∷ app ∷ []

Others-CaughtUp_example :
    CaughtUp client_env env.is_match 14 4 window_first joined after_writing client
Others-CaughtUp_example =
    Others-CaughtUp client_env env.is_match 14 4 window_first (λ older. tt) client joined-Reach
      member-Sole client-InSync
      (goes env.is_alive stays
        (chats 4 7 member written nick (lookup-insert_self 4 member connected.users) writes)
        (data_of, lookup-insert_self 4 data_of []))

-- A client that nobody has heard of goes.
abbrev without : Server
without = record room { handed = (14, user_left 9 5) ∷ [] }

leaves : handle_connection_closed env 9 room 5 ≡ done without
unfolding handle_connection_closed broadcast broadcast_to lookup insert
leaves = refl

unknown : lookup 5 room.users ≡ none
unfolding lookup insert
unknown = refl

leave-panics_example :
    (inbox 14 without.handed ≡ user_left 9 5 ∷ inbox 14 room.handed)
    × (deliver client_env (user_left 9 5) client ≡ panics)
leave-panics_example =
    leave-panics client_env env 14 4 client 9 5 without joined-Reach member-Sole client-InSync
      unknown leaves

-- The member changes its nickname.
abbrev other : Text
other = 98 ∷ []

abbrev renamed : Server
renamed = record room { users = insert 4 (record data_of { nick = other }) (remove 4 room.users) }

changes : handle_change_nick env 8 room 4 other ≡ done (renamed, ok tt)
unfolding handle_change_nick validate_nick broadcast broadcast_to any_nick lookup insert text_eq
changes = refl

own_nick_example :
    (inbox 14 renamed.handed ≡ inbox 14 room.handed)
    × (roster renamed 4 ≡ some other)
    × (other ≢ nick)
    × (c' : Client) × (run client_env (arrives (set_nick other) ∷ app ∷ answers ∷ app ∷ []) client
        ≡ done c')
    × (c'.sent ≡ named other ∷ [])
    × (c' ≡ rest c')
    × IsShown c'.page 4 nick
own_nick_example =
    own_nick client_env env 14 4 client (record { time = 0; sid = 4; users = []; txt = "" }) 8 other
      data_of renamed joined-Reach member-Sole (lookup-insert_self 4 data_of []) client-InSync refl
      refl changes

deliver-panics_iff_example :
    (deliver client_env (user_left 9 5) client ≡ panics)
    ↔ IsStray (roster joined.server) (user_left 9 5)
deliver-panics_iff_example = deliver-panics_iff client_env (user_left 9 5) client-InSync

-- Someone joins and leaves, and all that is in the mailboxes is handled late.
abbrev schedule : List Turn
schedule =
    arrives (from_server (user_joined 3 other 5))
    ∷ app
    ∷ arrives (from_server (user_left 4 5))
    ∷ app
    ∷ list
    ∷ list
    ∷ window
    ∷ app
    ∷ window
    ∷ []

abbrev settled : Client
unfolding run
settled = elim (run client_env schedule client) [ done c ↦ c | panics ↦ client ]

runs : run client_env schedule client ≡ done settled
unfolding run App.handle UserList.handle ChatWindow.handle ChatWindow.append_line resume settled
    insert remove lookup
runs = refl

settled_rest : settled ≡ rest settled
unfolding settled run App.handle UserList.handle ChatWindow.handle ChatWindow.append_line resume
    insert remove lookup
settled_rest = refl

run-InSync_example : InSync (after_turns schedule (roster joined.server)) settled
run-InSync_example = run-InSync client_env schedule settled client-InSync tt runs settled_rest

settles-InSync_example :
    (c' : Client) × (run client_env
        (arrives (from_server (user_left 4 4)) ∷ list ∷ app ∷ window ∷ list ∷ rounds 4)
        client
      ≡ done c')
    × InSync (after (user_left 4 4) (roster joined.server)) c'
unfolding roster lookup insert
settles-InSync_example =
    settles-InSync client_env (user_left 4 4) (list ∷ app ∷ window ∷ list ∷ []) client-InSync
      (nick, refl) tt

window-overtakes_example :
    (run client_env
        (arrives (from_server (user_joined 3 other 5))
          ∷ arrives (from_server (chat_msg 4 5 nick))
          ∷ app
          ∷ app
          ∷ window
          ∷ [])
        client
      ≡ panics)
    × (c' : Client) × ((deliver client_env (user_joined 3 other 5) client
          >>= deliver client_env (chat_msg 4 5 nick))
        ≡ done c')
    × InSync (after (user_joined 3 other 5) (roster joined.server)) c'
unfolding roster lookup insert
window-overtakes_example = window-overtakes client_env 3 4 5 other nick client-InSync refl
