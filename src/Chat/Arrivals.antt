-- ===== src/Chat/Arrivals.antt =====
-- A run in which a client joins the room of the chat server.
use thespis_impl_remote.Common.{List, [], ◌∷◌, some, ◌≡◌, refl, lookup, insert, lookup-insert_self}
use thespis_impl_remote.Peer.State.{done, panics}
use thespis_impl_remote.Chat.Format.{Welcome}
use thespis_impl_remote.Chat.Server.{welcome, user_list}
use thespis_impl_remote.Chat.News.{roster}
use thespis_impl_remote.Chat.Entering.{join-InSync}
use thespis_impl_remote.Chat.Client.Color.{Color}
use thespis_impl_remote.Chat.Client.Page
use thespis_impl_remote.Chat.Client.UserList
use thespis_impl_remote.Chat.Client.ChatWindow
use thespis_impl_remote.Chat.Client.App
use thespis_impl_remote.Chat.Client.App.{Client, connected, resume}
use thespis_impl_remote.Chat.Client.Turns.{Turn, app, list, window, arrives, run}
use thespis_impl_remote.Chat.Client.Single.{rest}
use thespis_impl_remote.Chat.Client.Sync.{InSync}
use thespis_impl_remote.Chat.Client.AnyOrder.{after_turns}
use thespis_impl_remote.Chat.Tests.{env, nick, room, member, connected-Reach, client, joins_room}

abbrev white : Color
white = record { r = 255; g = 255; b = 255; a = 255 }

abbrev browser : Page.Env
browser = record { random = λ n. white; printer = record { hex = λ n. "ff"; decimal = λ n. "4" } }

abbrev answer : Welcome
answer = welcome 0 4 room.users

abbrev turns : List Turn
turns = window ∷ app ∷ list ∷ app ∷ list ∷ list ∷ window ∷ window ∷ app ∷ []

abbrev fresh : Client
fresh = App.new white white

abbrev shown : Client
unfolding run
shown = elim (run browser (arrives (connected answer) ∷ turns) fresh) [
  | done c ↦ c
  | panics ↦ fresh
]

fresh_rest : fresh ≡ rest fresh
unfolding App.new
fresh_rest = refl

nobody : fresh.page.window.users ≡ []
unfolding App.new
nobody = refl

runs : run browser (arrives (connected answer) ∷ turns) fresh ≡ done shown
unfolding run App.new App.handle UserList.handle ChatWindow.handle resume shown insert lookup
    user_list UserList.render_each
runs = refl

shown_rest : shown ≡ rest shown
unfolding run App.new App.handle UserList.handle ChatWindow.handle resume shown insert lookup
    user_list UserList.render_each
shown_rest = refl

join-InSync_example : InSync (after_turns turns (roster room)) shown × (roster room 4 ≡ some nick)
join-InSync_example =
    join-InSync env browser 4 0 client member room nick answer fresh shown turns connected-Reach
      (lookup-insert_self 4 client []) joins_room fresh_rest nobody tt runs shown_rest
