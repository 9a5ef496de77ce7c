-- ===== src/Chat/Client/Turns.antt =====
-- The actors of the chat client as an executor polls them: a schedule says who handles its next
-- message, and when messages come from outside.
use thespis_impl_remote.Common.{List, [], ◌∷◌, ◌++◌, none, some, false}
use thespis_impl_remote.Peer.State.{Handled, done, ◌>>=◌}
use thespis_impl_remote.Chat.Format.{ServerMsg}
use thespis_impl_remote.Chat.Client.Page.{Answer, Page, Env, renamed, lost}
use thespis_impl_remote.Chat.Client.App
use thespis_impl_remote.Chat.Client.App.{
  AppMsg, Task, idle, clearing, welcoming, removing, finding, renaming, Client, from_server, resume,
}
use thespis_impl_remote.Chat.Client.UserList
use thespis_impl_remote.Chat.Client.ChatWindow

-- An actor's turn, a message from outside, the answer of the server to `SetNick`, and the end of
-- the connection.
pub data Turn : Type 0 where
  app list window : Turn
  arrives : AppMsg → Turn
  answers drops : Turn
  peer_ends : Turn

module _ (env : Env) where
  -- The application takes a message if it waits for no answer.
  unfoldable pub app_turn : Client → Handled Client
  app_turn c = elim c.task [
    | idle ↦ elim c.app_box [
      | [] ↦ done c
      | msg ∷ rest ↦ App.handle msg (record c { app_box = rest })
    ]
    | t ↦ elim c.page.answer [
      | none ↦ done c
      | some a ↦ resume env t a (record c { page = record (c.page) { answer = none } })
    ]
  ]

  unfoldable pub list_turn : Page → Handled Page
  list_turn p = elim p.list_box [
    | [] ↦ done p
    | msg ∷ rest ↦ UserList.handle env msg (record p { list_box = rest })
  ]

  unfoldable pub window_turn : Page → Handled Page
  window_turn p = elim p.window_box [
    | [] ↦ done p
    | msg ∷ rest ↦ ChatWindow.handle msg (record p { window_box = rest })
  ]

  abbrev on_page : (Page → Handled Page) → Client → Handled Client
  on_page f c = f c.page >>= λ p. done (record c { page = p })

  -- The server answers a call that waits for it.
  abbrev pub server_answers : Answer → Client → Client
  server_answers a c = elim c.task [
    | renaming ↦ record c { page = record (c.page) { answer = some a } }
    | _ ↦ c
  ]

  unfoldable pub turn : Turn → Client → Handled Client
  unfolding app_turn list_turn window_turn
  turn app c = app_turn c
  turn list c = on_page list_turn c
  turn window c = on_page window_turn c
  turn (arrives msg) c = done (record c { app_box = c.app_box ++ msg ∷ [] })
  turn answers c = done (server_answers renamed c)
  turn drops c = done (server_answers lost c)
  turn peer_ends c = done (record c { is_alive = false })

  unfoldable pub run : List Turn → Client → Handled Client
  unfolding turn
  run [] c = done c
  run (t ∷ ts) c = turn t c >>= λ c'. run ts c'

  -- One message of the server, which every actor has done with before another comes.
  unfoldable pub deliver : ServerMsg → Client → Handled Client
  unfolding run
  deliver msg c = run (arrives (from_server msg) ∷ app ∷ list ∷ app ∷ window ∷ []) c
