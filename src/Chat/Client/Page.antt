-- ===== src/Chat/Client/Page.antt =====
-- The state that the actors of the chat client share: what each holds, the mailboxes in between,
-- and the actors of users, which the list of users and the window reach by their addresses.
use Prim.Native.Char.{code}
use Prim.Native.String.{String}
use thespis_impl_remote.Common.{
  ℕ, Bool, List, [], ◌∷◌, ◌++◌, Option, none, some, Map, lookup, insert as put,
}
use thespis_impl_remote.Peer.State.{Handled, done, panics}
use thespis_impl_remote.Chat.Format.{Text}
use thespis_impl_remote.Chat.Client.Color.{Color, Printer}
use thespis_impl_remote.Chat.Client.User.{User}

-- The bytes of a text of the program.
abbrev pub codes : String → List ℕ
codes String.[] = []
codes (String.◌∷◌ c s) = code c ∷ codes s

-- The messages of `UserList`. A `clear` has whether its sender waits for the answer.
pub data UserListMsg : Type 0 where
  insert : ℕ → ℕ → Text → UserListMsg
  remove : ℕ → UserListMsg
  clear : Bool → UserListMsg
  render : UserListMsg
  get_user : ℕ → UserListMsg

-- The messages of `ChatWindow`. `print_help` has the time at which it is handled.
pub data WindowMsg : Type 0 where
  welcome : ℕ → Text → WindowMsg
  disconnect : WindowMsg
  chat_msg : ℕ → ℕ → Text → WindowMsg
  new_user : ℕ → Text → ℕ → ℕ → WindowMsg
  user_left : ℕ → ℕ → WindowMsg
  announce_nick : ℕ → Text → Text → WindowMsg
  print_help : ℕ → WindowMsg

-- What an actor answers to a call of the application, or the server to that of `SetNick`, which is
-- `lost` if the connection is.
pub data Answer : Type 0 where
  cleared removed welcomed renamed lost : Answer
  found : ℕ → Answer

pub record UserList : Type 0 where
  pub users : Map ℕ
  pub indom : Bool

-- A line of the chat: the colour is that of the nickname, or of all.
pub record Line : Type 0 where
  pub time : ℕ
  pub nick : Text
  pub line : Text
  pub color : Color
  pub color_all : Bool

-- The lines are those in the division of the page, the newest first.
pub record ChatWindow : Type 0 where
  pub lines : List Line
  pub users : Map ℕ
  pub srv_color : Color
  pub clt_color : Color

-- `answer` is the answer to the call that the application waits for.
pub record Page : Type 0 where
  pub list : UserList
  pub window : ChatWindow
  pub actors : Map User
  pub next : ℕ
  pub list_box : List UserListMsg
  pub window_box : List WindowMsg
  pub answer : Option Answer

-- The colours that are drawn for the actors of users, and how numbers are printed.
pub record Env : Type 0 where
  pub random : ℕ → Color
  pub printer : Printer

abbrev pub tell_list : UserListMsg → Page → Page
tell_list msg p = record p { list_box = p.list_box ++ msg ∷ [] }

abbrev pub tell_window : WindowMsg → Page → Page
tell_window msg p = record p { window_box = p.window_box ++ msg ∷ [] }

abbrev pub reply : Answer → Page → Page
reply a p = record p { answer = some a }

-- The actor of a user handles its messages as they arrive; only they change it.
unfoldable pub tell_user : ℕ → (User → User) → Page → Handled Page
tell_user addr f p = elim (lookup addr p.actors) [
  | none ↦ panics
  | some u ↦ done (record p { actors = put addr (f u) p.actors })
]
