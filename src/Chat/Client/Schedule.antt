-- ===== src/Chat/Client/Schedule.antt =====
-- The chat client in the middle of its work.
use thespis_impl_remote.Common.{ℕ, [], ◌∷◌, none, some, lookup, ◌==◌, if◌then◌else◌, ◌≡◌}
use thespis_impl_remote.Chat.Format.{Text, user_left, nick_changed}
use thespis_impl_remote.Chat.Client.Page.{remove, get_user, removed, found, Page}
use thespis_impl_remote.Chat.Client.App.{Task, idle, removing, finding, Client}
use thespis_impl_remote.Chat.Client.Sync.{Roster, after, Shows}
use thespis_impl_remote.Chat.Client.Boxes.{
  known_after, OnlyServer, after_all, Joined, inserts, after_joins, NoWelcome,
}

-- The window will know the users of the list.
abbrev pub Agrees : Page → Type 0
Agrees p = (k : ℕ) → lookup k (known_after p.window_box p.window.users) ≡ lookup k p.list.users

-- Where the application stands, with the roster that the list shows and the one that it will have
-- come to when all that was begun is done.
pub data Phase (p : Page) (task : Task) (base target : Roster) : Type 0 where
  free :
      (js : Joined)
      → task ≡ idle
      → p.answer ≡ none
      → p.list_box ≡ inserts js []
      → target ≡ after_joins js base
      → Agrees p
      → Phase p task base target
  asks_remove :
      (js : Joined) (time sid : ℕ)
      → task ≡ removing time sid
      → p.answer ≡ none
      → p.list_box ≡ inserts js (remove sid ∷ [])
      → target ≡ after (user_left time sid) (after_joins js base)
      → Agrees p
      → Phase p task base target
  has_removed :
      (time sid : ℕ)
      → task ≡ removing time sid
      → p.answer ≡ some removed
      → p.list_box ≡ []
      → target ≡ base
      → ((k : ℕ)
          → (if k == sid then none else lookup k (known_after p.window_box p.window.users))
            ≡ lookup k p.list.users)
      → Phase p task base target
  asks_user :
      (js : Joined) (time sid : ℕ) (nick : Text)
      → task ≡ finding time nick
      → p.answer ≡ none
      → p.list_box ≡ inserts js (get_user sid ∷ [])
      → target ≡ after (nick_changed time sid nick) (after_joins js base)
      → Agrees p
      → Phase p task base target
  has_found :
      (time sid addr : ℕ) (nick : Text)
      → task ≡ finding time nick
      → p.answer ≡ some (found addr)
      → lookup sid p.list.users ≡ some addr
      → p.list_box ≡ []
      → target ≡ after (nick_changed time sid nick) base
      → Agrees p
      → Phase p task base target

-- The page with a window that knows the users of the list.
abbrev pub mirror : Page → Page
mirror p = record p { window = record (p.window) { users = p.list.users } }

-- The client will show the roster.
pub record WillShow (ros : Roster) (c : Client) : Type 0 where
  pub base : Roster
  pub target : Roster
  pub shows : Shows base (mirror c.page)
  pub phase : Phase c.page c.task base target
  pub only : OnlyServer c.app_box
  pub quiet : NoWelcome c.page.window_box
  pub total : ros ≡ after_all c.app_box target
