-- ===== src/Chat/Client/Sync.antt =====
-- A client that shows the users of a room: who they are by their ids, and what each message of the
-- server makes of that.
use thespis_impl_remote.Common.{ℕ, ◌<◌, Option, none, some, true, lookup, ◌==◌, if◌then◌else◌, ◌≡◌}
use thespis_impl_remote.Chat.Format.{
  Text, ServerMsg, chat_msg, user_joined, user_left, nick_changed,
}
use thespis_impl_remote.Chat.Client.User.{User}
use thespis_impl_remote.Chat.Client.Page.{Page}
use thespis_impl_remote.Chat.Client.App.{Client}
use thespis_impl_remote.Chat.Client.Single.{rest}

-- The nickname that each id of a user has.
abbrev pub Roster : Type 0
Roster = ℕ → Option Text

-- The roster after a message of the server.
unfoldable pub after : ServerMsg → Roster → Roster
after (chat_msg time sid txt) ros k = ros k
after (user_joined time nick sid) ros k = if k == sid then some nick else ros k
after (user_left time sid) ros k = if k == sid then none else ros k
after (nick_changed time sid nick) ros k = if k == sid then some nick else ros k

-- The user is shown with a nickname: in the page, and to the window under the same address.
pub record IsShown (p : Page) (sid : ℕ) (nick : Text) : Type 0 where
  pub addr : ℕ
  pub user : User
  pub listed : lookup sid p.list.users ≡ some addr
  pub known : lookup sid p.window.users ≡ some addr
  pub here : lookup addr p.actors ≡ some user
  pub named : user.nick ≡ nick
  pub drawn : (user.p.inner_text ≡ nick) × (user.indom ≡ true)
  pub older : addr < p.next

pub record Shows (ros : Roster) (p : Page) : Type 0 where
  pub absent :
      (k : ℕ) → ros k ≡ none → (lookup k p.list.users ≡ none) × (lookup k p.window.users ≡ none)
  pub present : (k : ℕ) (nick : Text) → ros k ≡ some nick → IsShown p k nick
  pub apart :
      (j k addr : ℕ) → lookup j p.list.users ≡ some addr → lookup k p.list.users ≡ some addr → j ≡ k

-- All messages are handled, and the page shows the roster.
pub record InSync (ros : Roster) (c : Client) : Type 0 where
  pub quiet : c ≡ rest c
  pub shows : Shows ros c.page
