-- ===== src/Chat/Client/Single.antt =====
-- What one message of the server makes of a client with nothing to do, with each actor taking its
-- turns.
use thespis_impl_remote.Common.{
  ℕ, suc, [], ◌++◌, none, some, false, arith, lookup, insert, remove, ◌≡◌,
}
use thespis_impl_remote.Peer.State.{done, panics}
use thespis_impl_remote.Chat.Format.{Text, chat_msg, user_joined, user_left, nick_changed}
use thespis_impl_remote.Chat.Client.User
use thespis_impl_remote.Chat.Client.User.{User, change_nick}
use thespis_impl_remote.Chat.Client.Page.{Page, Env, codes}
use thespis_impl_remote.Chat.Client.UserList
use thespis_impl_remote.Chat.Client.ChatWindow
use thespis_impl_remote.Chat.Client.App
use thespis_impl_remote.Chat.Client.App.{idle, Client, resume}
use thespis_impl_remote.Chat.Client.Turns.{deliver}

-- The client with nothing to do.
abbrev pub rest : Client → Client
rest c = record c {
  task = idle;
  app_box = [];
  page = record (c.page) { list_box = []; window_box = []; answer = none };
}

module _ (env : Env) where
  -- A new user is shown, and the window knows it.
  abbrev pub with_user : ℕ → ℕ → Text → Page → Page
  with_user time sid nick p = record p {
    actors =
        insert p.next (User.render env.printer (User.new (env.random p.next) sid nick)) p.actors;
    next = suc p.next;
    list = record (p.list) { users = insert sid p.next p.list.users };
    window = ChatWindow.handle_new_user sid nick p.next time p.window;
  }

  pub joined_absent :
      (time sid : ℕ) (nick : Text) (c : Client)
      → lookup sid c.page.list.users ≡ none
      → deliver env (user_joined time nick sid) (rest c)
        ≡ done (rest (record c { page = with_user time sid nick c.page }))
  unfolding deliver App.handle UserList.handle ChatWindow.handle
  joined_absent time sid nick c h = ground (arith, h)

  abbrev pub with_nick : ℕ → User → Text → Page → Page
  with_nick addr u nick p = record p {
    actors = insert addr (change_nick env.printer nick u) p.actors;
  }

  pub joined_present :
      (time sid addr : ℕ) (u : User) (nick : Text) (c : Client)
      → lookup sid c.page.list.users ≡ some addr
      → lookup addr c.page.actors ≡ some u
      → deliver env (user_joined time nick sid) (rest c)
        ≡ done (rest (record c { page = with_nick addr u nick c.page }))
  unfolding deliver App.handle UserList.handle ChatWindow.handle
  joined_present time sid addr u nick c h a = ground (arith, h, a)

  -- The user is gone, and the window says so.
  abbrev pub without_user : ℕ → ℕ → Text → Page → Page
  without_user time sid nick p = record p {
    list = record (p.list) { users = remove sid p.list.users };
    window =
        ChatWindow.announce time (codes "Sadly, " ++ (nick ++ codes " left us."))
          (record (p.window) { users = remove sid p.window.users });
  }

  pub left_known :
      (time sid addr : ℕ) (u : User) (c : Client)
      → lookup sid c.page.window.users ≡ some addr
      → lookup addr c.page.actors ≡ some u
      → deliver env (user_left time sid) (rest c)
        ≡ done (rest (record c { page = without_user time sid u.nick c.page }))
  unfolding deliver App.handle UserList.handle ChatWindow.handle resume
  left_known time sid addr u c h a = ground (arith, h, a)

  pub left_unknown :
      (time sid : ℕ) (c : Client)
      → lookup sid c.page.window.users ≡ none
      → deliver env (user_left time sid) (rest c) ≡ panics
  unfolding deliver App.handle UserList.handle ChatWindow.handle resume
  left_unknown time sid c h = ground (arith, h)

  pub renamed_known :
      (time sid addr : ℕ) (u : User) (nick : Text) (c : Client)
      → lookup sid c.page.list.users ≡ some addr
      → lookup addr c.page.actors ≡ some u
      → deliver env (nick_changed time sid nick) (rest c)
        ≡ done (
            rest (record c {
              page = record (with_nick addr u nick c.page) {
                window = ChatWindow.handle_announce_nick time u.nick nick c.page.window;
              };
            }))
  unfolding deliver App.handle UserList.handle ChatWindow.handle resume
  renamed_known time sid addr u nick c h a = ground (arith, h, a)

  pub renamed_unknown :
      (time sid : ℕ) (nick : Text) (c : Client)
      → lookup sid c.page.list.users ≡ none
      → deliver env (nick_changed time sid nick) (rest c) ≡ panics
  unfolding deliver App.handle UserList.handle ChatWindow.handle resume
  renamed_unknown time sid nick c h = ground (arith, h)

  pub chatted_known :
      (time sid addr : ℕ) (u : User) (txt : Text) (c : Client)
      → lookup sid c.page.window.users ≡ some addr
      → lookup addr c.page.actors ≡ some u
      → deliver env (chat_msg time sid txt) (rest c)
        ≡ done (
            rest (record c {
              page = record (c.page) {
                window = ChatWindow.append_line time u.nick txt u.color false c.page.window;
              };
            }))
  unfolding deliver App.handle UserList.handle ChatWindow.handle resume
  chatted_known time sid addr u txt c h a = ground (arith, h, a)

  pub chatted_unknown :
      (time sid : ℕ) (txt : Text) (c : Client)
      → lookup sid c.page.window.users ≡ none
      → deliver env (chat_msg time sid txt) (rest c) ≡ panics
  unfolding deliver App.handle UserList.handle ChatWindow.handle resume
  chatted_unknown time sid txt c h = ground (arith, h)
