-- ===== src/Chat/Client/App.antt =====
-- examples/chat/chat_client/src/app.rs: the application, and the client as its actors take turns.
-- The application handles one message at a time, and takes no other while it waits for an answer.
use thespis_impl_remote.Common.{
  ℕ, List, [], ◌∷◌, Option, none, some, Bool, true, false, lookup, if◌then◌else◌,
}
use thespis_impl_remote.Peer.State.{Handled, done, panics, ◌>>=◌}
use thespis_impl_remote.Chat.Format.{
  Text, ServerMsg, chat_msg, user_joined, user_left, nick_changed, Welcome,
}
use thespis_impl_remote.Chat.Client.Color.{Color}
use thespis_impl_remote.Chat.Client.User.{change_nick, user_info}
use thespis_impl_remote.Chat.Client.Page.{
  codes, WindowMsg, Answer, insert, remove, clear, render, get_user, cleared, removed, welcomed,
  renamed, lost, found, Page, Env, tell_list, tell_window, tell_user,
}
use thespis_impl_remote.Chat.Client.UserList
use thespis_impl_remote.Chat.Client.ChatWindow

-- What the application handles.
pub data AppMsg : Type 0 where
  connected : Welcome → AppMsg
  from_server : ServerMsg → AppMsg
  new_chat_msg : Text → AppMsg
  set_nick : Text → AppMsg
  disconnect : AppMsg

-- Where in a handler the application waits for an answer.
pub data Task : Type 0 where
  idle : Task
  clearing welcoming : Welcome → Task
  removing : ℕ → ℕ → Task
  finding : ℕ → Text → Task
  renaming : Task

-- What was sent over the connection, the newest first.
pub data Sent : Type 0 where
  chatted named : Text → Sent
  closed : Sent

-- Of `Connected` the welcome; what goes through its addresses and its socket is in `sent`. The peer
-- of the connection takes messages while it is alive.
pub record Client : Type 0 where
  pub connection : Option Welcome
  pub page : Page
  pub app_box : List AppMsg
  pub task : Task
  pub sent : List Sent
  pub is_alive : Bool

unfoldable pub new : Color → Color → Client
unfolding UserList.new ChatWindow.new
new c d = record {
  connection = none;
  page = record {
    list = UserList.new;
    window = ChatWindow.new c d;
    actors = [];
    next = 0;
    list_box = [];
    window_box = [];
    answer = none;
  };
  app_box = [];
  task = idle;
  sent = [];
  is_alive = true;
}

-- `Insert`s with the time 0, for the users who were there before.
unfoldable pub insert_all : List (ℕ × Text) → Page → Page
insert_all [] p = p
insert_all ((sid, nick) ∷ users) p = insert_all users (tell_list (insert 0 sid nick) p)

-- `Handler<ServerMsg>`, up to the first answer that it waits for.
unfoldable pub handle_server_msg : ServerMsg → Client → Client
handle_server_msg (user_joined time nick sid) c = record c {
  page = tell_list (insert time sid nick) c.page;
}
handle_server_msg (user_left time sid) c = record c {
  page = tell_list (remove sid) c.page;
  task = removing time sid;
}
handle_server_msg (nick_changed time sid nick) c = record c {
  page = tell_list (get_user sid) c.page;
  task = finding time nick;
}
handle_server_msg (chat_msg time sid txt) c = record c {
  page = tell_window (WindowMsg.chat_msg time sid txt) c.page;
}

-- `Handler<NewChatMsg>`
unfoldable pub handle_new_chat_msg : Text → Client → Handled Client
handle_new_chat_msg txt c = elim c.connection [
  | none ↦ panics
  | some conn ↦ if c.is_alive then done (record c { sent = chatted txt ∷ c.sent }) else panics
]

-- `Handler<SetNick>`, which waits for the answer of the server.
unfoldable pub handle_set_nick : Text → Client → Handled Client
handle_set_nick nick c = elim c.connection [
  | none ↦ panics
  | some conn ↦
      if c.is_alive then done (record c { sent = named nick ∷ c.sent; task = renaming }) else panics
]

-- `Handler<Disconnect>`; the form for a connection is shown again. Closing the
-- socket is taken to succeed.
unfoldable pub handle_disconnect : Client → Client
handle_disconnect c = record c {
  sent = elim c.connection [ none ↦ c.sent | some conn ↦ closed ∷ c.sent ];
  connection = none;
  page = tell_window WindowMsg.disconnect (tell_list render (tell_list (clear false) c.page));
}

-- The handler for a message, up to the first answer that it waits for.
unfoldable pub handle : AppMsg → Client → Handled Client
unfolding handle_server_msg handle_new_chat_msg handle_set_nick handle_disconnect
handle (connected w) c = done (record c { page = tell_list (clear true) c.page; task = clearing w })
handle (from_server msg) c = done (handle_server_msg msg c)
handle (new_chat_msg txt) c = handle_new_chat_msg txt c
handle (set_nick nick) c = handle_set_nick nick c
handle disconnect c = done (handle_disconnect c)

module _ (env : Env) where
  -- `Handler<ServerMsg>` for a new nickname, once the user is found.
  unfoldable pub announce : ℕ → Text → ℕ → Page → Handled Page
  announce time nick user p = elim (lookup user p.actors) [
    | none ↦ panics
    | some u ↦ tell_user user (change_nick env.printer nick) p >>= λ p'.
        done (tell_window (WindowMsg.announce_nick time (user_info u).0 nick) p')
  ]

  -- A handler that goes on with an answer. Only the answer that it waits for comes.
  unfoldable pub resume : Task → Answer → Client → Handled Client
  unfolding insert_all announce
  resume (clearing w) cleared c =
      let shown = tell_list render (insert_all w.users c.page) in
      done (record c {
        page = tell_window (WindowMsg.welcome w.time (codes w.txt)) shown;
        task = welcoming (record w { users = [] });
      })
  resume (welcoming w) welcomed c = done (record c { connection = some w; task = idle })
  resume (removing time sid) removed c =
      done (record c { page = tell_window (WindowMsg.user_left time sid) c.page; task = idle })
  resume (finding time nick) (found user) c =
      announce time nick user c.page >>= λ p. done (record c { page = p; task = idle })
  resume renaming renamed c = done (record c { task = idle })
  resume renaming lost c = panics
  resume t a c = done c
