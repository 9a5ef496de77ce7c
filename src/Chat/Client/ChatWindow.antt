-- ===== src/Chat/Client/ChatWindow.antt =====
-- examples/chat/chat_client/src/chat_window.rs: the window with the lines of the chat. Scrolling is
-- left out.
use thespis_impl_remote.Common.{
  ℕ, Bool, true, false, [], ◌∷◌, ◌++◌, none, some, lookup, insert as put, remove as erase, ◌==◌,
  if◌then◌else◌,
}
use thespis_impl_remote.Peer.State.{Handled, done, panics, ◌>>=◌}
use thespis_impl_remote.Chat.Format.{Text}
use thespis_impl_remote.Chat.Client.Color.{Color, light}
use thespis_impl_remote.Chat.Client.User.{User, user_info}
use thespis_impl_remote.Chat.Client.Page.{
  codes, WindowMsg, welcome, disconnect, chat_msg, new_user, user_left, announce_nick, print_help,
  welcomed, ChatWindow, Page, Line, reply,
}

-- The two colours are drawn.
unfoldable pub new : Color → Color → ChatWindow
new c d = record { lines = []; users = []; srv_color = light c; clt_color = light d }

-- The text of `PrintHelp`.
abbrev help : Text
help =
    codes
      "Available commands:\n/nick NEWNAME # change nick (must be between 1 and 15 word characters)\n/help # Print available commands"

unfoldable pub append_line : ℕ → Text → Text → Color → Bool → ChatWindow → ChatWindow
append_line time nick line color color_all w =
    let l : Line = record {
      time = time;
      nick = nick;
      line = line;
      color = color;
      color_all = color_all;
    } in
    record w { lines = l ∷ w.lines }

-- A line of the server.
abbrev pub announce : ℕ → Text → ChatWindow → ChatWindow
announce time txt w = append_line time (codes "Server") txt w.srv_color true w

-- The call of `UserInfo` at the user that the window knows by its id.
unfoldable pub ask_user : ℕ → Page → Handled User
ask_user sid p = elim (lookup sid p.window.users) [
  | none ↦ panics
  | some user ↦ elim (lookup user p.actors) [ none ↦ panics | some u ↦ done u ]
]

-- `Handler<Welcome>`
unfoldable pub handle_welcome : ℕ → Text → ChatWindow → ChatWindow
unfolding append_line
handle_welcome time txt w = announce time txt w

-- `Handler<Disconnect>`
unfoldable pub handle_disconnect : ChatWindow → ChatWindow
handle_disconnect w = record w { lines = []; users = [] }

-- `Handler<ChatMsg>`
unfoldable pub handle_chat_msg : ℕ → ℕ → Text → Page → Handled Page
unfolding ask_user append_line user_info
handle_chat_msg time sid txt p = ask_user sid p >>= λ u.
    let (nick, color) = user_info u in
    done (record p { window = append_line time nick txt color false p.window })

-- `Handler<NewUser>`: a user with the time 0 was there before.
unfoldable pub handle_new_user : ℕ → Text → ℕ → ℕ → ChatWindow → ChatWindow
unfolding append_line
handle_new_user sid nick addr time w =
    let known : ChatWindow = record w { users = put sid addr w.users } in
    if time == 0
    then known
    else announce time (codes "We welcome a new user, " ++ (nick ++ codes "!")) known

-- `Handler<UserLeft>`
unfoldable pub handle_user_left : ℕ → ℕ → Page → Handled Page
unfolding ask_user append_line user_info
handle_user_left time sid p = ask_user sid p >>= λ u.
    let (nick, color) = user_info u in
    let gone : ChatWindow = record (p.window) { users = erase sid p.window.users } in
    done (record p { window = announce time (codes "Sadly, " ++ (nick ++ codes " left us.")) gone })

-- `Handler<AnnounceNick>`
unfoldable pub handle_announce_nick : ℕ → Text → Text → ChatWindow → ChatWindow
unfolding append_line
handle_announce_nick time old next w =
    announce time (old ++ (codes " has changed names => " ++ (next ++ codes "."))) w

-- `Handler<PrintHelp>`
unfoldable pub handle_print_help : ℕ → ChatWindow → ChatWindow
unfolding append_line
handle_print_help now w = append_line now (codes "Client") help w.clt_color true w

-- A handler that changes the window only.
abbrev on_window : (ChatWindow → ChatWindow) → Page → Page
on_window f p = record p { window = f p.window }

-- The handler for a message. The application calls `Welcome`, and waits for the answer.
unfoldable pub handle : WindowMsg → Page → Handled Page
unfolding handle_welcome handle_disconnect handle_chat_msg handle_new_user handle_user_left
    handle_announce_nick handle_print_help
handle (welcome time txt) p = done (reply welcomed (on_window (handle_welcome time txt) p))
handle disconnect p = done (on_window handle_disconnect p)
handle (chat_msg time sid txt) p = handle_chat_msg time sid txt p
handle (new_user sid nick addr time) p = done (on_window (handle_new_user sid nick addr time) p)
handle (user_left time sid) p = handle_user_left time sid p
handle (announce_nick time old next) p = done (on_window (handle_announce_nick time old next) p)
handle (print_help now) p = done (on_window (handle_print_help now) p)
