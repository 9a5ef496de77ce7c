-- ===== src/Chat/Client/Form.antt =====
-- examples/chat/chat_client/src/connect_form.rs, chat_form.rs: the forms of the page. What the
-- regular expressions match and how a text is trimmed are parameters, as is whether the socket
-- connects.
use thespis_impl_remote.Common.{
  ℕ, Bool, false, [], ◌∷◌, ◌++◌, Option, none, some, Result, ok, err, ◌&&◌, not, if◌then◌else◌, ◌≡◌,
  ◌≢◌, arith, inl, inr, Option-cases,
}
use thespis_impl_remote.Peer.State.{Handled, done, panics, ◌>>=◌, Handled-cases}
use thespis_impl_remote.Chat.Format.{
  Text, text_eq, ChatErr, nick_invalid, nick_inuse, nick_unchanged, already_joined, Welcome,
  user_joined,
}
use thespis_impl_remote.Chat.Server
use thespis_impl_remote.Chat.Server.{Server, UserData, validate_nick, handle_user_data, broadcast}
use thespis_impl_remote.Chat.Handling.{Result-cases}
use thespis_impl_remote.Chat.User.{User, handle_join}
use thespis_impl_remote.Chat.Client.Page.{codes, WindowMsg}
use thespis_impl_remote.Chat.Client.App
use thespis_impl_remote.Chat.Client.App.{AppMsg, connected, set_nick, new_chat_msg}

-- A key of the keyboard, by its code, and whether shift was held.
pub record Key : Type 0 where
  pub code : Text
  pub shift_key : Bool

-- `nick_of` is the first group of `^/nick (\w{1,15})`, `is_help` is `^/help\n$`.
pub record Regexes : Type 0 where
  pub trim : Text → Text
  pub nick_of : Text → Option Text
  pub is_help : Text → Bool

-- Whom the form for messages tells.
pub data Told : Type 0 where
  nobody : Told
  the_app : AppMsg → Told
  the_window : WindowMsg → Told

newline : Text
newline = 10 ∷ []

-- A key other than a bare Enter does nothing.
unfoldable pub is_typing : Option Key → Bool
is_typing none = false
is_typing (some key) = not (text_eq key.code (codes "Enter") && not key.shift_key)

-- `Handler<ChatSubmitEvt>`: whom is told of the text in the field, and what is left in the field.
unfoldable pub handle_chat_submit : Regexes → ℕ → Option Key → Text → Told × Text
unfolding is_typing newline
handle_chat_submit re now key value =
    let text = re.trim value ++ newline in
    if is_typing key
    then (nobody, value)
    else if text_eq text newline
    then (nobody, [])
    else elim (re.nick_of text) [
      | some nick ↦ (the_app (set_nick nick), [])
      | none ↦
          if re.is_help text
          then (the_window (WindowMsg.print_help now), [])
          else (the_app (new_chat_msg text), [])
    ]

-- `Handler<ChatResetEvt>`
unfoldable pub handle_chat_reset : Told
handle_chat_reset = the_app App.disconnect

-- What the form for a connection shows: itself, its fields, and an error.
pub record ConnectForm : Type 0 where
  pub is_shown : Bool
  pub nick : Text
  pub url : Text
  pub error : Option Text

abbrev with_error : Text → ConnectForm → ConnectForm
with_error txt f = record f { error = some txt }

-- `Handler<ConnSubmitEvt>`, once the server has answered the `Join`: the form, and what the
-- application is called with.
unfoldable pub on_join :
    Result Welcome ChatErr → ConnectForm → Handled (ConnectForm × Option AppMsg)
on_join (ok welcome) f = done (record f { is_shown = false }, some (connected welcome))
on_join (err nick_invalid) f = done (
  with_error (codes "The nick name is invalid. It must be between 1 and 15 word characters.") f,
  none,
)
on_join (err nick_inuse) f =
    done (with_error (codes "The nick name is already in use. Please choose another.") f, none)
on_join (err already_joined) f = done (f, none)
on_join (err nick_unchanged) f = panics

-- `Handler<ConnSubmitEvt>`: without a connection it panics.
unfoldable pub handle_conn_submit :
    Bool → Handled (Result Welcome ChatErr) → ConnectForm → Handled (ConnectForm × Option AppMsg)
unfolding on_join
handle_conn_submit connects answer f =
    if connects then (answer >>= λ res. on_join res f) else panics

-- `Handler<ConnResetEvt>`, with the name that was drawn.
unfoldable pub handle_conn_reset : Text → ConnectForm → ConnectForm
handle_conn_reset random_name f = record f {
  nick = random_name;
  url = codes "ws://127.0.0.1:3012";
  error = none;
}

module _ (env : Server.Env) where
  never_unchanged : (s : Server) (new : Text) → validate_nick env s new none ≢ err nick_unchanged
  unfolding validate_nick
  never_unchanged s new h = ground (arith, h)

  join_answer :
      (time : ℕ) (s s' : Server) (ud : UserData) (res : Result Welcome ChatErr)
      → handle_user_data env time s ud ≡ done (s', res)
      → res ≢ err nick_unchanged
  unfolding handle_user_data
  join_answer time s s' ud res h same = elim (Result-cases (validate_nick env s ud.nick none)) [
    | inl (e, refused) ↦ never_unchanged s ud.nick (ground (arith, refused, h, same))
    | inr (x, passed) ↦ elim (Handled-cases (broadcast env s (user_joined time ud.nick ud.addr))) [
      | inl dead ↦ absurd (ground (arith, passed, dead, h))
      | inr (t, all) ↦ absurd (ground (arith, passed, all, h, same))
    ]
  ]

  -- The form for a connection handles whatever the server answers to a `Join`: its arm that must not
  -- be reached is not.
  on_join-handle_join :
      (time : ℕ) (u u' : User) (s s' : Server) (nick : Text) (res : Result Welcome ChatErr)
      (f : ConnectForm)
      → handle_join env time u s nick ≡ done (u', s', res)
      → on_join res f ≢ panics
  unfolding on_join handle_join
  on_join-handle_join time u u' s s' nick res f h dead = elim (Option-cases u.addr) [
    | inl gone ↦ absurd (ground (arith, gone, h, dead))
    | inr (addr, a) ↦ elim (Option-cases u.peer_addr) [
      | inl gone ↦ absurd (ground (arith, a, gone, h, dead))
      | inr (peer, b) ↦
          let ud : UserData = record { nick = nick; addr = addr; peer_addr = peer } in
          elim (Handled-cases (handle_user_data env time s ud)) [
            | inl lost ↦ absurd (ground (arith, a, b, lost, h))
            | inr ((t, x), handled) ↦
                join_answer time s t ud x handled (ground (arith, a, b, handled, h, dead))
          ]
    ]
  ]
