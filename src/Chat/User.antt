-- ===== src/Chat/User.antt =====
-- examples/chat/chat_server/src/user.rs: the actor of one connection. Its calls of the server are
-- handled by the server's actor; where that panics, the answer is lost and the user panics too.
use thespis_impl_remote.Common.{ℕ, Option, none, some, Result, err}
use thespis_impl_remote.Peer.State.{Handled, done, ◌>>=◌}
use thespis_impl_remote.Chat.Format.{Text, ChatErr, already_joined, Welcome}
use thespis_impl_remote.Chat.Server.{
  Server, Env, handle_user_data, handle_change_nick, handle_chat_msg_in,
}

pub record User : Type 0 where
  pub addr : Option ℕ
  pub peer_addr : Option ℕ
  pub id : ℕ

unfoldable pub new : ℕ → ℕ → User
new addr peer_addr = record { addr = some addr; peer_addr = some peer_addr; id = addr }

module _ (env : Env) where
  -- `Handler<Join>`: both addresses are taken, whatever the server answers.
  unfoldable pub handle_join :
      ℕ → User → Server → Text → Handled (User × Server × Result Welcome ChatErr)
  handle_join time u s nick = elim u.addr [
    | none ↦ done (u, s, err already_joined)
    | some addr ↦ elim u.peer_addr [
      | none ↦ done (u, s, err already_joined)
      | some peer_addr ↦
          handle_user_data env time s (record { nick = nick; addr = addr; peer_addr = peer_addr })
          >>= λ (s', res). done (record u { addr = none; peer_addr = none }, s', res)
    ]
  ]

  -- `Handler<SetNick>`
  unfoldable pub handle_set_nick :
      ℕ → User → Server → Text → Handled (Server × Result (Unit {0}) ChatErr)
  handle_set_nick time u s nick = handle_change_nick env time s u.id nick

  -- `Handler<NewChatMsg>`, once the server has taken the message from its mailbox.
  unfoldable pub handle_new_chat_msg : ℕ → User → Server → Text → Handled Server
  handle_new_chat_msg time u s txt = handle_chat_msg_in env time s u.id txt
