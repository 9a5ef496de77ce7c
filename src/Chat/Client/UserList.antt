-- ===== src/Chat/Client/UserList.antt =====
-- examples/chat/chat_client/src/user_list.rs: the list of users. What a handler does to the page
-- comes with the answer, where a call can ask for it.
use thespis_impl_remote.Common.{
  ℕ, suc, true, false, [], ◌∷◌, none, some, Map, lookup, insert as put, remove as erase,
  if◌then◌else◌,
}
use thespis_impl_remote.Peer.State.{Handled, done, panics, ◌>>=◌}
use thespis_impl_remote.Chat.Format.{Text}
use thespis_impl_remote.Chat.Client.User
use thespis_impl_remote.Chat.Client.User.{User, change_nick}
use thespis_impl_remote.Chat.Client.Page.{
  UserListMsg, insert, remove, clear, render, get_user, new_user, cleared, removed, found, UserList,
  Page, Env, tell_window, reply, tell_user,
}

unfoldable pub new : UserList
new = record { users = []; indom = false }

module _ (env : Env) where
  -- `Handler<Insert>`: a user that is there is told its nickname; the window is told of a new one.
  unfoldable pub handle_insert : ℕ → ℕ → Text → Page → Handled (Page × ℕ)
  unfolding tell_user
  handle_insert time sid nick p = elim (lookup sid p.list.users) [
    | some user ↦ tell_user user (change_nick env.printer nick) p >>= λ p'. done (p', user)
    | none ↦
        let addr = p.next in
        let user = User.new (env.random addr) sid nick in
        let shown : Page = record p {
          actors = put addr (User.render env.printer user) p.actors;
          next = suc addr;
          list = record (p.list) { users = put sid addr p.list.users };
        } in
        done (tell_window (new_user sid nick addr time) shown, addr)
  ]

  -- `Handler<Remove>`
  unfoldable pub handle_remove : ℕ → Page → Page
  handle_remove sid p = record p { list = record (p.list) { users = erase sid p.list.users } }

  -- `Handler<Clear>`
  unfoldable pub handle_clear : Page → Page
  handle_clear p = record p { list = record (p.list) { users = [] } }

  unfoldable pub render_each : Map ℕ → Page → Handled Page
  unfolding tell_user
  render_each [] p = done p
  render_each ((sid, user) ∷ users) p =
      tell_user user (User.render env.printer) p >>= λ p'. render_each users p'

  -- `Handler<Render>`
  unfoldable pub handle_render : Page → Handled Page
  handle_render p = render_each p.list.users p >>= λ p'.
      done (record p' { list = record (p'.list) { indom = true } })

  -- `Handler<GetUser>`
  unfoldable pub handle_get_user : ℕ → Page → Handled ℕ
  handle_get_user sid p = elim (lookup sid p.list.users) [ none ↦ panics | some user ↦ done user ]

  -- The handler for a message. The application calls `Remove` and `GetUser`, and waits for the
  -- answer; so it may for `Clear`.
  unfoldable pub handle : UserListMsg → Page → Handled Page
  unfolding handle_insert handle_remove handle_clear handle_render handle_get_user
  handle (insert time sid nick) p = handle_insert time sid nick p >>= λ (p', user). done p'
  handle (remove sid) p = done (reply removed (handle_remove sid p))
  handle (clear called) p =
      let p' = handle_clear p in done (if called then reply cleared p' else p')
  handle render p = handle_render p
  handle (get_user sid) p = handle_get_user sid p >>= λ user. done (reply (found user) p)
