-- ===== src/Chat/Client/Welcoming.antt =====
-- The chat client between `Connected` and the end of its handler: the list is cleared and takes in
-- the users, while the window shows the welcome.
use thespis_impl_remote.Common.{
  insert as put, ℕ, List, [], ◌∷◌, ◌++◌, append_assoc, Option, some, none, lookup, ◌≡◌, refl, arith,
  inl, inr, subst, Option-cases, Map,
}
use thespis_impl_remote.Peer.State.{Handled, done, ◌>>=◌, Handled-cases}
use thespis_impl_remote.Chat.Client.Page.{
  Page, Env, Answer, WindowMsg, welcome, tell_user, new_user,
}
use thespis_impl_remote.Chat.Client.User
use thespis_impl_remote.Chat.Client.UserList
use thespis_impl_remote.Chat.Client.UserList.{render_each}
use thespis_impl_remote.Chat.Client.ChatWindow
use thespis_impl_remote.Chat.Client.Turns.{list_turn, window_turn}
use thespis_impl_remote.Chat.Client.Boxes.{Joined, inserts, NoWelcome}
use thespis_impl_remote.Chat.Client.AppTurns.{List-cases}

-- The page with messages before those of the window, and an answer.
abbrev pub wrap : List WindowMsg → Option Answer → Page → Page
wrap pre a p = record p { window_box = pre ++ p.window_box; answer = a }

abbrev wrapped : List WindowMsg → Option Answer → Handled Page → Handled Page
wrapped pre a m = m >>= λ p. done (wrap pre a p)

module _ (env : Env) (pre : List WindowMsg) (a : Option Answer) where
  render_each-wrap :
      (users : Map ℕ) (p : Page)
      → render_each env users (wrap pre a p) ≡ wrapped pre a (render_each env users p)
  unfolding render_each tell_user
  render_each-wrap [] p = refl
  render_each-wrap ((sid, user) ∷ users) p = elim (Option-cases (lookup user p.actors)) [
    | inl lost ↦ ground (arith, lost)
    | inr (u, here) ↦
        let drawn : Page = record p { actors = put user (User.render env.printer u) p.actors } in
        ground (arith, here, render_each-wrap users drawn)
  ]

  -- The list does not mind what waits for the window, or an answer.
  pub list_turn-wrap :
      (js : Joined) (p : Page)
      → p.list_box ≡ inserts js []
      → list_turn env (wrap pre a p) ≡ wrapped pre a (list_turn env p)
  unfolding list_turn inserts UserList.handle tell_user
  list_turn-wrap [] p l = ground (arith, l)
  list_turn-wrap (none ∷ js) p l =
      let rest : Page = record p { list_box = inserts js [] } in
      elim (Handled-cases (render_each env p.list.users rest)) [
        | inl dead ↦ ground (arith, l, dead, render_each-wrap p.list.users rest)
        | inr (q, all) ↦ ground (arith, l, all, render_each-wrap p.list.users rest)
      ]
  list_turn-wrap (some (time, sid, nick) ∷ js) p l = elim (Option-cases (lookup sid p.list.users)) [
    | inl absent ↦
        let told = append_assoc pre p.window_box (new_user sid nick p.next time ∷ []) in
        ground (arith, l, absent, told)
    | inr (user, there) ↦ elim (Option-cases (lookup user p.actors)) [
      | inl lost ↦ ground (arith, l, there, lost)
      | inr (u, here) ↦ ground (arith, l, there, here)
    ]
  ]

handle-wrap :
    (msg : WindowMsg) (a : Option Answer) (p : Page)
    → NoWelcome (msg ∷ [])
    → ChatWindow.handle msg (wrap [] a p) ≡ wrapped [] a (ChatWindow.handle msg p)
unfolding ChatWindow.handle
handle-wrap (welcome time txt) a p n = absurd n
handle-wrap WindowMsg.disconnect a p n = refl
handle-wrap (WindowMsg.chat_msg time sid txt) a p n =
    elim (Handled-cases (ChatWindow.ask_user sid p)) [
      | inl dead ↦ ground (arith, dead)
      | inr (u, asked) ↦ ground (arith, asked)
    ]
handle-wrap (new_user sid nick addr time) a p n = refl
handle-wrap (WindowMsg.user_left time sid) a p n =
    elim (Handled-cases (ChatWindow.ask_user sid p)) [
      | inl dead ↦ ground (arith, dead)
      | inr (u, asked) ↦ ground (arith, asked)
    ]
handle-wrap (WindowMsg.announce_nick time old next) a p n = refl
handle-wrap (WindowMsg.print_help now) a p n = refl

first_NoWelcome :
    (msg : WindowMsg) (box : List WindowMsg) → NoWelcome (msg ∷ box) → NoWelcome (msg ∷ [])
first_NoWelcome (welcome time txt) box n = absurd n
first_NoWelcome WindowMsg.disconnect box n = tt
first_NoWelcome (WindowMsg.chat_msg time sid txt) box n = tt
first_NoWelcome (new_user sid nick addr time) box n = tt
first_NoWelcome (WindowMsg.user_left time sid) box n = tt
first_NoWelcome (WindowMsg.announce_nick time old next) box n = tt
first_NoWelcome (WindowMsg.print_help now) box n = tt

-- Nor does the window mind an answer.
pub window_turn-wrap :
    (env : Env) (a : Option Answer) (p : Page)
    → NoWelcome p.window_box
    → window_turn env (wrap [] a p) ≡ wrapped [] a (window_turn env p)
unfolding window_turn
window_turn-wrap env a p n = elim (List-cases p.window_box) [
  | inl empty ↦ ground (arith, empty)
  | inr (msg, box, e) ↦
      let one = first_NoWelcome msg box (subst NoWelcome e n) in
      ground (arith, e, handle-wrap msg a (record p { window_box = box }) one)
]
