-- ===== src/Chat/Client/WindowTurns.antt =====
-- The turns of the window of the chat client, in the middle of its work.
use thespis_impl_remote.Common.{
  List, ◌∷◌, lookup, ◌≡◌, inl, inr, refl, ap, ◌∙◌, arith, sym, remove as erase, false, ◌++◌, subst,
}
use thespis_impl_remote.Peer.State.{Handled, done, Handled-cases}
use thespis_impl_remote.Chat.Client.Page.{codes, ChatWindow, WindowMsg, new_user, Page, Env}
use thespis_impl_remote.Chat.Client.ChatWindow
use thespis_impl_remote.Chat.Client.App.{Client, Task}
use thespis_impl_remote.Chat.Client.Turns.{window_turn}
use thespis_impl_remote.Chat.Client.Sync.{Roster}
use thespis_impl_remote.Chat.Client.Showing.{new_user_users}
use thespis_impl_remote.Chat.Client.Schedule.{
  Agrees, Phase, free, asks_remove, has_removed, asks_user, has_found, WillShow,
}
use thespis_impl_remote.Chat.Client.Boxes.{known_after, NoWelcome}
use thespis_impl_remote.Chat.Client.AppTurns.{done-inj, List-cases, mirrored}

-- A turn of the window leaves the list of users, and what the window will know.
pub record Same (p q : Page) : Type 0 where
  pub users : q.list.users ≡ p.list.users
  pub actors : q.actors ≡ p.actors
  pub next : q.next ≡ p.next
  pub box : q.list_box ≡ p.list_box
  pub answer : q.answer ≡ p.answer
  pub known : known_after q.window_box q.window.users ≡ known_after p.window_box p.window.users
  pub quiet : NoWelcome q.window_box

-- A turn that changes the window alone.
on_window :
    (p q : Page) (w : ChatWindow) (x : Handled Page) (msg : WindowMsg) (box : List WindowMsg)
    → p.window_box ≡ msg ∷ box
    → NoWelcome box
    → x ≡ done q
    → x ≡ done (record p { window_box = box; window = w })
    → known_after box w.users ≡ known_after (msg ∷ box) p.window.users
    → Same p q
on_window p q w x msg box e n h g k = subst (Same p) (done-inj (sym g ∙ h)) (record {
  users = refl;
  actors = refl;
  next = refl;
  box = refl;
  answer = refl;
  known = k ∙ sym (ap (λ (b : List WindowMsg). known_after b p.window.users) e);
  quiet = n;
})

module _ (p q : Page) (box : List WindowMsg) where
  rest : Page
  rest = record p { window_box = box }

  same :
      (msg : WindowMsg)
      → p.window_box ≡ msg ∷ box
      → NoWelcome (msg ∷ box)
      → ChatWindow.handle msg (record p { window_box = box }) ≡ done q
      → Same p q
  unfolding known_after ChatWindow.handle ChatWindow.append_line rest
  same (new_user sid nick addr time) e n h =
      on_window p q (ChatWindow.handle_new_user sid nick addr time p.window) _
        (new_user sid nick addr time) box e n h refl
        (ap (known_after box) (new_user_users sid nick addr time p.window))
  same (WindowMsg.user_left time sid) e n h = elim (Handled-cases (ChatWindow.ask_user sid rest)) [
    | inl dead ↦ absurd (ground (arith, dead, h))
    | inr (u, asked) ↦
        let gone : ChatWindow = record (p.window) { users = erase sid p.window.users } in
        on_window p q
          (ChatWindow.announce time (codes "Sadly, " ++ (u.nick ++ codes " left us.")) gone) _
          (WindowMsg.user_left time sid) box e n h (ground (arith, asked)) refl
  ]
  same WindowMsg.disconnect e n h =
      on_window p q (ChatWindow.handle_disconnect p.window) _ WindowMsg.disconnect box e n h refl
        refl
  same (WindowMsg.welcome time txt) e n h = absurd n
  same (WindowMsg.chat_msg time sid txt) e n h =
      elim (Handled-cases (ChatWindow.ask_user sid rest)) [
        | inl dead ↦ absurd (ground (arith, dead, h))
        | inr (u, asked) ↦
            on_window p q (ChatWindow.append_line time u.nick txt u.color false p.window) _
              (WindowMsg.chat_msg time sid txt) box e n h (ground (arith, asked)) refl
      ]
  same (WindowMsg.announce_nick time old next) e n h =
      on_window p q (ChatWindow.handle_announce_nick time old next p.window) _
        (WindowMsg.announce_nick time old next) box e n h refl refl
  same (WindowMsg.print_help time) e n h =
      on_window p q (ChatWindow.handle_print_help time p.window) _ (WindowMsg.print_help time) box e
        n h refl refl

window_same :
    (env : Env) (p q : Page) → NoWelcome p.window_box → window_turn env p ≡ done q → Same p q
unfolding window_turn
window_same env p q n h = elim (List-cases p.window_box) [
  | inl empty ↦
      subst (Same p)
        (done-inj
          (sym (let stays : window_turn env p ≡ done p = ground (arith, empty) in stays) ∙ h))
        (record {
          users = refl;
          actors = refl;
          next = refl;
          box = refl;
          answer = refl;
          known = refl;
          quiet = n;
        })
  | inr (msg, box, e) ↦ same p q box msg e (subst NoWelcome e n) (ground (arith, h, e))
]

agree : {p q : Page} → Same p q → Agrees p → Agrees q
agree s w k = ap (lookup k) s.known ∙ w k ∙ sym (ap (lookup k) s.users)

Phase-same :
    {p q : Page} {task : Task} {base target : Roster}
    → Same p q
    → Phase p task base target
    → Phase q task base target
Phase-same {p} {q} s (free js t a l g w) = free js t (s.answer ∙ a) (s.box ∙ l) g (agree s w)
Phase-same s (asks_remove js time sid t a l g w) =
    asks_remove js time sid t (s.answer ∙ a) (s.box ∙ l) g (agree s w)
Phase-same s (has_removed time sid t a l g w) =
    has_removed time sid t (s.answer ∙ a) (s.box ∙ l) g
      (λ k. ground (arith, w k, ap (lookup k) s.known, ap (lookup k) s.users))
Phase-same s (asks_user js time sid nick t a l g w) =
    asks_user js time sid nick t (s.answer ∙ a) (s.box ∙ l) g (agree s w)
Phase-same s (has_found time sid addr nick t a f l g w) =
    has_found time sid addr nick t (s.answer ∙ a) (ap (lookup sid) s.users ∙ f) (s.box ∙ l) g
      (agree s w)

pub window_keeps :
    {ros : Roster} (env : Env) (c : Client) (p' : Page) (v : WillShow ros c)
    → Phase c.page c.task v.base v.target
    → window_turn env c.page ≡ done p'
    → WillShow ros (record c { page = p' })
window_keeps env c p' v phase h =
    let s = window_same env c.page p' v.quiet h in
    record {
      base = v.base;
      target = v.target;
      shows = mirrored c.page p' s.users s.actors s.next v.shows;
      phase = Phase-same s phase;
      only = v.only;
      quiet = s.quiet;
      total = v.total;
    }
