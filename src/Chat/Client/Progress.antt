-- ===== src/Chat/Client/Progress.antt =====
-- One message of the server in the chat client, whatever order its actors take turns in.
use thespis_impl_remote.Common.{
  ℕ, List, [], ◌∷◌, ◌++◌, Option, none, some, false, lookup, ◌≡◌, refl, ap, ◌∙◌, subst, arith, inl,
  inr, Option-cases,
}
use thespis_impl_remote.Peer.State.{done}
use thespis_impl_remote.Chat.Format.{
  Text, ServerMsg, chat_msg, user_joined, user_left, nick_changed,
}
use thespis_impl_remote.Chat.Client.User.{User}
use thespis_impl_remote.Chat.Client.Page.{
  Page, Env, UserListMsg, WindowMsg, Answer, insert, remove, get_user, new_user, removed, found,
}
use thespis_impl_remote.Chat.Client.UserList
use thespis_impl_remote.Chat.Client.ChatWindow
use thespis_impl_remote.Chat.Client.App
use thespis_impl_remote.Chat.Client.App.{
  AppMsg, Task, from_server, idle, removing, finding, Client, resume,
}
use thespis_impl_remote.Chat.Client.Turns.{Turn, arrives, turn, run}
use thespis_impl_remote.Chat.Client.Single.{rest, with_user, with_nick, without_user}
use thespis_impl_remote.Chat.Client.Sync.{Roster, after, Shows, InSync}
use thespis_impl_remote.Chat.Client.Follow.{Fits}
use thespis_impl_remote.Chat.Client.AnyOrder.{after_turns, run-InSync}
use thespis_impl_remote.Chat.Client.Chains.{
  IsInner, inner-FromServer, inner-after_turns, Chain, ends, runs, run-append, each, Idle, by_app,
  by_list, by_window, rounds, settles, over,
}

-- Where the client is in its work.
abbrev pub at :
    Client → Task → List AppMsg → List UserListMsg → List WindowMsg → Option Answer → Page → Client
at c task app_box list_box window_box answer p = record c {
  task = task;
  app_box = app_box;
  page = record p { list_box = list_box; window_box = window_box; answer = answer };
}

module _ (env : Env) where
  stays : {n : ℕ} (c : Client) (p : Page) → Chain env n (at c idle [] [] [] none p)
  unfolding turn
  stays {n} c p =
      let q = at c idle [] [] [] none p in ends refl (each env (Idle env q) refl refl refl)

  chat-Chain :
      (time sid addr : ℕ) (u : User) (txt : Text) (c : Client)
      → lookup sid c.page.window.users ≡ some addr
      → lookup addr c.page.actors ≡ some u
      → Chain env 4 (at c idle (from_server (chat_msg time sid txt) ∷ []) [] [] none c.page)
  unfolding turn App.handle ChatWindow.handle
  chat-Chain time sid addr u txt c h a =
      let p = c.page in
      let w = ChatWindow.append_line time u.nick txt u.color false p.window in
      by_app env (at c idle [] [] (WindowMsg.chat_msg time sid txt ∷ []) none p) refl refl refl (
        by_window env (at c idle [] [] [] none (record p { window = w })) (ground (arith, h, a))
          refl refl (stays c (record p { window = w })))

  absent-Chain :
      (time sid : ℕ) (nick : Text) (c : Client)
      → lookup sid c.page.list.users ≡ none
      → Chain env 4 (at c idle (from_server (user_joined time nick sid) ∷ []) [] [] none c.page)
  unfolding turn App.handle UserList.handle ChatWindow.handle
  absent-Chain time sid nick c h =
      let p = c.page in
      let q = with_user env time sid nick p in
      by_app env (at c idle [] (insert time sid nick ∷ []) [] none p) refl refl refl (
        by_list env
          (at c idle [] [] (new_user sid nick p.next time ∷ []) none
            (record q { window = p.window }))
          (ground (arith, h)) refl refl
          (by_window env (at c idle [] [] [] none q) refl refl refl (stays c q)))

  present-Chain :
      (time sid addr : ℕ) (u : User) (nick : Text) (c : Client)
      → lookup sid c.page.list.users ≡ some addr
      → lookup addr c.page.actors ≡ some u
      → Chain env 4 (at c idle (from_server (user_joined time nick sid) ∷ []) [] [] none c.page)
  unfolding turn App.handle UserList.handle ChatWindow.handle
  present-Chain time sid addr u nick c h a =
      let p = c.page in
      let q = with_nick env addr u nick p in
      by_app env (at c idle [] (insert time sid nick ∷ []) [] none p) refl refl refl
        (by_list env (at c idle [] [] [] none q) (ground (arith, h, a)) refl refl (stays c q))

  left-Chain :
      (time sid addr : ℕ) (u : User) (c : Client)
      → lookup sid c.page.window.users ≡ some addr
      → lookup addr c.page.actors ≡ some u
      → Chain env 4 (at c idle (from_server (user_left time sid) ∷ []) [] [] none c.page)
  unfolding turn App.handle UserList.handle ChatWindow.handle resume
  left-Chain time sid addr u c h a =
      let p = c.page in
      let gone = UserList.handle_remove env sid p in
      let q = without_user env time sid u.nick p in
      by_app env (at c (removing time sid) [] (remove sid ∷ []) [] none p) refl refl refl (
        by_list env (at c (removing time sid) [] [] [] (some removed) gone) refl refl refl (
          by_app env (at c idle [] [] (WindowMsg.user_left time sid ∷ []) none gone) refl refl refl
            (by_window env (at c idle [] [] [] none q) (ground (arith, h, a)) refl refl
              (stays c q))))

  nick-Chain :
      (time sid addr : ℕ) (u : User) (nick : Text) (c : Client)
      → lookup sid c.page.list.users ≡ some addr
      → lookup addr c.page.actors ≡ some u
      → Chain env 4 (at c idle (from_server (nick_changed time sid nick) ∷ []) [] [] none c.page)
  unfolding turn App.handle UserList.handle ChatWindow.handle resume
  nick-Chain time sid addr u nick c h a =
      let p = c.page in
      let told = with_nick env addr u nick p in
      let q : Page = record told {
        window = ChatWindow.handle_announce_nick time u.nick nick p.window;
      } in
      by_app env (at c (finding time nick) [] (get_user sid ∷ []) [] none p) refl refl refl (
        by_list env (at c (finding time nick) [] [] [] (some (found addr)) p) (ground (arith, h))
          refl refl
          (by_app env (at c idle [] [] (WindowMsg.announce_nick time u.nick nick ∷ []) none told)
            (ground (arith, a)) refl refl
            (by_window env (at c idle [] [] [] none q) refl refl refl (stays c q))))

  handled :
      {ros : Roster} (msg : ServerMsg) (c : Client)
      → Shows ros c.page
      → Fits ros msg
      → Chain env 4 (at c idle (from_server msg ∷ []) [] [] none c.page)
  handled (chat_msg time sid txt) c s (nick, known) =
      let v = s.present sid nick known in chat-Chain time sid v.addr v.user txt c v.known v.here
  handled {ros} (user_joined time nick sid) c s f = elim (Option-cases (ros sid)) [
    | inl out ↦ absent-Chain time sid nick c (s.absent sid out).0
    | inr (old, known) ↦
        let v = s.present sid old known in
        present-Chain time sid v.addr v.user nick c v.listed v.here
  ]
  handled (user_left time sid) c s (nick, known) =
      let v = s.present sid nick known in left-Chain time sid v.addr v.user c v.known v.here
  handled (nick_changed time sid nick) c s (old, known) =
      let v = s.present sid old known in nick-Chain time sid v.addr v.user nick c v.listed v.here

  -- One message of the server that fits the roster, with the three actors of a client with nothing
  -- to do taking turns in any order and then four times each: no turn panics, and the client ends
  -- with nothing to do, showing the roster after the message.
  pub settles-InSync :
      {ros : Roster} {c : Client} (msg : ServerMsg) (ts : List Turn)
      → InSync ros c
      → Fits ros msg
      → IsInner ts
      → (c' : Client) × (run env (arrives (from_server msg) ∷ ts ++ rounds 4) c ≡ done c')
        × InSync (after msg ros) c'
  unfolding turn run after_turns
  settles-InSync {ros} {c} msg ts v f i =
      let there : Client = record (rest c) { app_box = from_server msg ∷ [] } in
      let (c1, r, h) = runs env ts there i (handled msg c v.shows f) in
      let (c', s, h') = settles env 4 c1 h in
      let ran : run env (arrives (from_server msg) ∷ ts ++ rounds 4) c ≡ done c' =
        ap (run env (arrives (from_server msg) ∷ ts ++ rounds 4)) v.quiet
        ∙ run-append env ts (rounds 4) there c1 r
        ∙ s in
      (
        c',
        ran,
        subst (λ (x : Roster). InSync x c') (inner-after_turns ts (rounds 4) (after msg ros) i)
            (run-InSync env (arrives (from_server msg) ∷ ts ++ rounds 4) c' v
              (inner-FromServer ts (rounds 4) i tt) ran (over env c' h')),
      )
