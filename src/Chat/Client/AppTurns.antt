-- ===== src/Chat/Client/AppTurns.antt =====
-- The turns of the application of the chat client, in the middle of its work.
use thespis_impl_remote.Common.{
  some, ℕ, List, [], ◌∷◌, ◌++◌, none, lookup, lookup-remove, ◌≡◌, ◌⊎◌, inl, inr, refl, sym, ap, ◌∙◌,
  subst, arith, Option-cases,
}
use thespis_impl_remote.Peer.State.{Handled, done}
use thespis_impl_remote.Chat.Format.{
  Text, ServerMsg, chat_msg, user_joined, user_left, nick_changed,
}
use thespis_impl_remote.Chat.Client.User.{user_info}
use thespis_impl_remote.Chat.Client.Page.{
  UserListMsg, insert, remove, get_user, WindowMsg, Page, Env, tell_list, tell_window, tell_user,
}
use thespis_impl_remote.Chat.Client.App
use thespis_impl_remote.Chat.Client.App.{
  AppMsg, from_server, Task, idle, removing, finding, Client, resume,
}
use thespis_impl_remote.Chat.Client.Turns.{app_turn}
use thespis_impl_remote.Chat.Client.Single.{with_nick}
use thespis_impl_remote.Chat.Client.Sync.{Roster, after, Shows}
use thespis_impl_remote.Chat.Client.Showing.{same-Shows, with_nick-Shows}
use thespis_impl_remote.Chat.Client.Schedule.{
  Agrees, Phase, free, asks_remove, has_removed, asks_user, has_found, mirror, WillShow,
}
use thespis_impl_remote.Chat.Client.Boxes.{
  known_after, known_after-chat_msg, known_after-announce_nick, known_after-user_left, OnlyServer,
  after_all, Joined, inserts, inserts-nil, after_joins-nil, after_all-from_server, inserts-append,
  inserts-last, after_joins, after_joins-append, NoWelcome, append-NoWelcome,
}

pub done-inj : {A : Type 0} {a b : A} → done a ≡ done b → a ≡ b
done-inj h = cc

pub List-cases : {A : Type 0} (l : List A) → (l ≡ []) ⊎ ((a : A) × (r : List A) × (l ≡ a ∷ r))
List-cases [] = inl refl
List-cases (a ∷ r) = inr (a, r, refl)

-- The page changes in neither users nor lines.
pub mirrored :
    {ros : Roster} (p q : Page)
    → q.list.users ≡ p.list.users
    → q.actors ≡ p.actors
    → q.next ≡ p.next
    → Shows ros (mirror p)
    → Shows ros (mirror q)
mirrored {ros} p q l a n s = same-Shows ros (mirror p) s (mirror q) l l a n

after-chat_msg :
    (time sid : ℕ) (txt : Text) (ros : Roster) → ros ≡ after (chat_msg time sid txt) ros
unfolding after
after-chat_msg time sid txt ros = refl

module _ (env : Env) where
  -- The application takes a message of the server.
  takes :
      {ros : Roster} (c : Client) (msg : ServerMsg) (box : List AppMsg) (base target : Roster)
      (js : Joined)
      → Shows base (mirror c.page)
      → c.task ≡ idle
      → c.page.answer ≡ none
      → c.page.list_box ≡ inserts js []
      → target ≡ after_joins js base
      → Agrees c.page
      → OnlyServer box
      → NoWelcome c.page.window_box
      → ros ≡ after_all box (after msg target)
      → WillShow ros (App.handle_server_msg msg (record c { app_box = box }))
  unfolding App.handle_server_msg
  takes c (chat_msg time sid txt) box base target js s t a l g w o n r = record {
    base = base;
    target = after (chat_msg time sid txt) target;
    shows = mirrored c.page (tell_window (WindowMsg.chat_msg time sid txt) c.page) refl refl refl s;
    phase = free js t a l (sym (after-chat_msg time sid txt target) ∙ g) (λ k.
        ap (lookup k) (known_after-chat_msg c.page.window_box c.page.window.users time sid txt)
        ∙ w k);
    only = o;
    quiet = append-NoWelcome c.page.window_box (WindowMsg.chat_msg time sid txt) n tt;
    total = r;
  }
  takes c (user_joined time nick sid) box base target js s t a l g w o n r = record {
    base = base;
    target = after (user_joined time nick sid) target;
    shows = mirrored c.page (tell_list (insert time sid nick) c.page) refl refl refl s;
    phase =
        free (js ++ some (time, sid, nick) ∷ []) t a
          (ap (λ (b : List UserListMsg). b ++ insert time sid nick ∷ []) l
            ∙ inserts-append js time sid nick)
          (ap (after (user_joined time nick sid)) g
            ∙ sym (after_joins-append js time sid nick base))
          w;
    only = o;
    quiet = n;
    total = r;
  }
  takes c (user_left time sid) box base target js s t a l g w o n r = record {
    base = base;
    target = after (user_left time sid) target;
    shows = mirrored c.page (tell_list (remove sid) c.page) refl refl refl s;
    phase =
        asks_remove js time sid refl a
          (ap (λ (b : List UserListMsg). b ++ remove sid ∷ []) l ∙ inserts-last js (remove sid))
          (ap (after (user_left time sid)) g) w;
    only = o;
    quiet = n;
    total = r;
  }
  takes c (nick_changed time sid nick) box base target js s t a l g w o n r = record {
    base = base;
    target = after (nick_changed time sid nick) target;
    shows = mirrored c.page (tell_list (get_user sid) c.page) refl refl refl s;
    phase =
        asks_user js time sid nick refl a
          (ap (λ (b : List UserListMsg). b ++ get_user sid ∷ []) l ∙ inserts-last js (get_user sid))
          (ap (after (nick_changed time sid nick)) g) w;
    only = o;
    quiet = n;
    total = r;
  }

  only_first :
      (m : AppMsg) (box : List AppMsg)
      → OnlyServer (m ∷ box)
      → (msg : ServerMsg) × (m ≡ from_server msg) × OnlyServer box
  only_first (from_server msg) box o = (msg, refl, o)
  only_first (App.connected w) box o = absurd o
  only_first (App.new_chat_msg txt) box o = absurd o
  only_first (App.set_nick nick) box o = absurd o
  only_first App.disconnect box o = absurd o

  -- What becomes of the client is known.
  becomes :
      {ros : Roster} {x : Handled Client} (c : Client) {c' : Client}
      → x ≡ done c
      → x ≡ done c'
      → WillShow ros c
      → WillShow ros c'
  becomes {ros} c e h v = subst (WillShow ros) (done-inj (sym e ∙ h)) v

  pub app_keeps :
      {ros : Roster} (c c' : Client) (v : WillShow ros c)
      → Phase c.page c.task v.base v.target
      → app_turn env c ≡ done c'
      → WillShow ros c'
  unfolding app_turn App.handle resume tell_user user_info after
  app_keeps {ros} c c' v (free js t a l g w) h = elim (List-cases c.app_box) [
    | inl empty ↦ becomes c (ground (arith, t, empty)) h v
    | inr (m, box, taken) ↦
        let first = only_first m box (subst OnlyServer taken v.only) in
        let c1 = App.handle_server_msg first.0 (record c { app_box = box }) in
        becomes c1 (ground (arith, t, taken, first.1)) h (
          takes c first.0 box v.base v.target js v.shows t a l g w first.2 v.quiet (
            v.total
            ∙ ap (λ (b : List AppMsg). after_all b v.target) taken
            ∙ after_all-from_server m first.0 box v.target first.1))
  ]
  app_keeps c c' v (asks_remove js time sid t a l g w) h = becomes c (ground (arith, t, a)) h v
  app_keeps c c' v (asks_user js time sid nick t a l g w) h = becomes c (ground (arith, t, a)) h v
  app_keeps c c' v (has_removed time sid t a l g w) h =
      let p : Page = record (c.page) { answer = none } in
      let q = tell_window (WindowMsg.user_left time sid) p in
      becomes (record c { page = q; task = idle }) (ground (arith, t, a)) h
        (record {
          base = v.base;
          target = v.target;
          shows = mirrored c.page q refl refl refl v.shows;
          phase =
              free [] refl refl (l ∙ sym (inserts-nil [])) (g ∙ sym (after_joins-nil v.base)) (λ k.
                ap (lookup k) (known_after-user_left c.page.window_box c.page.window.users time sid)
                ∙ lookup-remove k sid (known_after c.page.window_box c.page.window.users)
                ∙ w k);
          only = v.only;
          quiet = append-NoWelcome c.page.window_box (WindowMsg.user_left time sid) v.quiet tt;
          total = v.total;
        })
  app_keeps c c' v (has_found time sid addr nick t a f l g w) h = elim (Option-cases (v.base sid)) [
    | inl out ↦ absurd (ground (arith, (v.shows.absent sid out).0, f))
    | inr (old, there) ↦
        let u = v.shows.present sid old there in
        let p : Page = record (c.page) { answer = none } in
        let q =
          tell_window (WindowMsg.announce_nick time u.user.nick nick)
            (with_nick env u.addr u.user nick p) in
        let same : addr ≡ u.addr = ground (arith, f, u.listed) in
        becomes (record c { page = q; task = idle }) (ground (arith, t, a, same, u.here)) h
          (record {
            base = after (nick_changed time sid nick) v.base;
            target = v.target;
            shows =
                mirrored (with_nick env u.addr u.user nick (mirror c.page)) q refl refl refl
                  (with_nick-Shows v.base (mirror c.page) v.shows env sid old nick u);
            phase =
                free [] refl refl (l ∙ sym (inserts-nil []))
                  (g ∙ sym (after_joins-nil (after (nick_changed time sid nick) v.base)))
                  (λ k.
                    ap (lookup k) (
                      known_after-announce_nick c.page.window_box c.page.window.users time
                        u.user.nick nick)
                    ∙ w k);
            only = v.only;
            quiet =
                append-NoWelcome c.page.window_box (WindowMsg.announce_nick time u.user.nick nick)
                  v.quiet tt;
            total = v.total;
          })
  ]
