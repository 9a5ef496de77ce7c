-- ===== src/Chat/Client/ListTurns.antt =====
-- The turns of the list of users of the chat client, in the middle of its work.
use thespis_impl_remote.Common.{
  ℕ, List, [], ◌∷◌, none, some, lookup, lookup-insert, lookup-remove, ◌≡◌, inl, inr, refl, sym, ap,
  ◌∙◌, subst, arith, Option-cases,
}
use thespis_impl_remote.Peer.State.{Handled, done}
use thespis_impl_remote.Chat.Format.{Text, user_joined, user_left}
use thespis_impl_remote.Chat.Client.Page.{
  render, ChatWindow, WindowMsg, UserListMsg, insert, remove, get_user, new_user, removed, found,
  Page, Env, tell_window, tell_user,
}
use thespis_impl_remote.Chat.Client.UserList
use thespis_impl_remote.Chat.Client.ChatWindow
use thespis_impl_remote.Chat.Client.App.{Client}
use thespis_impl_remote.Chat.Client.Turns.{list_turn}
use thespis_impl_remote.Chat.Client.Single.{with_user, with_nick, without_user}
use thespis_impl_remote.Chat.Client.Sync.{Roster, after, Shows}
use thespis_impl_remote.Chat.Client.Showing.{
  new_user_users, with_user-Shows, without_user-Shows, same-Shows, with_nick-Shows,
}
use thespis_impl_remote.Chat.Client.Rendering.{render-Redrawn, redrawn-Shows}
use thespis_impl_remote.Chat.Client.AppTurns.{done-inj, mirrored}
use thespis_impl_remote.Chat.Client.Schedule.{
  Agrees, Phase, free, asks_remove, has_removed, asks_user, has_found, mirror, WillShow,
}
use thespis_impl_remote.Chat.Client.Boxes.{
  known_after, known_after-new_user, inserts, after_joins, NoWelcome, append-NoWelcome,
}

module _ (env : Env) where
  -- The page when the list has handled an `Insert`.
  record Inserted (p p' : Page) (ros : Roster) (box : List UserListMsg) : Type 0 where
    handles : list_turn env p ≡ done p'
    shows : Shows ros (mirror p')
    agrees : Agrees p'
    quiet : NoWelcome p'.window_box
    left : p'.list_box ≡ box
    answer : p'.answer ≡ p.answer

  inserted :
      (p : Page) (base : Roster) (time sid : ℕ) (nick : Text) (box : List UserListMsg)
      → Shows base (mirror p)
      → Agrees p
      → NoWelcome p.window_box
      → p.list_box ≡ insert time sid nick ∷ box
      → (p' : Page) × Inserted p p' (after (user_joined time nick sid) base) box
  unfolding list_turn UserList.handle tell_user after
  inserted p base time sid nick box s w n l = elim (Option-cases (base sid)) [
    | inl out ↦
        let absent = (s.absent sid out).0 in
        let rest : Page = record p { list_box = box } in
        let q : Page =
          tell_window (new_user sid nick p.next time)
            (record (with_user env time sid nick rest) { window = p.window }) in
        (
          q,
          record {
            handles = ground (arith, l, absent);
            shows =
                same-Shows (after (user_joined time nick sid) base)
                  (with_user env time sid nick (mirror p))
                  (with_user-Shows base (mirror p) s env time sid nick out) (mirror q) refl
                  (sym (
                    new_user_users sid nick p.next time
                      (record (p.window) { users = p.list.users })))
                  refl refl;
            agrees = λ k.
                ap (lookup k)
                  (known_after-new_user p.window_box p.window.users sid nick p.next time)
                ∙ ground (
                  arith,
                  lookup-insert k sid p.next (known_after p.window_box p.window.users),
                  lookup-insert k sid p.next p.list.users,
                  w k,
                );
            quiet = append-NoWelcome p.window_box (new_user sid nick p.next time) n tt;
            left = refl;
            answer = refl;
          },
        )
    | inr (old, there) ↦
        let u = s.present sid old there in
        let rest : Page = record p { list_box = box } in
        (
          with_nick env u.addr u.user nick rest,
          record {
            handles = ground (arith, l, u.listed, u.here);
            shows =
                mirrored (with_nick env u.addr u.user nick (mirror p))
                  (with_nick env u.addr u.user nick rest) refl refl refl
                  (with_nick-Shows base (mirror p) s env sid old nick u);
            agrees = w;
            quiet = n;
            left = refl;
            answer = refl;
          },
        )
  ]

  -- What becomes of the page is known.
  becomes :
      {ros : Roster} {x : Handled Page} (c : Client) (p : Page) {p' : Page}
      → x ≡ done p
      → x ≡ done p'
      → WillShow ros (record c { page = p })
      → WillShow ros (record c { page = p' })
  becomes {ros} c p e h v =
      subst (λ q. WillShow ros (record c { page = q })) (done-inj (sym e ∙ h)) v

  -- The list has handled an `Insert`, and is elsewhere in its work where it was.
  goes_on :
      {ros : Roster} (c : Client) (p' : Page) (v : WillShow ros c) (time sid : ℕ) (nick : Text)
      (box : List UserListMsg)
      → Agrees c.page
      → c.page.list_box ≡ insert time sid nick ∷ box
      → list_turn env c.page ≡ done p'
      → ((q : Page)
          → q.list_box ≡ box
          → q.answer ≡ c.page.answer
          → Agrees q
          → Phase q c.task (after (user_joined time nick sid) v.base) v.target)
      → WillShow ros (record c { page = p' })
  goes_on c p' v time sid nick box w l h phase =
      let (q, i) = inserted c.page v.base time sid nick box v.shows w v.quiet l in
      becomes c q i.handles h (record {
        base = after (user_joined time nick sid) v.base;
        target = v.target;
        shows = i.shows;
        phase = phase q i.left i.answer i.agrees;
        only = v.only;
        quiet = i.quiet;
        total = v.total;
      })

  render_turn :
      (p : Page) (box : List UserListMsg)
      → p.list_box ≡ render ∷ box
      → list_turn env p ≡ UserList.handle_render env (record p { list_box = box })
  unfolding list_turn UserList.handle
  render_turn p box l = ground (arith, l)

  -- The list has shown itself again.
  redraws :
      {ros : Roster} (c : Client) (p' : Page) (v : WillShow ros c) (box : List UserListMsg)
      → Agrees c.page
      → c.page.list_box ≡ render ∷ box
      → list_turn env c.page ≡ done p'
      → (p'.list_box ≡ box
          → p'.answer ≡ c.page.answer
          → Agrees p'
          → Phase p' c.task v.base v.target)
      → WillShow ros (record c { page = p' })
  redraws c p' v box w l h phase =
      let r =
        render-Redrawn env (record (c.page) { list_box = box }) p'
          (sym (render_turn c.page box l) ∙ h) in
      record {
        base = v.base;
        target = v.target;
        shows =
            redrawn-Shows v.base (mirror c.page) (mirror p') v.shows r.users r.users r.next
              r.remains;
        phase = phase r.list_box r.answer (λ k.
            ap (λ (b : List WindowMsg). lookup k (known_after b p'.window.users)) r.window_box
            ∙ ap (λ (x : ChatWindow). lookup k (known_after c.page.window_box x.users)) r.window
            ∙ w k
            ∙ sym (ap (lookup k) r.users));
        only = v.only;
        quiet = subst NoWelcome (sym r.window_box) v.quiet;
        total = v.total;
      }

  pub list_keeps :
      {ros : Roster} (c : Client) (p' : Page) (v : WillShow ros c)
      → Phase c.page c.task v.base v.target
      → list_turn env c.page ≡ done p'
      → WillShow ros (record c { page = p' })
  unfolding list_turn UserList.handle inserts after_joins ChatWindow.append_line
  list_keeps c p' v (free [] t a l g w) h = becomes c c.page (ground (arith, l)) h v
  list_keeps c p' v (free (some (time, sid, nick) ∷ js) t a l g w) h =
      goes_on c p' v time sid nick (inserts js []) w l h (λ q lq aq wq. free js t (aq ∙ a) lq g wq)
  list_keeps c p' v (free (none ∷ js) t a l g w) h =
      redraws c p' v (inserts js []) w l h (λ lq aq wq. free js t (aq ∙ a) lq g wq)
  list_keeps c p' v (asks_remove (none ∷ js) time sid t a l g w) h =
      redraws c p' v (inserts js (remove sid ∷ [])) w l h
        (λ lq aq wq. asks_remove js time sid t (aq ∙ a) lq g wq)
  list_keeps c p' v (asks_user (none ∷ js) time sid nick t a l g w) h =
      redraws c p' v (inserts js (get_user sid ∷ [])) w l h
        (λ lq aq wq. asks_user js time sid nick t (aq ∙ a) lq g wq)
  list_keeps c p' v (asks_remove [] time sid t a l g w) h =
      let rest : Page = record (c.page) { list_box = [] } in
      let q : Page = record (UserList.handle_remove env sid rest) { answer = some removed } in
      becomes c q (ground (arith, l)) h (record {
        base = after (user_left time sid) v.base;
        target = v.target;
        shows =
            same-Shows (after (user_left time sid) v.base)
              (without_user env time sid [] (mirror c.page))
              (without_user-Shows v.base (mirror c.page) v.shows env time sid []) (mirror q) refl
              refl refl refl;
        phase =
            has_removed time sid t refl refl g
              (λ k. ground (arith, lookup-remove k sid c.page.list.users, w k));
        only = v.only;
        quiet = v.quiet;
        total = v.total;
      })
  list_keeps c p' v (asks_remove (some (t0, s0, n0) ∷ js) time sid t a l g w) h =
      goes_on c p' v t0 s0 n0 (inserts js (remove sid ∷ [])) w l h
        (λ q lq aq wq. asks_remove js time sid t (aq ∙ a) lq g wq)
  list_keeps c p' v (asks_user [] time sid nick t a l g w) h =
      elim (Option-cases (lookup sid c.page.list.users)) [
        | inl absent ↦ absurd (ground (arith, l, absent, h))
        | inr (addr, there) ↦
            let q : Page = record (c.page) { list_box = []; answer = some (found addr) } in
            becomes c q (ground (arith, l, there)) h (record {
              base = v.base;
              target = v.target;
              shows = mirrored c.page q refl refl refl v.shows;
              phase = has_found time sid addr nick t refl there refl g w;
              only = v.only;
              quiet = v.quiet;
              total = v.total;
            })
      ]
  list_keeps c p' v (asks_user (some (t0, s0, n0) ∷ js) time sid nick t a l g w) h =
      goes_on c p' v t0 s0 n0 (inserts js (get_user sid ∷ [])) w l h
        (λ q lq aq wq. asks_user js time sid nick t (aq ∙ a) lq g wq)
  list_keeps c p' v (has_removed time sid t a l g w) h = becomes c c.page (ground (arith, l)) h v
  list_keeps c p' v (has_found time sid addr nick t a f l g w) h =
      becomes c c.page (ground (arith, l)) h v
