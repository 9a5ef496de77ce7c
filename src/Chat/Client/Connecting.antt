-- ===== src/Chat/Client/Connecting.antt =====
-- `Connected`: the client clears its list, and takes in the users of the welcome.
use thespis_impl_remote.Common.{
  ℕ, List, [], ◌∷◌, ◌++◌, append_assoc, Option, some, none, true, false, lookup, ◌≡◌, refl, ap, ◌∙◌,
  sym, arith, inl, inr, subst,
}
use thespis_impl_remote.Peer.State.{Handled, done, ◌>>=◌, Handled-cases}
use thespis_impl_remote.Chat.Format.{Text, ServerMsg, user_joined, Welcome}
use thespis_impl_remote.Chat.Client.Page.{
  Page, Env, Answer, renamed, lost, cleared, welcomed, UserListMsg, WindowMsg, insert, render,
  clear, codes, tell_list,
}
use thespis_impl_remote.Chat.Client.UserList
use thespis_impl_remote.Chat.Client.ChatWindow
use thespis_impl_remote.Chat.Client.App
use thespis_impl_remote.Chat.Client.App.{
  AppMsg, Task, Client, from_server, connected, idle, clearing, welcoming, insert_all, resume,
}
use thespis_impl_remote.Chat.Client.Turns.{
  Turn, app, list, window, arrives, answers, drops, peer_ends, server_answers, list_turn,
  window_turn, turn, run,
}
use thespis_impl_remote.Chat.Client.Single.{rest}
use thespis_impl_remote.Chat.Client.Sync.{Roster, after, Shows, InSync}
use thespis_impl_remote.Chat.Client.Boxes.{
  Joined, inserts, after_joins, OnlyServer, after_all, after_all-append, known_after,
}
use thespis_impl_remote.Chat.Client.Schedule.{
  Phase, WillShow, free, asks_remove, has_removed, asks_user, has_found, mirror,
}
use thespis_impl_remote.Chat.Client.AppTurns.{mirrored, done-inj, app_keeps}
use thespis_impl_remote.Chat.Client.ListTurns.{list_keeps}
use thespis_impl_remote.Chat.Client.WindowTurns.{window_keeps}
use thespis_impl_remote.Chat.Client.Welcoming.{wrap, list_turn-wrap, window_turn-wrap}
use thespis_impl_remote.Chat.Client.AnyOrder.{
  on_page, unasked, FromServer, after_turns, rest-InSync,
}
use thespis_impl_remote.Chat.Client.Progress.{at}

-- The users of a welcome, as the list will be told of them.
unfoldable pub welcomed_users : List (ℕ × Text) → Joined
welcomed_users [] = none ∷ []
welcomed_users ((sid, nick) ∷ users) = some (0, sid, nick) ∷ welcomed_users users

-- The roster of a welcome.
unfoldable pub listed : List (ℕ × Text) → Roster → Roster
listed [] ros = ros
listed ((sid, nick) ∷ users) ros = listed users (after (user_joined 0 nick sid) ros)

after_joins-welcomed_users :
    (users : List (ℕ × Text)) (ros : Roster)
    → after_joins (welcomed_users users) ros ≡ listed users ros
unfolding welcomed_users listed after_joins
after_joins-welcomed_users [] ros = refl
after_joins-welcomed_users ((sid, nick) ∷ users) ros =
    after_joins-welcomed_users users (after (user_joined 0 nick sid) ros)

insert_all_lem :
    (users : List (ℕ × Text)) (p : Page)
    → tell_list render (insert_all users p)
      ≡ record p { list_box = p.list_box ++ inserts (welcomed_users users) [] }
unfolding insert_all welcomed_users inserts
insert_all_lem [] p = refl
insert_all_lem ((sid, nick) ∷ users) p =
    insert_all_lem users (tell_list (insert 0 sid nick) p)
    ∙ ap (λ (b : List UserListMsg). record p { list_box = b })
        (append_assoc p.list_box (insert 0 sid nick ∷ []) (inserts (welcomed_users users) []))

module _ (env : Env) (w : Welcome) where
  -- What waits for the window, and the answer to the application, before and after the window shows
  -- the welcome.
  data Shown : List WindowMsg → Option Answer → Type 0 where
    not_yet : Shown (WindowMsg.welcome w.time (codes w.txt) ∷ []) none
    done_so : Shown [] (some welcomed)

  -- The client of a roster from the welcome in its mailbox to the end of the handler for it.
  data Connects (ros : Roster) : Client → Type 0 where
    arrived :
        (k : Client) (box : List AppMsg)
        → OnlyServer box
        → k.page.window.users ≡ []
        → ros ≡ after_all box (listed w.users (λ j. none))
        → Connects ros (at k idle (connected w ∷ box) [] [] none k.page)
    asked :
        (k : Client) (box : List AppMsg)
        → OnlyServer box
        → k.page.window.users ≡ []
        → ros ≡ after_all box (listed w.users (λ j. none))
        → Connects ros (at k (clearing w) box (clear true ∷ []) [] none k.page)
    emptied :
        (k : Client) (box : List AppMsg)
        → OnlyServer box
        → k.page.window.users ≡ []
        → k.page.list.users ≡ []
        → ros ≡ after_all box (listed w.users (λ j. none))
        → Connects ros (at k (clearing w) box [] [] (some cleared) k.page)
    joining :
        (k : Client) (pre : List WindowMsg) (a : Option Answer)
        → Shown pre a
        → k.task ≡ idle
        → WillShow ros k
        → Connects ros
            (record k { task = welcoming (record w { users = [] }); page = wrap pre a k.page })
    connected_so : {c : Client} → WillShow ros c → Connects ros c

  becomes :
      {ros : Roster} {x : Handled Client} {c c' : Client}
      → Connects ros c
      → x ≡ done c
      → x ≡ done c'
      → Connects ros c'
  becomes {ros} v e h = subst (Connects ros) (done-inj (sym e ∙ h)) v

  blank-Shows : (q : Page) → q.list.users ≡ [] → Shows (λ k. none) (mirror q)
  unfolding lookup
  blank-Shows q e = record {
    absent = λ k free. (ap (lookup k) e, ap (lookup k) e);
    present = λ k nick known. absurd (ground (arith, known));
    apart = λ j k addr h i. absurd (ground (arith, ap (lookup j) e, h));
  }

  -- The list is empty, and is told of the users of the welcome.
  begun-WillShow :
      {ros : Roster} (k : Client) (box : List AppMsg)
      → OnlyServer box
      → k.page.window.users ≡ []
      → k.page.list.users ≡ []
      → ros ≡ after_all box (listed w.users (λ j. none))
      → WillShow ros (at k idle box (inserts (welcomed_users w.users) []) [] none k.page)
  unfolding known_after
  begun-WillShow k box o e l r = record {
    base = λ j. none;
    target = listed w.users (λ j. none);
    shows = blank-Shows (at k idle box (inserts (welcomed_users w.users) []) [] none k.page).page l;
    phase =
        free (welcomed_users w.users) refl refl refl
          (sym (after_joins-welcomed_users w.users (λ j. none)))
          (λ j. ap (lookup j) e ∙ sym (ap (lookup j) l));
    only = o;
    quiet = tt;
    total = r;
  }

  -- An idle application waits for no answer, and the list is told of users alone.
  idle_free :
      {p : Page} {base target : Roster}
      → Phase p idle base target
      → (p.answer ≡ none) × (js : Joined) × (p.list_box ≡ inserts js [])
  idle_free (free js t a l g v) = (a, js, l)
  idle_free (asks_remove js time sid t a l g v) = absurd (ground (arith, t))
  idle_free (has_removed time sid t a l g v) = absurd (ground (arith, t))
  idle_free (asks_user js time sid nick t a l g v) = absurd (ground (arith, t))
  idle_free (has_found time sid addr nick t a f l g v) = absurd (ground (arith, t))

  -- The window has shown the welcome.
  abbrev greeted : Page → Page
  greeted p = record p { window = ChatWindow.handle_welcome w.time (codes w.txt) p.window }

  greeted-Phase :
      {p : Page} {base target : Roster}
      → Phase p idle base target
      → Phase (greeted p) idle base target
  unfolding ChatWindow.handle_welcome ChatWindow.append_line
  greeted-Phase (free js t a l g v) = free js t a l g v
  greeted-Phase (asks_remove js time sid t a l g v) = absurd (ground (arith, t))
  greeted-Phase (has_removed time sid t a l g v) = absurd (ground (arith, t))
  greeted-Phase (asks_user js time sid nick t a l g v) = absurd (ground (arith, t))
  greeted-Phase (has_found time sid addr nick t a f l g v) = absurd (ground (arith, t))

  greeted-WillShow :
      {ros : Roster} (k : Client)
      → k.task ≡ idle
      → WillShow ros k
      → WillShow ros (record k { page = greeted k.page })
  greeted-WillShow k t v = record {
    base = v.base;
    target = v.target;
    shows = mirrored k.page (greeted k.page) refl refl refl v.shows;
    phase =
        subst (λ (x : Task). Phase (greeted k.page) x v.base v.target) (sym t)
          (greeted-Phase (subst (λ (x : Task). Phase k.page x v.base v.target) t v.phase));
    only = v.only;
    quiet = v.quiet;
    total = v.total;
  }

  phase_of :
      {ros : Roster} (k : Client) (v : WillShow ros k)
      → k.task ≡ idle
      → (k.page.answer ≡ none) × (js : Joined) × (k.page.list_box ≡ inserts js [])
  phase_of k v t = idle_free (subst (λ (x : Task). Phase k.page x v.base v.target) t v.phase)

  -- The application waits for the answer of the window.
  abbrev waits_with : Client → Page → Client
  waits_with k p = record k { task = welcoming (record w { users = [] }); page = p }

  app_step :
      {ros : Roster} {c c' : Client} → Connects ros c → turn env app c ≡ done c' → Connects ros c'
  unfolding turn App.handle resume
  app_step (arrived k box o e r) h = becomes (asked k box o e r) refl h
  app_step (asked k box o e r) h = becomes (asked k box o e r) refl h
  app_step (emptied k box o e l r) h =
      let start = at k idle box (inserts (welcomed_users w.users) []) [] none k.page in
      becomes
        (joining start (WindowMsg.welcome w.time (codes w.txt) ∷ []) none not_yet refl
          (begun-WillShow k box o e l r))
        (ground (
          arith,
          insert_all_lem w.users
              (record (k.page) { list_box = []; window_box = []; answer = none }),
        ))
        h
  app_step (joining k pre a not_yet t v) h = becomes (joining k _ _ not_yet t v) refl h
  app_step (joining k pre a done_so t v) h =
      let q : Client = record k { connection = some (record w { users = [] }) } in
      becomes
        (connected_so {c = q} (record {
          base = v.base;
          target = v.target;
          shows = v.shows;
          phase = v.phase;
          only = v.only;
          quiet = v.quiet;
          total = v.total;
        }))
        (ground (arith, t, (phase_of k v t).0)) h
  app_step {c} {c'} (connected_so v) h = connected_so (app_keeps env c c' v v.phase h)

  list_step :
      {ros : Roster} {c c' : Client} → Connects ros c → turn env list c ≡ done c' → Connects ros c'
  unfolding turn UserList.handle
  list_step (arrived k box o e r) h = becomes (arrived k box o e r) refl h
  list_step (asked k box o e r) h =
      let p : Page = UserList.handle_clear env k.page in
      becomes (emptied (record k { page = p }) box o e refl r) refl h
  list_step (emptied k box o e l r) h = becomes (emptied k box o e l r) refl h
  list_step (joining k pre a s t v) h = elim (Handled-cases (list_turn env k.page)) [
    | inl dead ↦ absurd (
        ground
          (arith, list_turn-wrap env pre a (phase_of k v t).1 k.page (phase_of k v t).2, dead, h))
    | inr (p, e) ↦
        becomes (joining (record k { page = p }) _ _ s t (list_keeps env k p v v.phase e))
          (ap (λ (m : Handled Page). m >>= λ x. done (waits_with k x))
            (list_turn-wrap env pre a (phase_of k v t).1 k.page (phase_of k v t).2
              ∙ ap (λ (m : Handled Page). m >>= λ x. done (wrap pre a x)) e))
          h
  ]
  list_step {c = c} {c' = c'} (connected_so v) h =
      connected_so
        (on_page env c c' (list_turn env c.page) (λ p e. list_keeps env c p v v.phase e) h)

  window_step :
      {ros : Roster} {c c' : Client}
      → Connects ros c
      → turn env window c ≡ done c'
      → Connects ros c'
  unfolding turn ChatWindow.handle
  window_step (arrived k box o e r) h = becomes (arrived k box o e r) refl h
  window_step (asked k box o e r) h = becomes (asked k box o e r) refl h
  window_step (emptied k box o e l r) h = becomes (emptied k box o e l r) refl h
  window_step (joining k pre a not_yet t v) h =
      becomes
        (joining (record k { page = greeted k.page }) [] (some welcomed) done_so t
          (greeted-WillShow k t v))
        refl h
  window_step (joining k pre a done_so t v) h = elim (Handled-cases (window_turn env k.page)) [
    | inl dead ↦
        absurd (ground (arith, window_turn-wrap env (some welcomed) k.page v.quiet, dead, h))
    | inr (p, e) ↦
        becomes (joining (record k { page = p }) _ _ done_so t (window_keeps env k p v v.phase e))
          (ap (λ (m : Handled Page). m >>= λ x. done (waits_with k x))
            (window_turn-wrap env (some welcomed) k.page v.quiet
              ∙ ap (λ (m : Handled Page). m >>= λ x. done (wrap [] (some welcomed) x)) e))
          h
  ]
  window_step {c = c} {c' = c'} (connected_so v) h =
      connected_so
        (on_page env c c' (window_turn env c.page) (λ p e. window_keeps env c p v v.phase e) h)

  hears :
      {ros : Roster} (k : Client) (msg : ServerMsg)
      → WillShow ros k
      → WillShow (after msg ros) (record k { app_box = k.app_box ++ from_server msg ∷ [] })
  hears k msg v =
      let more = after_all-append k.app_box msg v.target v.only in
      record {
        base = v.base;
        target = v.target;
        shows = v.shows;
        phase = v.phase;
        only = more.1;
        quiet = v.quiet;
        total = ap (after msg) v.total ∙ sym more.0;
      }

  arrives_step :
      {ros : Roster} {c c' : Client} (msg : ServerMsg)
      → Connects ros c
      → turn env (arrives (from_server msg)) c ≡ done c'
      → Connects (after msg ros) c'
  unfolding turn after_all
  arrives_step msg (arrived k box o e r) h =
      let more = after_all-append box msg (listed w.users (λ j. none)) o in
      becomes (arrived k (box ++ from_server msg ∷ []) more.1 e (ap (after msg) r ∙ sym more.0))
        refl h
  arrives_step msg (asked k box o e r) h =
      let more = after_all-append box msg (listed w.users (λ j. none)) o in
      becomes (asked k (box ++ from_server msg ∷ []) more.1 e (ap (after msg) r ∙ sym more.0)) refl
        h
  arrives_step msg (emptied k box o e l r) h =
      let more = after_all-append box msg (listed w.users (λ j. none)) o in
      becomes (emptied k (box ++ from_server msg ∷ []) more.1 e l (ap (after msg) r ∙ sym more.0))
        refl h
  arrives_step msg (joining k pre a s t v) h =
      becomes
        (joining (record k { app_box = k.app_box ++ from_server msg ∷ [] }) pre a s t
          (hears k msg v))
        refl h
  arrives_step {c = c} msg (connected_so v) h = becomes (connected_so (hears c msg v)) refl h

  -- The application waits for no answer of the server.
  unanswered :
      {ros : Roster} {c : Client} (a : Answer) → Connects ros c → server_answers env a c ≡ c
  unanswered a (arrived k box o e r) = refl
  unanswered a (asked k box o e r) = refl
  unanswered a (emptied k box o e l r) = refl
  unanswered a (joining k pre b s t v) = refl
  unanswered {c = c} a (connected_so v) = unasked env c a v.phase

  ends_step :
      {ros : Roster} {c : Client} → Connects ros c → Connects ros (record c { is_alive = false })
  ends_step (arrived k box o e r) = arrived (record k { is_alive = false }) box o e r
  ends_step (asked k box o e r) = asked (record k { is_alive = false }) box o e r
  ends_step (emptied k box o e l r) = emptied (record k { is_alive = false }) box o e l r
  ends_step (joining k pre a s t v) =
      joining (record k { is_alive = false }) pre a s t
        (record {
          base = v.base;
          target = v.target;
          shows = v.shows;
          phase = v.phase;
          only = v.only;
          quiet = v.quiet;
          total = v.total;
        })
  ends_step (connected_so v) = connected_so (record {
    base = v.base;
    target = v.target;
    shows = v.shows;
    phase = v.phase;
    only = v.only;
    quiet = v.quiet;
    total = v.total;
  })

  -- What a turn leads to.
  record Next (t : Turn) (ts : List Turn) (ros : Roster) (c' : Client) : Type 0 where
    roster : Roster
    connects : Connects roster c'
    same : after_turns (t ∷ ts) ros ≡ after_turns ts roster
    more : FromServer ts

  step :
      {ros : Roster} {c : Client} (t : Turn) (ts : List Turn) (c' : Client)
      → FromServer (t ∷ ts)
      → Connects ros c
      → turn env t c ≡ done c'
      → Next t ts ros c'
  unfolding after_turns turn
  step app ts c' f v e = record { roster = _; connects = app_step v e; same = refl; more = f }
  step list ts c' f v e = record { roster = _; connects = list_step v e; same = refl; more = f }
  step window ts c' f v e = record { roster = _; connects = window_step v e; same = refl; more = f }
  step (arrives (from_server msg)) ts c' f v e = record {
    roster = _;
    connects = arrives_step msg v e;
    same = refl;
    more = f;
  }
  step (arrives (connected x)) ts c' f v e = absurd f
  step (arrives (App.new_chat_msg txt)) ts c' f v e = absurd f
  step (arrives (App.set_nick nick)) ts c' f v e = absurd f
  step (arrives App.disconnect) ts c' f v e = absurd f
  step answers ts c' f v e = record {
    roster = _;
    connects = becomes v (ap done (unanswered renamed v)) e;
    same = refl;
    more = f;
  }
  step drops ts c' f v e = record {
    roster = _;
    connects = becomes v (ap done (unanswered lost v)) e;
    same = refl;
    more = f;
  }
  step peer_ends ts c' f v e = record {
    roster = _;
    connects = becomes (ends_step v) refl e;
    same = refl;
    more = f;
  }

  run-Connects :
      (ts : List Turn) (ros : Roster) (c c' : Client)
      → FromServer ts
      → Connects ros c
      → run env ts c ≡ done c'
      → Connects (after_turns ts ros) c'
  unfolding run after_turns
  run-Connects [] ros c c' f v h = subst (Connects ros) (done-inj h) v
  run-Connects (t ∷ ts) ros c c' f v h = elim (Handled-cases (turn env t c)) [
    | inl dead ↦ absurd (ground (arith, dead, h))
    | inr (c1, handled) ↦
        let n = step t ts c1 f v handled in
        subst (λ (x : Roster). Connects x c') (sym n.same)
          (run-Connects ts n.roster c1 c' n.more n.connects (ground (arith, handled, h)))
  ]

  -- A client with nothing to do is connected.
  rest-Connects : {ros : Roster} {c : Client} → c ≡ rest c → Connects ros c → WillShow ros c
  rest-Connects e (arrived k box o u r) = absurd (ground (arith, ap (λ (x : Client). x.app_box) e))
  rest-Connects e (asked k box o u r) = absurd (ground (arith, ap (λ (x : Client). x.task) e))
  rest-Connects e (emptied k box o u l r) = absurd (ground (arith, ap (λ (x : Client). x.task) e))
  rest-Connects e (joining k pre a s t v) = absurd (ground (arith, ap (λ (x : Client). x.task) e))
  rest-Connects e (connected_so v) = v

  -- A client with nothing to do, whose window knows nobody, is handed a welcome by its form; then,
  -- whatever order its actors take turns in while messages of the server arrive, if it has not
  -- panicked and has nothing to do again, it shows the users of the welcome as they are after these
  -- messages.
  pub connects-InSync :
      (c c' : Client) (ts : List Turn)
      → c ≡ rest c
      → c.page.window.users ≡ []
      → FromServer ts
      → run env (arrives (connected w) ∷ ts) c ≡ done c'
      → c' ≡ rest c'
      → InSync (after_turns ts (listed w.users (λ k. none))) c'
  unfolding run turn after_all
  connects-InSync c c' ts quiet nobody f h e =
      let later : run env ts (at c idle (connected w ∷ []) [] [] none c.page) ≡ done c' =
        sym (ap (run env (arrives (connected w) ∷ ts)) quiet) ∙ h in
      rest-InSync env c' e (
        rest-Connects e
          (run-Connects ts (listed w.users (λ k. none)) _ c' f (arrived c [] tt nobody refl) later))
