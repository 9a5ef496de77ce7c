-- ===== src/Chat/Client/AnyOrder.antt =====
-- The chat client over every order in which its actors take turns while the server's messages come.
use thespis_impl_remote.Common.{
  List, [], ◌∷◌, lookup, ◌≡◌, inl, inr, refl, sym, ap, ◌∙◌, subst, arith,
}
use thespis_impl_remote.Peer.State.{Handled, done, ◌>>=◌, Handled-cases}
use thespis_impl_remote.Chat.Client.Page.{Page, Env, Answer, renamed, lost}
use thespis_impl_remote.Chat.Client.App
use thespis_impl_remote.Chat.Client.App.{AppMsg, from_server, Task, idle, renaming, Client}
use thespis_impl_remote.Chat.Client.Turns.{
  Turn, app, list, window, arrives, answers, drops, peer_ends, list_turn, window_turn, turn,
  server_answers, run,
}
use thespis_impl_remote.Chat.Client.Single.{rest}
use thespis_impl_remote.Chat.Client.Sync.{Roster, after, Shows, InSync}
use thespis_impl_remote.Chat.Client.Showing.{same-Shows_at, known_listed}
use thespis_impl_remote.Chat.Client.Schedule.{
  Agrees, Phase, free, asks_remove, has_removed, asks_user, has_found, mirror, WillShow,
}
use thespis_impl_remote.Chat.Client.Boxes.{
  known_after, after_all, after_all-append, inserts, after_joins, inserts-nil, after_joins-nil,
}
use thespis_impl_remote.Chat.Client.AppTurns.{done-inj, app_keeps}
use thespis_impl_remote.Chat.Client.ListTurns.{list_keeps}
use thespis_impl_remote.Chat.Client.WindowTurns.{window_keeps}

-- All that comes from outside are messages of the server.
abbrev pub FromServer : List Turn → Type 0
FromServer [] = Unit {0}
FromServer (arrives (from_server msg) ∷ ts) = FromServer ts
FromServer (arrives (App.connected w) ∷ ts) = ⊥
FromServer (arrives (App.new_chat_msg txt) ∷ ts) = ⊥
FromServer (arrives (App.set_nick nick) ∷ ts) = ⊥
FromServer (arrives App.disconnect ∷ ts) = ⊥
FromServer (app ∷ ts) = FromServer ts
FromServer (list ∷ ts) = FromServer ts
FromServer (window ∷ ts) = FromServer ts
FromServer (answers ∷ ts) = FromServer ts
FromServer (drops ∷ ts) = FromServer ts
FromServer (peer_ends ∷ ts) = FromServer ts

-- The roster after all that has arrived.
unfoldable pub after_turns : List Turn → Roster → Roster
after_turns [] ros = ros
after_turns (arrives (from_server msg) ∷ ts) ros = after_turns ts (after msg ros)
after_turns (arrives (App.connected w) ∷ ts) ros = after_turns ts ros
after_turns (arrives (App.new_chat_msg txt) ∷ ts) ros = after_turns ts ros
after_turns (arrives (App.set_nick nick) ∷ ts) ros = after_turns ts ros
after_turns (arrives App.disconnect ∷ ts) ros = after_turns ts ros
after_turns (app ∷ ts) ros = after_turns ts ros
after_turns (list ∷ ts) ros = after_turns ts ros
after_turns (window ∷ ts) ros = after_turns ts ros
after_turns (answers ∷ ts) ros = after_turns ts ros
after_turns (drops ∷ ts) ros = after_turns ts ros
after_turns (peer_ends ∷ ts) ros = after_turns ts ros

module _ (env : Env) where
  -- A turn of the list or the window.
  pub on_page :
      {ros : Roster} (c c' : Client) (x : Handled Page)
      → ((p' : Page) → x ≡ done p' → WillShow ros (record c { page = p' }))
      → (x >>= λ p. done (record c { page = p })) ≡ done c'
      → WillShow ros c'
  on_page {ros} c c' x keeps h = elim (Handled-cases x) [
    | inl dead ↦ absurd (ground (arith, dead, h))
    | inr (p', handled) ↦
        let e : record c { page = p' } ≡ c' = ground (arith, handled, h) in
        subst (WillShow ros) e (keeps p' handled)
  ]

  -- The application waits for no answer of the server.
  pub unasked :
      {base target : Roster} (c : Client) (a : Answer)
      → Phase c.page c.task base target
      → server_answers env a c ≡ c
  unasked c a (free js t n l g w) = ground (arith, t)
  unasked c a (asks_remove js time sid t n l g w) = ground (arith, t)
  unasked c a (has_removed time sid t n l g w) = ground (arith, t)
  unasked c a (asks_user js time sid nick t n l g w) = ground (arith, t)
  unasked c a (has_found time sid addr nick t n f l g w) = ground (arith, t)

  one :
      {ros : Roster} (t : Turn) (ts : List Turn) (c c' : Client)
      → FromServer (t ∷ ts)
      → WillShow ros c
      → turn env t c ≡ done c'
      → (next : Roster) × WillShow next c'
        × (after_turns (t ∷ ts) ros ≡ after_turns ts next)
        × FromServer ts
  unfolding turn after_turns
  one {ros} app ts c c' f v h = (ros, app_keeps env c c' v v.phase h, refl, f)
  one {ros} list ts c c' f v h = (
    ros,
    on_page c c' (list_turn env c.page) (λ p' e. list_keeps env c p' v v.phase e) h,
    refl,
    f,
  )
  one {ros} window ts c c' f v h = (
    ros,
    on_page c c' (window_turn env c.page) (λ p' e. window_keeps env c p' v v.phase e) h,
    refl,
    f,
  )
  one {ros} (arrives (from_server msg)) ts c c' f v h =
      let more = after_all-append c.app_box msg v.target v.only in
      (
        after msg ros,
        subst (WillShow (after msg ros)) (done-inj h) (record {
          base = v.base;
          target = v.target;
          shows = v.shows;
          phase = v.phase;
          only = more.1;
          quiet = v.quiet;
          total = ap (after msg) v.total ∙ sym more.0;
        }),
        refl,
        f,
      )
  one (arrives (App.connected w)) ts c c' f v h = absurd f
  one (arrives (App.new_chat_msg txt)) ts c c' f v h = absurd f
  one (arrives (App.set_nick nick)) ts c c' f v h = absurd f
  one (arrives App.disconnect) ts c c' f v h = absurd f
  one {ros} answers ts c c' f v h =
      (ros, subst (WillShow ros) (sym (unasked c renamed v.phase) ∙ done-inj h) v, refl, f)
  one {ros} drops ts c c' f v h =
      (ros, subst (WillShow ros) (sym (unasked c lost v.phase) ∙ done-inj h) v, refl, f)
  one {ros} peer_ends ts c c' f v h = (
    ros,
    subst (WillShow ros) (done-inj h) (record {
      base = v.base;
      target = v.target;
      shows = v.shows;
      phase = v.phase;
      only = v.only;
      quiet = v.quiet;
      total = v.total;
    }),
    refl,
    f,
  )

  pub run-WillShow :
      (ts : List Turn) (ros : Roster) (c c' : Client)
      → FromServer ts
      → WillShow ros c
      → run env ts c ≡ done c'
      → WillShow (after_turns ts ros) c'
  unfolding run after_turns
  run-WillShow [] ros c c' f v h = subst (WillShow ros) (done-inj h) v
  run-WillShow (t ∷ ts) ros c c' f v h = elim (Handled-cases (turn env t c)) [
    | inl dead ↦ absurd (ground (arith, dead, h))
    | inr (c1, handled) ↦
        let (next, v1, e, f1) = one t ts c c1 f v handled in
        subst (λ (x : Roster). WillShow x c') (sym e)
          (run-WillShow ts next c1 c' f1 v1 (ground (arith, handled, h)))
  ]

  starts : {ros : Roster} (c : Client) → Shows ros c.page → WillShow ros (rest c)
  unfolding known_after after_all
  starts {ros} c s = record {
    base = ros;
    target = ros;
    shows =
        same-Shows_at ros c.page s (mirror (rest c).page) refl
          (λ k. sym (known_listed ros c.page s k)) refl refl;
    phase =
        free [] refl refl (sym (inserts-nil [])) (sym (after_joins-nil ros))
          (known_listed ros c.page s);
    only = tt;
    quiet = tt;
    total = refl;
  }

  -- A client with nothing to do shows what it was to show.
  rested :
      {base target : Roster} (c : Client)
      → c ≡ rest c
      → Phase c.page c.task base target
      → (target ≡ base) × Agrees c.page
  unfolding inserts after_joins
  rested c e (free [] t n l g w) = (g, w)
  rested c e (free (j ∷ js) t n l g w) = absurd (ground (arith, e, l))
  rested c e (asks_remove js time sid t n l g w) = absurd (ground (arith, e, t))
  rested c e (has_removed time sid t n l g w) = absurd (ground (arith, e, t))
  rested c e (asks_user js time sid nick t n l g w) = absurd (ground (arith, e, t))
  rested c e (has_found time sid addr nick t n f l g w) = absurd (ground (arith, e, t))

  pub rest-InSync : {ros : Roster} (c : Client) → c ≡ rest c → WillShow ros c → InSync ros c
  unfolding known_after after_all
  rest-InSync {ros} c e v =
      let (target, agree) = rested c e v.phase in
      let total : ros ≡ v.base =
        v.total ∙ ap (λ (x : Client). after_all x.app_box v.target) e ∙ target in
      record {
        quiet = e;
        shows =
            subst (λ (x : Roster). Shows x c.page) (sym total)
              (same-Shows_at v.base (mirror c.page) v.shows c.page refl
                (λ k.
                  sym (
                    ap
                      (λ (x : Client). lookup k (known_after x.page.window_box c.page.window.users))
                      e)
                  ∙ agree k)
                refl refl);
      }

  -- Whatever order the actors of the client take turns in while messages of the server arrive: a
  -- client that showed a roster and had nothing to do, and that has not panicked and has nothing to
  -- do again, shows the roster after these messages in the order in which they arrived.
  pub run-InSync :
      {ros : Roster} {c : Client} (ts : List Turn) (c' : Client)
      → InSync ros c
      → FromServer ts
      → run env ts c ≡ done c'
      → c' ≡ rest c'
      → InSync (after_turns ts ros) c'
  run-InSync {ros} {c} ts c' v f h e =
      rest-InSync c' e
        (run-WillShow ts ros c c' f (subst (WillShow ros) (sym v.quiet) (starts c v.shows)) h)
