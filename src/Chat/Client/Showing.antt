-- ===== src/Chat/Client/Showing.antt =====
-- How the pages of the chat client that show a roster hang together: what is said and done to a page
-- that shows one makes it show the next.
use thespis_impl_remote.Common.{
  ℕ, ◌<◌, none, some, arith, lookup, insert, lookup-insert, lookup-insert_self, lookup-remove,
  Bool-cases, ◌==◌, if◌then◌else◌, ◌≡◌, refl, sym, ap, ◌∙◌, inl, inr, Option-cases,
}
use thespis_impl_remote.Chat.Format.{Text, user_joined, user_left}
use thespis_impl_remote.Chat.Client.User
use thespis_impl_remote.Chat.Client.User.{User, change_nick}
use thespis_impl_remote.Chat.Client.Page.{ChatWindow, Page, Env}
use thespis_impl_remote.Chat.Client.ChatWindow
use thespis_impl_remote.Chat.Client.Single.{with_user, with_nick, without_user}
use thespis_impl_remote.Chat.Client.Sync.{Roster, after, IsShown, Shows}

pub new_user_users :
    (sid : ℕ) (nick : Text) (addr time : ℕ) (w : ChatWindow)
    → (ChatWindow.handle_new_user sid nick addr time w).users ≡ insert sid addr w.users
unfolding ChatWindow.handle_new_user
new_user_users sid nick addr time w = ground arith

module _ (ros : Roster) (p : Page) (s : Shows ros p) where
  -- Whoever is listed is in the roster, and has an address that is in use.
  pub listed_shown :
      (k addr : ℕ)
      → lookup k p.list.users ≡ some addr
      → (nick : Text) × (ros k ≡ some nick) × (addr < p.next)
  listed_shown k addr h = elim (Option-cases (ros k)) [
    | inl out ↦ absurd (ground (arith, (s.absent k out).0, h))
    | inr (nick, known) ↦
        let v = s.present k nick known in (nick, known, ground (arith, v.listed, v.older, h))
  ]

  -- A page whose maps are the same.
  pub same-Shows_at :
      (q : Page)
      → q.list.users ≡ p.list.users
      → ((k : ℕ) → lookup k q.window.users ≡ lookup k p.window.users)
      → q.actors ≡ p.actors
      → q.next ≡ p.next
      → Shows ros q
  same-Shows_at q l w a n = record {
    absent = λ k free. (ground (arith, s.absent k free, l), w k ∙ (s.absent k free).1);
    present = λ k nick known.
        let v = s.present k nick known in
        record {
          addr = v.addr;
          user = v.user;
          listed = ap (lookup k) l ∙ v.listed;
          known = w k ∙ v.known;
          here = ap (lookup v.addr) a ∙ v.here;
          named = v.named;
          drawn = v.drawn;
          older = omega (arith, v.older, n);
        };
    apart =
        λ j k addr h i. s.apart j k addr (sym (ap (lookup j) l) ∙ h) (sym (ap (lookup k) l) ∙ i);
  }

  -- A page with other lines and mailboxes.
  pub same-Shows :
      (q : Page)
      → q.list.users ≡ p.list.users
      → q.window.users ≡ p.window.users
      → q.actors ≡ p.actors
      → q.next ≡ p.next
      → Shows ros q
  same-Shows q l w a n = same-Shows_at q l (λ k. ap (lookup k) w) a n

  -- The window knows whom the list knows.
  pub known_listed : (k : ℕ) → lookup k p.window.users ≡ lookup k p.list.users
  known_listed k = elim (Option-cases (ros k)) [
    | inl out ↦ (s.absent k out).1 ∙ sym (s.absent k out).0
    | inr (nick, there) ↦ let v = s.present k nick there in v.known ∙ sym v.listed
  ]

  module _ (env : Env) where
    pub with_user-Shows :
        (time sid : ℕ) (nick : Text)
        → ros sid ≡ none
        → Shows (after (user_joined time nick sid) ros) (with_user env time sid nick p)
    unfolding after User.render User.new
    with_user-Shows time sid nick out = record {
      absent = λ k free. (
        ground (arith, lookup-insert k sid p.next p.list.users, free, s.absent k),
        ground (
          arith,
          new_user_users sid nick p.next time p.window,
          lookup-insert k sid p.next p.window.users,
          free,
          s.absent k,
        ),
      );
      present = λ k n known. elim (Bool-cases (k == sid)) [
        | inl same ↦ record {
          addr = p.next;
          user = User.render env.printer (User.new (env.random p.next) sid nick);
          listed = ground (arith, lookup-insert k sid p.next p.list.users, same);
          known = ground (
            arith,
            new_user_users sid nick p.next time p.window,
            lookup-insert k sid p.next p.window.users,
            same,
          );
          here = lookup-insert_self p.next _ p.actors;
          named = ground (arith, same, known);
          drawn = (ground (arith, same, known), refl);
          older = omega arith;
        }
        | inr other ↦
            let v = s.present k n (ground (arith, other, known)) in
            record {
              addr = v.addr;
              user = v.user;
              listed = ground (arith, lookup-insert k sid p.next p.list.users, other, v.listed);
              known = ground (
                arith,
                new_user_users sid nick p.next time p.window,
                lookup-insert k sid p.next p.window.users,
                other,
                v.known,
              );
              here = ground (
                arith,
                lookup-insert v.addr p.next
                    (User.render env.printer (User.new (env.random p.next) sid nick)) p.actors,
                v.here,
                v.older,
              );
              named = v.named;
              drawn = v.drawn;
              older = omega (arith, v.older);
            }
      ];
      apart = λ j k addr h i. ground (
        arith,
        lookup-insert j sid p.next p.list.users,
        lookup-insert k sid p.next p.list.users,
        h,
        i,
        s.apart j k addr,
        λ (r : lookup j p.list.users ≡ some addr). (listed_shown j addr r).2,
        λ (r : lookup k p.list.users ≡ some addr). (listed_shown k addr r).2,
      );
    }

    pub without_user-Shows :
        (time sid : ℕ) (nick : Text)
        → Shows (after (user_left time sid) ros) (without_user env time sid nick p)
    unfolding after ChatWindow.append_line
    without_user-Shows time sid nick = record {
      absent = λ k free. (
        ground (arith, lookup-remove k sid p.list.users, free, s.absent k),
        ground (arith, lookup-remove k sid p.window.users, free, s.absent k),
      );
      present = λ k n known. elim (Bool-cases (k == sid)) [
        | inl same ↦ absurd (ground (arith, same, known))
        | inr other ↦
            let v = s.present k n (ground (arith, other, known)) in
            record {
              addr = v.addr;
              user = v.user;
              listed = ground (arith, lookup-remove k sid p.list.users, other, v.listed);
              known = ground (arith, lookup-remove k sid p.window.users, other, v.known);
              here = v.here;
              named = v.named;
              drawn = v.drawn;
              older = v.older;
            }
      ];
      apart = λ j k addr h i. ground (
        arith,
        lookup-remove j sid p.list.users,
        lookup-remove k sid p.list.users,
        h,
        i,
        s.apart j k addr,
      );
    }

    pub with_nick-Shows :
        (sid : ℕ) (old nick : Text) (v : IsShown p sid old)
        → Shows (λ k. if k == sid then some nick else ros k) (with_nick env v.addr v.user nick p)
    unfolding change_nick User.render
    with_nick-Shows sid old nick v =
        let named = change_nick env.printer nick v.user in
        record {
          absent = λ k free. s.absent k (ground (arith, free));
          present = λ k n known. elim (Bool-cases (k == sid)) [
            | inl same ↦ record {
              addr = v.addr;
              user = named;
              listed = ground (arith, same, v.listed);
              known = ground (arith, same, v.known);
              here = lookup-insert_self v.addr named p.actors;
              named = ground (arith, same, known);
              drawn = (ground (arith, same, known, v.drawn), ground (arith, v.drawn));
              older = v.older;
            }
            | inr other ↦
                let x = s.present k n (ground (arith, other, known)) in
                record {
                  addr = x.addr;
                  user = x.user;
                  listed = x.listed;
                  known = x.known;
                  here = ground (
                    arith,
                    lookup-insert x.addr v.addr named p.actors,
                    x.here,
                    other,
                    x.listed,
                    v.listed,
                    s.apart k sid x.addr,
                  );
                  named = x.named;
                  drawn = x.drawn;
                  older = x.older;
                }
          ];
          apart = s.apart;
        }
