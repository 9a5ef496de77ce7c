-- ===== src/Chat/Client/Rendering.antt =====
-- `Render`: the users are drawn again, and remain who they are.
use thespis_impl_remote.Common.{
  ℕ, true, [], ◌∷◌, some, Map, lookup, insert, lookup-insert, ◌==◌, ◌≡◌, refl, ap, ◌∙◌, sym, arith,
  inl, inr, Option-cases, Bool-cases,
}
use thespis_impl_remote.Peer.State.{done, Handled-cases}
use thespis_impl_remote.Chat.Client.User
use thespis_impl_remote.Chat.Client.User.{User}
use thespis_impl_remote.Chat.Client.Page.{Page, Env, tell_user}
use thespis_impl_remote.Chat.Client.UserList.{render_each, handle_render}
use thespis_impl_remote.Chat.Client.Sync.{Roster, Shows}

-- A user whose nickname is the same, and drawn if it was.
pub record Remains (u v : User) : Type 0 where
  pub nick : v.nick ≡ u.nick
  pub text : u.p.inner_text ≡ u.nick → v.p.inner_text ≡ v.nick
  pub indom : u.indom ≡ true → v.indom ≡ true

pub record Redrawn (p q : Page) : Type 0 where
  pub users : q.list.users ≡ p.list.users
  pub window : q.window ≡ p.window
  pub next : q.next ≡ p.next
  pub list_box : q.list_box ≡ p.list_box
  pub window_box : q.window_box ≡ p.window_box
  pub answer : q.answer ≡ p.answer
  pub remains :
      (addr : ℕ) (u : User)
      → lookup addr p.actors ≡ some u
      → (v : User) × (lookup addr q.actors ≡ some v) × Remains u v

module _ (env : Env) where
  drawn_one :
      (p : Page) (at : ℕ) (w : User) (addr : ℕ) (u : User)
      → lookup at p.actors ≡ some w
      → lookup addr p.actors ≡ some u
      → (v : User) × (lookup addr (insert at (User.render env.printer w) p.actors) ≡ some v)
        × Remains u v
  unfolding User.render
  drawn_one p at w addr u here there = elim (Bool-cases (addr == at)) [
    | inl same ↦ (
      User.render env.printer w,
      ground (arith, lookup-insert addr at (User.render env.printer w) p.actors, same),
      record { nick = ground (arith, same, here, there); text = λ h. refl; indom = λ h. refl },
    )
    | inr other ↦ (
      u,
      ground (arith, lookup-insert addr at (User.render env.printer w) p.actors, other, there),
      record { nick = refl; text = λ h. h; indom = λ h. h },
    )
  ]

  render_each-Redrawn :
      (users : Map ℕ) (p q : Page) → render_each env users p ≡ done q → Redrawn p q
  unfolding render_each tell_user
  render_each-Redrawn [] p q h = record {
    users = ground (arith, h);
    window = ground (arith, h);
    next = ground (arith, h);
    list_box = ground (arith, h);
    window_box = ground (arith, h);
    answer = ground (arith, h);
    remains = λ addr u there.
        (u, ground (arith, h, there), record { nick = refl; text = λ t. t; indom = λ i. i });
  }
  render_each-Redrawn ((sid, at) ∷ users) p q h = elim (Option-cases (lookup at p.actors)) [
    | inl lost ↦ absurd (ground (arith, lost, h))
    | inr (w, here) ↦
        let p1 : Page = record p { actors = insert at (User.render env.printer w) p.actors } in
        let rest = render_each-Redrawn users p1 q (ground (arith, here, h)) in
        record {
          users = rest.users;
          window = rest.window;
          next = rest.next;
          list_box = rest.list_box;
          window_box = rest.window_box;
          answer = rest.answer;
          remains = λ addr u there.
              let (v, at_v, r) = drawn_one p at w addr u here there in
              let (x, at_x, r') = rest.remains addr v at_v in
              (
                x,
                at_x,
                record {
                  nick = r'.nick ∙ r.nick;
                  text = λ t. r'.text (r.text t);
                  indom = λ i. r'.indom (r.indom i);
                },
              );
        }
  ]

  pub render-Redrawn : (p q : Page) → handle_render env p ≡ done q → Redrawn p q
  unfolding handle_render
  render-Redrawn p q h = elim (Handled-cases (render_each env p.list.users p)) [
    | inl dead ↦ absurd (ground (arith, dead, h))
    | inr (r, each) ↦
        let d = render_each-Redrawn p.list.users p r each in
        record {
          users = ground (arith, each, h, d.users);
          window = ground (arith, each, h, d.window);
          next = ground (arith, each, h, d.next);
          list_box = ground (arith, each, h, d.list_box);
          window_box = ground (arith, each, h, d.window_box);
          answer = ground (arith, each, h, d.answer);
          remains = λ addr u there.
              let (v, at_v, k) = d.remains addr u there in (v, ground (arith, each, h, at_v), k);
        }
  ]

-- Pages with the same maps, whose users are drawn again.
pub redrawn-Shows :
    (ros : Roster) (p q : Page)
    → Shows ros p
    → q.list.users ≡ p.list.users
    → q.window.users ≡ p.window.users
    → q.next ≡ p.next
    → ((addr : ℕ) (u : User)
        → lookup addr p.actors ≡ some u
        → (v : User) × (lookup addr q.actors ≡ some v) × Remains u v)
    → Shows ros q
redrawn-Shows ros p q s l w n remains = record {
  absent = λ k free. (ap (lookup k) l ∙ (s.absent k free).0, ap (lookup k) w ∙ (s.absent k free).1);
  present = λ k nick known.
      let x = s.present k nick known in
      let (v, at_v, r) = remains x.addr x.user x.here in
      record {
        addr = x.addr;
        user = v;
        listed = ap (lookup k) l ∙ x.listed;
        known = ap (lookup k) w ∙ x.known;
        here = at_v;
        named = r.nick ∙ x.named;
        drawn = (r.text (x.drawn.0 ∙ sym x.named) ∙ r.nick ∙ x.named, r.indom x.drawn.1);
        older = omega (arith, x.older, n);
      };
  apart = λ j k addr h i. s.apart j k addr (sym (ap (lookup j) l) ∙ h) (sym (ap (lookup k) l) ∙ i);
}
