-- ===== src/Chat/Entering.antt =====
-- A client that joins the room of the chat server, from its `Join` to the page that shows the users.
use thespis_impl_remote.Common.{
  ℕ, Bool, insert, lookup-insert_self, List, [], ◌∷◌, none, some, arith, Map, lookup, ◌≡◌, refl, ap,
  ◌∙◌, subst, ok, inl, inr,
}
use mathlib.Core.Path.{fun_ext}
use thespis_impl_remote.Peer.State.{done}
use thespis_impl_remote.Chat.Format.{Text, Welcome, user_joined}
use thespis_impl_remote.Chat.Server
use thespis_impl_remote.Chat.Server.{Server, UserData, user_list}
use thespis_impl_remote.Chat.User.{User, handle_join}
use thespis_impl_remote.Chat.Nicks.{IsTidy}
use thespis_impl_remote.Chat.Room.{Room, Reach, goes_on, joins}
use thespis_impl_remote.Chat.Keeping.{join_effect}
use thespis_impl_remote.Chat.Safety.{Reach-Inv}
use thespis_impl_remote.Chat.News.{roster}
use thespis_impl_remote.Chat.Client.Page
use thespis_impl_remote.Chat.Client.App.{Client, connected}
use thespis_impl_remote.Chat.Client.Turns.{Turn, arrives, run}
use thespis_impl_remote.Chat.Client.Single.{rest}
use thespis_impl_remote.Chat.Client.Sync.{Roster, after, InSync}
use thespis_impl_remote.Chat.Client.AnyOrder.{FromServer, after_turns}
use thespis_impl_remote.Chat.Client.Connecting.{listed, connects-InSync}

-- The welcome lists each user once, by its id.
listed-user_list :
    (is_match : Text → Bool) (m : Map UserData) (ros : Roster) (k : ℕ)
    → IsTidy is_match m
    → listed (user_list m) ros k ≡ (elim (lookup k m) [ none ↦ ros k | some ud ↦ some ud.nick ])
unfolding listed user_list IsTidy after lookup
listed-user_list is_match [] ros k t = refl
listed-user_list is_match ((sid, ud) ∷ m) ros k t =
    ground (
      arith,
      t.0,
      t.1,
      listed-user_list is_match m (after (user_joined 0 ud.nick ud.addr) ros) k t.4,
    )

module _ (env : Server.Env) (client_env : Page.Env) where
  -- The welcome is that of the users, of which the one that joined is one.
  welcome_lists :
      {r : Room} (id time : ℕ) (u u' : User) (s' : Server) (nick : Text) (w : Welcome)
      → Reach env.is_match r
      → lookup id r.users ≡ some u
      → handle_join env time u r.server nick ≡ done (u', s', ok w)
      → (listed w.users (λ k. none) ≡ roster s') × (roster s' id ≡ some nick)
  unfolding roster
  welcome_lists {r} id time u u' s' nick w reached there h =
      let v = Reach-Inv env.is_match reached in
      let after_join : Reach env.is_match (record { users = insert id u' r.users; server = s' }) =
        goes_on env.is_alive reached (joins id time u u' s' nick (ok w) there h) in
      let tidy = (Reach-Inv env.is_match after_join).tidy in
      elim (join_effect env time id u u' r.server s' nick (ok w) (v.stands id u there) h).2 [
        | inl ((e, refused), same) ↦ absurd (ground (arith, refused))
        | inr (peer, answer, now, free, valid, fresh) ↦
            let users : w.users ≡ user_list s'.users = ground (arith, answer, ap user_list now) in
            let ud : UserData = record { nick = nick; addr = id; peer_addr = peer } in
            (
              fun_ext (λ k.
                  ap (λ (l : List (ℕ × Text)). listed l (λ j. none) k) users
                  ∙ listed-user_list env.is_match s'.users (λ j. none) k tidy),
              ground (arith, ap (lookup id) now, lookup-insert_self id ud r.server.users),
            )
      ]

  -- Whatever clients did before, the server lets a client join, whose window knows nobody and that
  -- has nothing to do. The answer to the join is the first message of the server that arrives. From
  -- there on messages of the server arrive and the actors of the client take turns in any order. If
  -- the client has then not panicked and has nothing to do again, it shows the users of the room,
  -- itself among them, as they are after these messages.
  pub join-InSync :
      {r : Room} (id time : ℕ) (u u' : User) (s' : Server) (nick : Text) (w : Welcome)
      (c c' : Client) (ts : List Turn)
      → Reach env.is_match r
      → lookup id r.users ≡ some u
      → handle_join env time u r.server nick ≡ done (u', s', ok w)
      → c ≡ rest c
      → c.page.window.users ≡ []
      → FromServer ts
      → run client_env (arrives (connected w) ∷ ts) c ≡ done c'
      → c' ≡ rest c'
      → InSync (after_turns ts (roster s')) c' × (roster s' id ≡ some nick)
  join-InSync id time u u' s' nick w c c' ts reached there h quiet nobody f turns e =
      let (lists, member) = welcome_lists id time u u' s' nick w reached there h in
      (
        subst (λ (ros : Roster). InSync (after_turns ts ros) c') lists
            (connects-InSync client_env w c c' ts quiet nobody f turns e),
        member,
      )
