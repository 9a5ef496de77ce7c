-- ===== src/Chat/Strays.antt =====
-- Where the chat server and a client of the room do not agree: messages about clients that never
-- joined, and the client's own nickname.
use thespis_impl_remote.Common.{
  ℕ, true, [], refl, subst, ◌∷◌, none, some, arith, lookup, remove, lookup-insert_self,
  lookup-remove, ◌≡◌, ◌≢◌, ap, ◌∙◌, inl, inr, ok,
}
use thespis_impl_remote.Peer.State.{done, panics}
use thespis_impl_remote.Chat.Format.{
  Text, Welcome, text_eq, text_eq_refl, user_left, chat_msg, nick_changed,
}
use thespis_impl_remote.Chat.Server
use thespis_impl_remote.Chat.Server.{
  Server, UserData, broadcast, handle_connection_closed, handle_chat_msg_in, handle_change_nick,
}
use thespis_impl_remote.Chat.Nicks.{remove-IsTidy}
use thespis_impl_remote.Chat.Room.{Room, Reach}
use thespis_impl_remote.Chat.Safety.{Reach-Inv}
use thespis_impl_remote.Chat.Sole.{Sole, standing-Sole, standing_none, Sole-remove}
use thespis_impl_remote.Chat.News.{roster}
use thespis_impl_remote.Chat.Told.{inbox, inbox-broadcast, inbox-broadcast_none, change_told}
use thespis_impl_remote.Chat.Client.Page
use thespis_impl_remote.Chat.Client.Page.{Page}
use thespis_impl_remote.Chat.Client.App
use thespis_impl_remote.Chat.Client.App.{Client, set_nick, named, resume}
use thespis_impl_remote.Chat.Client.Turns.{deliver, run, arrives, app, answers}
use thespis_impl_remote.Chat.Client.Single.{rest}
use thespis_impl_remote.Chat.Client.Sync.{InSync, IsShown}
use thespis_impl_remote.Chat.Client.Follow.{deliver-panics_iff}

module _ (client_env : Page.Env) (env : Server.Env) (p k : ℕ) where
  -- When the server learns that a connection has ended whose client never joined, it hands every
  -- member's peer a message, and a member's client that shows the users of the room panics on it.
  pub leave-panics :
      {q : Room} (c : Client) (time id : ℕ) (s' : Server)
      → Reach env.is_match q
      → Sole p k q.server.users
      → InSync (roster q.server) c
      → lookup id q.server.users ≡ none
      → handle_connection_closed env time q.server id ≡ done s'
      → (inbox p s'.handed ≡ user_left time id ∷ inbox p q.server.handed)
        × (deliver client_env (user_left time id) c ≡ panics)
  unfolding handle_connection_closed roster
  leave-panics {q} c time id s' reached sole v out h =
      let s = q.server in
      let rest : Server = record s { users = remove id s.users } in
      let ne : id ≢ k = λ e. ground (arith, e, out, sole.there) in
      let tidy = remove-IsTidy env.is_match id s.users (Reach-Inv env.is_match reached).tidy in
      (
        inbox-broadcast env p rest s' (user_left time id) h
            (standing-Sole env.is_match p k rest.users tidy (Sole-remove p k id s.users sole ne)),
        (deliver-panics_iff client_env (user_left time id) v).1 (ground (arith, out)),
      )

  -- So it is with a chat message of a client that has not joined.
  pub chat-panics :
      {q : Room} (c : Client) (time id : ℕ) (txt : Text) (s' : Server)
      → Reach env.is_match q
      → Sole p k q.server.users
      → InSync (roster q.server) c
      → lookup id q.server.users ≡ none
      → handle_chat_msg_in env time q.server id txt ≡ done s'
      → (inbox p s'.handed ≡ chat_msg time id txt ∷ inbox p q.server.handed)
        × (deliver client_env (chat_msg time id txt) c ≡ panics)
  unfolding handle_chat_msg_in roster
  chat-panics {q} c time id txt s' reached sole v out h = (
    inbox-broadcast env p q.server s' (chat_msg time id txt) h
        (standing-Sole env.is_match p k q.server.users (Reach-Inv env.is_match reached).tidy sole),
    (deliver-panics_iff client_env (chat_msg time id txt) v).1 (ground (arith, out)),
  )

  asks :
      (nick : Text) (c : Client) (w : Welcome)
      → c.connection ≡ some w
      → c.is_alive ≡ true
      → run client_env (arrives (set_nick nick) ∷ app ∷ answers ∷ app ∷ []) (rest c)
        ≡ done (record (rest c) { sent = named nick ∷ c.sent })
  unfolding run App.handle resume
  asks nick c w conn alive = ground (arith, conn, alive)

  -- The client of a member asks for a new nickname, and the server, which changes it, answers with
  -- success and tells the member's peer nothing. When the client, which showed the users of the room
  -- and had nothing to do, has sent the request and handled the answer, the server has the new
  -- nickname, and the client still shows the old one.
  pub own_nick :
      {q : Room} (c : Client) (w : Welcome) (time : ℕ) (nick : Text) (ud : UserData) (s' : Server)
      → Reach env.is_match q
      → Sole p k q.server.users
      → lookup k q.server.users ≡ some ud
      → InSync (roster q.server) c
      → c.connection ≡ some w
      → c.is_alive ≡ true
      → handle_change_nick env time q.server k nick ≡ done (s', ok tt)
      → (inbox p s'.handed ≡ inbox p q.server.handed)
        × (roster s' k ≡ some nick)
        × (nick ≢ ud.nick)
        × (c' : Client) × (run client_env (arrives (set_nick nick) ∷ app ∷ answers ∷ app ∷ []) c
            ≡ done c')
        × (c'.sent ≡ named nick ∷ c.sent)
        × (c' ≡ rest c')
        × IsShown c'.page k ud.nick
  unfolding roster
  own_nick {q} c w time nick ud s' reached sole there v conn alive h =
      let s = q.server in
      let rest_of : Server = record s { users = remove k s.users } in
      let msg = nick_changed time k nick in
      let tidy = remove-IsTidy env.is_match k s.users (Reach-Inv env.is_match reached).tidy in
      let nobody = standing_none env.is_match p rest_of.users tidy (λ j other listed e.
        ground (arith, lookup-remove j k s.users, listed, sole.only j other, e)) in
      let c' : Client = record (rest c) { sent = named nick ∷ c.sent } in
      let shown : IsShown (rest c).page k ud.nick =
        subst (λ (x : Client). IsShown x.page k ud.nick) v.quiet
          (v.shows.present k ud.nick (ground (arith, there))) in
      elim (change_told env time s s' k nick ud (ok tt) there h) [
        | inl (same, users, e, refused) ↦ absurd (ground (arith, refused))
        | inr (t, told, here, users, unlike) ↦ (
          ap (inbox p) here ∙ inbox-broadcast_none env p rest_of t msg told nobody,
          ground (
            arith,
            ap (lookup k) users,
            lookup-insert_self k (record ud { nick = nick }) rest_of.users,
          ),
          λ e. ground (arith, unlike, ap (text_eq ud.nick) e, text_eq_refl ud.nick),
          c',
          ap (run client_env (arrives (set_nick nick) ∷ app ∷ answers ∷ app ∷ [])) v.quiet
              ∙ asks nick c w conn alive,
          refl,
          refl,
          shown,
        )
      ]
