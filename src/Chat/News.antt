-- ===== src/Chat/News.antt =====
-- What a member of the room is told by what the others do, and that it suffices to know the users.
use thespis_impl_remote.Common.{
  ℕ, ◌∷◌, none, some, arith, Map, lookup, insert, remove, lookup-insert, lookup-remove, ◌==◌, ◌≡◌,
  ◌≢◌, refl, inl, inr, Option-cases, Result, if◌then◌else◌, ap, ◌∙◌, sym,
}
use thespis_impl_remote.Peer.State.{Handled-cases, done}
use thespis_impl_remote.Chat.Format.{
  Text, ChatErr, Welcome, ServerMsg, chat_msg, user_joined, user_left, nick_changed,
}
use thespis_impl_remote.Chat.Server.{
  Server, Env, UserData, broadcast, handle_user_data, handle_change_nick, handle_chat_msg_in,
  handle_connection_closed,
}
use thespis_impl_remote.Chat.User.{handle_join, handle_set_nick, handle_new_chat_msg}
use thespis_impl_remote.Chat.Nicks.{IsTidy, remove-IsTidy}
use thespis_impl_remote.Chat.Broadcast.{broadcast_users}
use thespis_impl_remote.Chat.Room.{
  Room, Stands_id, Step, connects, joins, sets_nick, chats, leaves, Reach,
}
use thespis_impl_remote.Chat.Safety.{Reach-Inv}
use thespis_impl_remote.Chat.Sole.{Sole, standing-Sole, Sole-set, Sole-remove, Sole-same}
use thespis_impl_remote.Chat.Told.{inbox, inbox-broadcast, join_told, change_told}
use thespis_impl_remote.Chat.Client.Sync.{Roster, after}
use thespis_impl_remote.Chat.Client.Follow.{Fits}

-- The nicknames of the users of the server.
unfoldable pub roster : Server → Roster
roster s k = elim (lookup k s.users) [ none ↦ none | some ud ↦ some ud.nick ]

-- A peer was handed nothing, and the users are as before; or it was handed one message that fits
-- the users, who are now those after it.
pub data News (p : ℕ) (s s' : Server) : Type 0 where
  silence :
      inbox p s'.handed ≡ inbox p s.handed → ((k : ℕ) → roster s' k ≡ roster s k) → News p s s'
  tells :
      (msg : ServerMsg)
      → inbox p s'.handed ≡ msg ∷ inbox p s.handed
      → Fits (roster s) msg
      → ((k : ℕ) → roster s' k ≡ after msg (roster s) k)
      → News p s s'

module _ (env : Env) (p k : ℕ) where
  -- What became of the member, and what its peer was handed.
  abbrev Kept : Server → Server → Type 0
  Kept s s' = News p s s' × Sole p k s'.users

  unchanged : (s s' : Server) → Sole p k s.users → s' ≡ s → Kept s s'
  unchanged s s' sole e = (
    silence (ap (λ (x : Server). inbox p x.handed) e) (λ j. ap (λ (x : Server). roster x j) e),
    Sole-same p k s.users s'.users sole (ap Server.users e),
  )

  join-Kept :
      (time : ℕ) (s s' : Server) (ud : UserData) (res : Result Welcome ChatErr)
      → IsTidy env.is_match s.users
      → Sole p k s.users
      → ud.peer_addr ≢ p
      → handle_user_data env time s ud ≡ done (s', res)
      → Kept s s'
  unfolding roster after
  join-Kept time s s' ud res t sole other h = elim (join_told env time s s' ud res h) [
    | inl same ↦ unchanged s s' sole same
    | inr (w, told, here, users, fresh, _) ↦
        let one = standing-Sole env.is_match p k s.users t sole in
        let msg = user_joined time ud.nick ud.addr in
        (
          tells msg (ap (inbox p) here ∙ inbox-broadcast env p s w msg told one) tt
              (λ j. ground (arith, ap (lookup j) users, lookup-insert j ud.addr ud s.users)),
          Sole-set p k ud.addr ud s.users s'.users sole (ground (arith, fresh, sole.there)) other
              (λ j. ap (lookup j) users ∙ lookup-insert j ud.addr ud s.users),
        )
  ]

  -- The rest of the users, who are told what one of them does.
  told_rest :
      (id : ℕ) (s t : Server) (msg : ServerMsg)
      → IsTidy env.is_match s.users
      → Sole p k s.users
      → id ≢ k
      → broadcast env (record s { users = remove id s.users }) msg ≡ done t
      → inbox p t.handed ≡ msg ∷ inbox p s.handed
  told_rest id s t msg tidy sole ne h =
      inbox-broadcast env p (record s { users = remove id s.users }) t msg h
        (standing-Sole env.is_match p k (remove id s.users)
          (remove-IsTidy env.is_match id s.users tidy) (Sole-remove p k id s.users sole ne))

  replaced :
      (id : ℕ) (v : UserData) (m m' : Map UserData)
      → m' ≡ insert id v (remove id m)
      → (j : ℕ) → lookup j m' ≡ (if j == id then some v else lookup j m)
  replaced id v m m' e j =
      ground (arith, ap (lookup j) e, lookup-insert j id v (remove id m), lookup-remove j id m)

  change-Kept :
      (time id : ℕ) (s s' : Server) (nick : Text) (res : Result (Unit {0}) ChatErr)
      → IsTidy env.is_match s.users
      → Sole p k s.users
      → id ≢ k
      → handle_change_nick env time s id nick ≡ done (s', res)
      → Kept s s'
  unfolding roster after
  change-Kept time id s s' nick res t sole ne h = elim (Option-cases (lookup id s.users)) [
    | inl absent ↦ absurd (unfold handle_change_nick in ground (arith, absent, h))
    | inr (ud, there) ↦
        let other : ud.peer_addr ≢ p = λ e. ne (sole.only id ud there e) in
        elim (change_told env time s s' id nick ud res there h) [
          | inl (same, users, e, refused) ↦ (
            silence (ap (inbox p) same)
                (λ j. ground (arith, replaced id ud s.users s'.users users j, there)),
            Sole-set p k id ud s.users s'.users sole ne other
                (replaced id ud s.users s'.users users),
          )
          | inr (w, told, here, users, unlike) ↦
              let named : UserData = record ud { nick = nick } in
              (
                tells (nick_changed time id nick)
                    (ap (inbox p) here
                      ∙ told_rest id s w (nick_changed time id nick) t sole ne told)
                    (ud.nick, ground (arith, there))
                    (λ j. ground (arith, replaced id named s.users s'.users users j)),
                Sole-set p k id named s.users s'.users sole ne other
                    (replaced id named s.users s'.users users),
              )
        ]
  ]

  chat-Kept :
      (time id : ℕ) (s s' : Server) (txt : Text) (ud : UserData)
      → IsTidy env.is_match s.users
      → Sole p k s.users
      → lookup id s.users ≡ some ud
      → handle_chat_msg_in env time s id txt ≡ done s'
      → Kept s s'
  unfolding handle_chat_msg_in roster after
  chat-Kept time id s s' txt ud t sole there h =
      let same = broadcast_users env s s' (chat_msg time id txt) h in
      (
        tells (chat_msg time id txt)
            (inbox-broadcast env p s s' (chat_msg time id txt) h
              (standing-Sole env.is_match p k s.users t sole))
            (ud.nick, ground (arith, there)) (λ j. ground (arith, ap (lookup j) same)),
        Sole-same p k s.users s'.users sole same,
      )

  leave-Kept :
      (time id : ℕ) (s s' : Server) (ud : UserData)
      → IsTidy env.is_match s.users
      → Sole p k s.users
      → id ≢ k
      → lookup id s.users ≡ some ud
      → handle_connection_closed env time s id ≡ done s'
      → Kept s s'
  unfolding handle_connection_closed roster after
  leave-Kept time id s s' ud t sole ne there h =
      let rest : Server = record s { users = remove id s.users } in
      let same = broadcast_users env rest s' (user_left time id) h in
      (
        tells (user_left time id) (told_rest id s s' (user_left time id) t sole ne h)
            (ud.nick, ground (arith, there))
            (λ j. ground (arith, ap (lookup j) same, lookup-remove j id s.users)),
        Sole-same p k (remove id s.users) s'.users (Sole-remove p k id s.users sole ne) same,
      )

  -- Another client does it; whoever writes or leaves is in the room, and whoever joins has another
  -- peer.
  abbrev pub IsOther : {q r : Room} → Step env q r → Type 0
  IsOther (connects id peer fresh) = Unit {0}
  IsOther (joins id time u u' s' nick res there h) = u.peer_addr ≢ some p
  IsOther (sets_nick id time u s' nick res there h) = id ≢ k
  IsOther {q} (chats id time u s' txt there h) =
      (ud : UserData) × (lookup id q.server.users ≡ some ud)
  IsOther {q} (leaves id time u s' there h) =
      (id ≢ k) × (ud : UserData) × (lookup id q.server.users ≡ some ud)

  pub Step-Kept :
      {q r : Room} (step : Step env q r)
      → Reach env.is_match q
      → Sole p k q.server.users
      → IsOther step
      → Kept q.server r.server
  unfolding handle_set_nick handle_new_chat_msg handle_join
  Step-Kept {q} (connects id peer fresh) reached sole o = unchanged q.server q.server sole refl
  Step-Kept {q} (joins id time u u' s' nick res there h) reached sole o =
      elim (Option-cases u.addr) [
        | inl gone ↦ unchanged q.server s' sole (ground (arith, gone, h))
        | inr (addr, a) ↦ elim (Option-cases u.peer_addr) [
          | inl gone ↦ unchanged q.server s' sole (ground (arith, a, gone, h))
          | inr (peer, b) ↦
              let ud : UserData = record { nick = nick; addr = addr; peer_addr = peer } in
              elim (Handled-cases (handle_user_data env time q.server ud)) [
                | inl dead ↦ absurd (ground (arith, a, b, dead, h))
                | inr ((t, x), handled) ↦
                    join-Kept time q.server s' ud x (Reach-Inv env.is_match reached).tidy sole
                      (λ e. o (ground (arith, b, e))) (ground (arith, a, b, handled, h))
              ]
        ]
      ]
  Step-Kept {q} (sets_nick id time u s' nick res there h) reached sole o =
      let v = Reach-Inv env.is_match reached in
      change-Kept time u.id q.server s' nick res v.tidy sole
        (λ e. o (sym (Stands_id (v.stands id u there)) ∙ e)) h
  Step-Kept {q} (chats id time u s' txt there h) reached sole (ud, member) =
      let v = Reach-Inv env.is_match reached in
      chat-Kept time u.id q.server s' txt ud v.tidy sole
        (ap (λ (n : ℕ). lookup n q.server.users) (Stands_id (v.stands id u there)) ∙ member) h
  Step-Kept {q} (leaves id time u s' there h) reached sole (ne, ud, member) =
      leave-Kept time id q.server s' ud (Reach-Inv env.is_match reached).tidy sole ne member h
