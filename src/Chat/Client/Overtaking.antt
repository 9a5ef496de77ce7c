-- ===== src/Chat/Client/Overtaking.antt =====
-- Where the order of turns matters: what the server writes for one user reaches the window of the
-- chat client on two ways.
use thespis_impl_remote.Common.{ℕ, [], ◌∷◌, none, lookup, ◌≡◌, ap, ◌∙◌, arith}
use thespis_impl_remote.Peer.State.{done, panics, ◌>>=◌}
use thespis_impl_remote.Chat.Format.{Text, user_joined, chat_msg}
use thespis_impl_remote.Chat.Client.Page.{Env}
use thespis_impl_remote.Chat.Client.ChatWindow
use thespis_impl_remote.Chat.Client.App
use thespis_impl_remote.Chat.Client.App.{from_server, Client}
use thespis_impl_remote.Chat.Client.Turns.{app, window, arrives, run, deliver}
use thespis_impl_remote.Chat.Client.Single.{rest}
use thespis_impl_remote.Chat.Client.Sync.{Roster, after, InSync}
use thespis_impl_remote.Chat.Client.Follow.{deliver-InSync}

module _ (env : Env) where
  window_first :
      (c : Client) (time later sid : ℕ) (nick txt : Text)
      → lookup sid c.page.window.users ≡ none
      → run env
          (arrives (from_server (user_joined time nick sid))
            ∷ arrives (from_server (chat_msg later sid txt))
            ∷ app
            ∷ app
            ∷ window
            ∷ [])
          (rest c)
        ≡ panics
  unfolding run App.handle ChatWindow.handle
  window_first c time later sid nick txt h = ground (arith, h)

  -- A client that shows a roster and has nothing to do gets two messages of the server: a user joins
  -- that is not in the roster, and that user writes. If the application handles both before the list
  -- of users has its turn, the window panics on the second; if all is done with the first before the
  -- second comes, the client shows the roster with the user.
  pub window-overtakes :
      {ros : Roster} {c : Client} (time later sid : ℕ) (nick txt : Text)
      → InSync ros c
      → ros sid ≡ none
      → (run env
            (arrives (from_server (user_joined time nick sid))
              ∷ arrives (from_server (chat_msg later sid txt))
              ∷ app
              ∷ app
              ∷ window
              ∷ [])
            c
          ≡ panics)
        × (c' : Client) × ((deliver env (user_joined time nick sid) c
              >>= deliver env (chat_msg later sid txt))
            ≡ done c')
        × InSync (after (user_joined time nick sid) ros) c'
  unfolding after
  window-overtakes {ros} {c} time later sid nick txt v out =
      let first = deliver-InSync env (user_joined time nick sid) v tt in
      let second = deliver-InSync env (chat_msg later sid txt) first.2 (nick, ground arith) in
      (
        ap (run env _) v.quiet ∙ window_first c time later sid nick txt (v.shows.absent sid out).1,
        second.0,
        ground (arith, first.1, second.1),
        second.2,
      )
