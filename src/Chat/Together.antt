-- ===== src/Chat/Together.antt =====
-- The chat server with one of its clients: what the server hands to the client's peer, one message
-- after the other, and what the client makes of it.
use thespis_impl_remote.Common.{ℕ, Bool, List, [], ◌∷◌, ◌++◌, ◌≡◌, refl, sym, ap, ◌∙◌, subst, arith}
use mathlib.Core.Path.{fun_ext}
use thespis_impl_remote.Peer.State.{Handled, done, ◌>>=◌}
use thespis_impl_remote.Chat.Format.{Text, ServerMsg}
use thespis_impl_remote.Chat.Room.{Room, Step, Reach, goes_on}
use thespis_impl_remote.Chat.Sole.{Sole}
use thespis_impl_remote.Chat.News.{roster, News, silence, tells, IsOther, Step-Kept}
use thespis_impl_remote.Chat.Told.{inbox}
use thespis_impl_remote.Chat.Client.Page
use thespis_impl_remote.Chat.Client.App.{Client, from_server}
use thespis_impl_remote.Chat.Client.Turns.{Turn, arrives, run}
use thespis_impl_remote.Chat.Client.Sync.{InSync}
use thespis_impl_remote.Chat.Client.Chains.{IsInner, rounds}
use thespis_impl_remote.Chat.Client.Progress.{settles-InSync}

module _ (client_env : Page.Env) where
  -- The client handles messages, of which the newest stands first. Its actors take turns in some
  -- order, and then four times each, before another message comes.
  unfoldable pub catch_up : (List ServerMsg → List Turn) → List ServerMsg → Client → Handled Client
  catch_up order [] c = done c
  catch_up order (msg ∷ older) c =
      catch_up order older c
      >>= run client_env (arrives (from_server msg) ∷ order older ++ rounds 4)

  module _ (is_match : Text → Bool) (p k : ℕ) where
    -- A run of the room in which only others act. At each message, other mailboxes may be there.
    pub data Others (q : Room) : Room → Type 0 where
      stays : Others q q
      goes :
          {r t : Room} (alive : ℕ → Bool)
          → Others q r
          → (step : Step (record { is_match = is_match; is_alive = alive }) r t)
          → IsOther (record { is_match = is_match; is_alive = alive }) p k step
          → Others q t

    module _ (order : List ServerMsg → List Turn) where
      -- The client has caught up with what its peer was handed since.
      pub record CaughtUp (q r : Room) (c : Client) : Type 0 where
        pub new : List ServerMsg
        pub handed : inbox p r.server.handed ≡ new ++ inbox p q.server.handed
        pub client : Client
        pub handles : catch_up order new c ≡ done client
        pub in_sync : InSync (roster r.server) client

      module _ (inner : (older : List ServerMsg) → IsInner (order older)) where
        after_step :
            {q r t : Room} (c : Client) → CaughtUp q r c → News p r.server t.server → CaughtUp q t c
        unfolding catch_up
        after_step c v (silence same users) = record {
          new = v.new;
          handed = same ∙ v.handed;
          client = v.client;
          handles = v.handles;
          in_sync = subst (λ ros. InSync ros v.client) (sym (fun_ext users)) v.in_sync;
        }
        after_step c v (tells msg told fits users) =
            let d = settles-InSync client_env msg (order v.new) v.in_sync fits (inner v.new) in
            record {
              new = msg ∷ v.new;
              handed = told ∙ ap (◌∷◌ msg) v.handed;
              client = d.0;
              handles = ground (arith, v.handles, d.1);
              in_sync = subst (λ ros. InSync ros d.0) (sym (fun_ext users)) d.2;
            }

        pub record Holds (q r : Room) (c : Client) : Type 0 where
          pub reached : Reach is_match r
          pub sole : Sole p k r.server.users
          pub caught_up : CaughtUp q r c

        Others-Holds : {q r : Room} {c : Client} → Holds q q c → Others q r → Holds q r c
        Others-Holds h stays = h
        Others-Holds {c} h (goes alive turns step other) =
            let v = Others-Holds h turns in
            let kept =
              Step-Kept (record { is_match = is_match; is_alive = alive }) p k step v.reached v.sole
                other in
            record {
              reached = goes_on alive v.reached step;
              sole = kept.1;
              caught_up = after_step c v.caught_up kept.0;
            }

        -- A client of the room shows its users and has nothing to do, no other user has its peer, and
        -- then the others act, in any order: who writes or leaves is in the room, and who joins has
        -- another peer. The client's peer was handed messages by that. If the client handles them in
        -- their order, each before the next comes, with its actors taking turns in any order and then
        -- four times each, it does not panic, and at the end it shows the users that the room then has
        -- and has nothing to do.
        pub Others-CaughtUp :
            {q r : Room} (c : Client)
            → Reach is_match q
            → Sole p k q.server.users
            → InSync (roster q.server) c
            → Others q r
            → CaughtUp q r c
        unfolding catch_up
        Others-CaughtUp {q} c reached sole v turns =
            let nothing : CaughtUp q q c = record {
              new = [];
              handed = refl;
              client = c;
              handles = refl;
              in_sync = v;
            } in
            let start : Holds q q c = record {
              reached = reached;
              sole = sole;
              caught_up = nothing;
            } in
            Holds.caught_up (Others-Holds start turns)
