-- ===== src/Chat/Client/Boxes.antt =====
-- The mailboxes of the chat client: what the messages in them will make of the users that it shows.
use thespis_impl_remote.Common.{
  Option, none, some, ℕ, List, [], ◌∷◌, ◌++◌, Map, insert as put, remove as erase, ◌≡◌, refl, ap,
}
use thespis_impl_remote.Chat.Format.{Text, ServerMsg, user_joined}
use thespis_impl_remote.Chat.Client.Page.{render, UserListMsg, insert, WindowMsg, new_user}
use thespis_impl_remote.Chat.Client.App.{
  AppMsg, connected, from_server, new_chat_msg, set_nick, disconnect,
}
use thespis_impl_remote.Chat.Client.Sync.{Roster, after}

-- The users that the window will know when it has handled some messages.
unfoldable pub known_after : List WindowMsg → Map ℕ → Map ℕ
known_after [] m = m
known_after (new_user sid nick addr time ∷ box) m = known_after box (put sid addr m)
known_after (WindowMsg.user_left time sid ∷ box) m = known_after box (erase sid m)
known_after (WindowMsg.disconnect ∷ box) m = known_after box []
known_after (WindowMsg.welcome time txt ∷ box) m = known_after box m
known_after (WindowMsg.chat_msg time sid txt ∷ box) m = known_after box m
known_after (WindowMsg.announce_nick time old next ∷ box) m = known_after box m
known_after (WindowMsg.print_help time ∷ box) m = known_after box m

known_after-append :
    (box : List WindowMsg) (msg : WindowMsg) (m : Map ℕ)
    → known_after (box ++ msg ∷ []) m ≡ known_after (msg ∷ []) (known_after box m)
unfolding known_after
known_after-append [] msg m = refl
known_after-append (new_user sid nick addr time ∷ box) msg m =
    known_after-append box msg (put sid addr m)
known_after-append (WindowMsg.user_left time sid ∷ box) msg m =
    known_after-append box msg (erase sid m)
known_after-append (WindowMsg.disconnect ∷ box) msg m = known_after-append box msg []
known_after-append (WindowMsg.welcome time txt ∷ box) msg m = known_after-append box msg m
known_after-append (WindowMsg.chat_msg time sid txt ∷ box) msg m = known_after-append box msg m
known_after-append (WindowMsg.announce_nick time old next ∷ box) msg m =
    known_after-append box msg m
known_after-append (WindowMsg.print_help time ∷ box) msg m = known_after-append box msg m

module _ (box : List WindowMsg) (m : Map ℕ) where
  pub known_after-chat_msg :
      (time sid : ℕ) (txt : Text)
      → known_after (box ++ WindowMsg.chat_msg time sid txt ∷ []) m ≡ known_after box m
  unfolding known_after
  known_after-chat_msg time sid txt = known_after-append box (WindowMsg.chat_msg time sid txt) m

  pub known_after-announce_nick :
      (time : ℕ) (old next : Text)
      → known_after (box ++ WindowMsg.announce_nick time old next ∷ []) m ≡ known_after box m
  unfolding known_after
  known_after-announce_nick time old next =
      known_after-append box (WindowMsg.announce_nick time old next) m

  pub known_after-new_user :
      (sid : ℕ) (nick : Text) (addr time : ℕ)
      → known_after (box ++ new_user sid nick addr time ∷ []) m ≡ put sid addr (known_after box m)
  unfolding known_after
  known_after-new_user sid nick addr time = known_after-append box (new_user sid nick addr time) m

  pub known_after-user_left :
      (time sid : ℕ)
      → known_after (box ++ WindowMsg.user_left time sid ∷ []) m ≡ erase sid (known_after box m)
  unfolding known_after
  known_after-user_left time sid = known_after-append box (WindowMsg.user_left time sid) m

-- Only messages of the server.
abbrev pub OnlyServer : List AppMsg → Type 0
OnlyServer [] = Unit {0}
OnlyServer (from_server msg ∷ box) = OnlyServer box
OnlyServer (connected w ∷ box) = ⊥
OnlyServer (new_chat_msg txt ∷ box) = ⊥
OnlyServer (set_nick nick ∷ box) = ⊥
OnlyServer (disconnect ∷ box) = ⊥

-- The roster after the messages in the mailbox of the application.
unfoldable pub after_all : List AppMsg → Roster → Roster
after_all [] ros = ros
after_all (from_server msg ∷ box) ros = after_all box (after msg ros)
after_all (connected w ∷ box) ros = after_all box ros
after_all (new_chat_msg txt ∷ box) ros = after_all box ros
after_all (set_nick nick ∷ box) ros = after_all box ros
after_all (disconnect ∷ box) ros = after_all box ros

pub after_all-append :
    (box : List AppMsg) (msg : ServerMsg) (ros : Roster)
    → OnlyServer box
    → (after_all (box ++ from_server msg ∷ []) ros ≡ after msg (after_all box ros))
      × OnlyServer (box ++ from_server msg ∷ [])
unfolding after_all
after_all-append [] msg ros o = (refl, tt)
after_all-append (from_server m ∷ box) msg ros o = after_all-append box msg (after m ros) o
after_all-append (connected w ∷ box) msg ros o = absurd o
after_all-append (new_chat_msg txt ∷ box) msg ros o = absurd o
after_all-append (set_nick nick ∷ box) msg ros o = absurd o
after_all-append (disconnect ∷ box) msg ros o = absurd o

pub after_all-from_server :
    (m : AppMsg) (msg : ServerMsg) (box : List AppMsg) (ros : Roster)
    → m ≡ from_server msg
    → after_all (m ∷ box) ros ≡ after_all box (after msg ros)
unfolding after_all
after_all-from_server m msg box ros e = rw e

-- What the list will be told: to take in a user, by time, id and nickname, or to show itself again.
abbrev pub Joined : Type 0
Joined = List (Option (ℕ × ℕ × Text))

unfoldable pub inserts : Joined → List UserListMsg → List UserListMsg
inserts [] box = box
inserts (some (time, sid, nick) ∷ js) box = insert time sid nick ∷ inserts js box
inserts (none ∷ js) box = render ∷ inserts js box

unfoldable pub after_joins : Joined → Roster → Roster
after_joins [] ros = ros
after_joins (some (time, sid, nick) ∷ js) ros =
    after_joins js (after (user_joined time nick sid) ros)
after_joins (none ∷ js) ros = after_joins js ros

pub inserts-nil : (box : List UserListMsg) → inserts [] box ≡ box
unfolding inserts
inserts-nil box = refl

pub after_joins-nil : (ros : Roster) → after_joins [] ros ≡ ros
unfolding after_joins
after_joins-nil ros = refl

pub inserts-last :
    (js : Joined) (msg : UserListMsg) → inserts js [] ++ msg ∷ [] ≡ inserts js (msg ∷ [])
unfolding inserts
inserts-last [] msg = refl
inserts-last (some (time, sid, nick) ∷ js) msg =
    ap (◌∷◌ (insert time sid nick)) (inserts-last js msg)
inserts-last (none ∷ js) msg = ap (◌∷◌ render) (inserts-last js msg)

pub inserts-append :
    (js : Joined) (time sid : ℕ) (nick : Text)
    → inserts js [] ++ insert time sid nick ∷ [] ≡ inserts (js ++ some (time, sid, nick) ∷ []) []
unfolding inserts
inserts-append [] time sid nick = refl
inserts-append (some (t, s, n) ∷ js) time sid nick =
    ap (◌∷◌ (insert t s n)) (inserts-append js time sid nick)
inserts-append (none ∷ js) time sid nick = ap (◌∷◌ render) (inserts-append js time sid nick)

pub after_joins-append :
    (js : Joined) (time sid : ℕ) (nick : Text) (ros : Roster)
    → after_joins (js ++ some (time, sid, nick) ∷ []) ros
      ≡ after (user_joined time nick sid) (after_joins js ros)
unfolding after_joins
after_joins-append [] time sid nick ros = refl
after_joins-append (some (t, s, n) ∷ js) time sid nick ros =
    after_joins-append js time sid nick (after (user_joined t n s) ros)
after_joins-append (none ∷ js) time sid nick ros = after_joins-append js time sid nick ros

-- The application waits for no answer of the window.
abbrev pub NoWelcome : List WindowMsg → Type 0
NoWelcome [] = Unit {0}
NoWelcome (new_user sid nick addr time ∷ box) = NoWelcome box
NoWelcome (WindowMsg.user_left time sid ∷ box) = NoWelcome box
NoWelcome (WindowMsg.disconnect ∷ box) = NoWelcome box
NoWelcome (WindowMsg.welcome time txt ∷ box) = ⊥
NoWelcome (WindowMsg.chat_msg time sid txt ∷ box) = NoWelcome box
NoWelcome (WindowMsg.announce_nick time old next ∷ box) = NoWelcome box
NoWelcome (WindowMsg.print_help time ∷ box) = NoWelcome box

pub append-NoWelcome :
    (box : List WindowMsg) (msg : WindowMsg)
    → NoWelcome box
    → NoWelcome (msg ∷ [])
    → NoWelcome (box ++ msg ∷ [])
append-NoWelcome [] msg n h = h
append-NoWelcome (new_user sid nick addr time ∷ box) msg n h = append-NoWelcome box msg n h
append-NoWelcome (WindowMsg.user_left time sid ∷ box) msg n h = append-NoWelcome box msg n h
append-NoWelcome (WindowMsg.disconnect ∷ box) msg n h = append-NoWelcome box msg n h
append-NoWelcome (WindowMsg.welcome time txt ∷ box) msg n h = absurd n
append-NoWelcome (WindowMsg.chat_msg time sid txt ∷ box) msg n h = append-NoWelcome box msg n h
append-NoWelcome (WindowMsg.announce_nick time old next ∷ box) msg n h =
    append-NoWelcome box msg n h
append-NoWelcome (WindowMsg.print_help time ∷ box) msg n h = append-NoWelcome box msg n h
