-- ===== src/Chat/Client/Follow.antt =====
-- A client that shows a roster follows the messages of the server, one after the other.
use thespis_impl_remote.Common.{
  none, some, arith, ◌≡◌, ◌↔◌, ◌⊎◌, inl, inr, refl, sym, ap, ◌∙◌, subst, Option-cases, false,
}
use thespis_impl_remote.Peer.State.{done, panics}
use thespis_impl_remote.Chat.Format.{
  Text, ServerMsg, chat_msg, user_joined, user_left, nick_changed,
}
use thespis_impl_remote.Chat.Client.Page.{Env}
use thespis_impl_remote.Chat.Client.ChatWindow
use thespis_impl_remote.Chat.Client.App.{Client}
use thespis_impl_remote.Chat.Client.Turns.{deliver}
use thespis_impl_remote.Chat.Client.Single.{
  rest, with_user, with_nick, without_user, joined_absent, joined_present, left_known, left_unknown,
  renamed_known, renamed_unknown, chatted_known, chatted_unknown,
}
use thespis_impl_remote.Chat.Client.Sync.{Roster, after, Shows, InSync}
use thespis_impl_remote.Chat.Client.Showing.{
  with_user-Shows, without_user-Shows, same-Shows, with_nick-Shows,
}

-- The message is about a user that is not in the roster, and not about one who joins.
abbrev pub IsStray : Roster → ServerMsg → Type 0
IsStray ros (chat_msg time sid txt) = ros sid ≡ none
IsStray ros (user_joined time nick sid) = ⊥
IsStray ros (user_left time sid) = ros sid ≡ none
IsStray ros (nick_changed time sid nick) = ros sid ≡ none

abbrev pub Fits : Roster → ServerMsg → Type 0
Fits ros (chat_msg time sid txt) = (nick : Text) × (ros sid ≡ some nick)
Fits ros (user_joined time nick sid) = Unit {0}
Fits ros (user_left time sid) = (nick : Text) × (ros sid ≡ some nick)
Fits ros (nick_changed time sid nick) = (old : Text) × (ros sid ≡ some old)

pub Fits-cases : (ros : Roster) (msg : ServerMsg) → IsStray ros msg ⊎ Fits ros msg
Fits-cases ros (chat_msg time sid txt) = Option-cases (ros sid)
Fits-cases ros (user_joined time nick sid) = inr tt
Fits-cases ros (user_left time sid) = Option-cases (ros sid)
Fits-cases ros (nick_changed time sid nick) = Option-cases (ros sid)

module _ (env : Env) where
  at_rest : {ros : Roster} (c : Client) → Shows ros c.page → InSync ros (rest c)
  at_rest c s = record {
    quiet = refl;
    shows = same-Shows _ c.page s (rest c).page refl refl refl refl;
  }

  abbrev Follows : Roster → ServerMsg → Client → Type 0
  Follows ros msg c = (c' : Client) × (deliver env msg c ≡ done c') × InSync (after msg ros) c'

  follows :
      (ros : Roster) (msg : ServerMsg) (c : Client)
      → Shows ros c.page
      → Fits ros msg
      → Follows ros msg (rest c)
  unfolding after ChatWindow.append_line ChatWindow.handle_announce_nick
  follows ros (chat_msg time sid txt) c s (nick, known) =
      let v = s.present sid nick known in
      let w = ChatWindow.append_line time v.user.nick txt v.user.color false c.page.window in
      let c' : Client = record c { page = record (c.page) { window = w } } in
      (
        rest c',
        chatted_known env time sid v.addr v.user txt c v.known v.here,
        at_rest c' (same-Shows ros c.page s c'.page refl refl refl refl),
      )
  follows ros (user_joined time nick sid) c s f = elim (Option-cases (ros sid)) [
    | inl out ↦
        let c' : Client = record c { page = with_user env time sid nick c.page } in
        (
          rest c',
          joined_absent env time sid nick c (s.absent sid out).0,
          at_rest c' (with_user-Shows ros c.page s env time sid nick out),
        )
    | inr (old, known) ↦
        let v = s.present sid old known in
        let c' : Client = record c { page = with_nick env v.addr v.user nick c.page } in
        (
          rest c',
          joined_present env time sid v.addr v.user nick c v.listed v.here,
          at_rest c' (with_nick-Shows ros c.page s env sid old nick v),
        )
  ]
  follows ros (user_left time sid) c s (nick, known) =
      let v = s.present sid nick known in
      let c' : Client = record c { page = without_user env time sid v.user.nick c.page } in
      (
        rest c',
        left_known env time sid v.addr v.user c v.known v.here,
        at_rest c' (without_user-Shows ros c.page s env time sid v.user.nick),
      )
  follows ros (nick_changed time sid nick) c s (old, known) =
      let v = s.present sid old known in
      let told = with_nick env v.addr v.user nick c.page in
      let w = ChatWindow.handle_announce_nick time v.user.nick nick c.page.window in
      let c' : Client = record c { page = record told { window = w } } in
      let shown = with_nick-Shows ros c.page s env sid old nick v in
      (
        rest c',
        renamed_known env time sid v.addr v.user nick c v.listed v.here,
        at_rest c' (
            same-Shows (after (nick_changed time sid nick) ros) told shown c'.page refl refl refl
              refl),
      )

  stray_panics :
      (ros : Roster) (msg : ServerMsg) (c : Client)
      → Shows ros c.page
      → IsStray ros msg
      → deliver env msg (rest c) ≡ panics
  stray_panics ros (chat_msg time sid txt) c s h =
      chatted_unknown env time sid txt c (s.absent sid h).1
  stray_panics ros (user_joined time nick sid) c s h = absurd h
  stray_panics ros (user_left time sid) c s h = left_unknown env time sid c (s.absent sid h).1
  stray_panics ros (nick_changed time sid nick) c s h =
      renamed_unknown env time sid nick c (s.absent sid h).0

  -- A client that shows a roster and has nothing to do, handles each message of the server that
  -- fits the roster without a panic, and shows the roster after it.
  pub deliver-InSync :
      {ros : Roster} {c : Client} (msg : ServerMsg)
      → InSync ros c
      → Fits ros msg
      → (c' : Client) × (deliver env msg c ≡ done c') × InSync (after msg ros) c'
  deliver-InSync {ros} {c} msg v f =
      subst (Follows ros msg) (sym v.quiet) (follows ros msg c v.shows f)

  -- A client that shows a roster and has nothing to do is handed one message of the server, and its
  -- actors take turns in the order of `deliver`: the application, the list, the application, the
  -- window. It panics on it exactly if the message is about a user that is not in the roster, other
  -- than that it joins.
  pub deliver-panics_iff :
      {ros : Roster} {c : Client} (msg : ServerMsg)
      → InSync ros c
      → (deliver env msg c ≡ panics) ↔ IsStray ros msg
  deliver-panics_iff {ros} {c} msg v = (
    λ h. elim (Fits-cases ros msg) [
      | inl stray ↦ stray
      | inr fit ↦ absurd (ground (arith, (deliver-InSync msg v fit).1, h))
    ],
    λ h. ap (deliver env msg) v.quiet ∙ stray_panics ros msg c v.shows h,
  )
