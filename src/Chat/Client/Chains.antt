-- ===== src/Chat/Client/Chains.antt =====
-- Turns of a chat client in which one actor at a time has something to do.
use thespis_impl_remote.Common.{
  ℕ, List, [], ◌∷◌, ◌++◌, ◌≡◌, ◌⊎◌, refl, ap, ◌∙◌, arith, inl, inr, zero, suc,
}
use thespis_impl_remote.Peer.State.{Handled, done, ◌>>=◌, Handled-cases}
use thespis_impl_remote.Chat.Client.Page.{Env}
use thespis_impl_remote.Chat.Client.App.{Client}
use thespis_impl_remote.Chat.Client.Turns.{Turn, app, list, window, arrives, turn, run}
use thespis_impl_remote.Chat.Client.Single.{rest}
use thespis_impl_remote.Chat.Client.Sync.{Roster}
use thespis_impl_remote.Chat.Client.AppTurns.{done-inj}
use thespis_impl_remote.Chat.Client.AnyOrder.{FromServer, after_turns}

-- Turns of the client's own actors.
abbrev pub IsInner : List Turn → Type 0
IsInner [] = Unit {0}
IsInner (app ∷ ts) = IsInner ts
IsInner (list ∷ ts) = IsInner ts
IsInner (window ∷ ts) = IsInner ts
IsInner (arrives msg ∷ ts) = ⊥
IsInner (Turn.answers ∷ ts) = ⊥
IsInner (Turn.drops ∷ ts) = ⊥
IsInner (Turn.peer_ends ∷ ts) = ⊥

-- One round: each actor takes its turn.
abbrev round : List Turn
round = app ∷ list ∷ window ∷ []

abbrev pub rounds : ℕ → List Turn
rounds zero = []
rounds (suc n) = round ++ rounds n

head-IsInner : (t : Turn) (ts : List Turn) → IsInner (t ∷ ts) → IsInner (t ∷ [])
head-IsInner app ts i = tt
head-IsInner list ts i = tt
head-IsInner window ts i = tt
head-IsInner (arrives msg) ts i = absurd i
head-IsInner Turn.answers ts i = absurd i
head-IsInner Turn.drops ts i = absurd i
head-IsInner Turn.peer_ends ts i = absurd i

tail-IsInner : (t : Turn) (ts : List Turn) → IsInner (t ∷ ts) → IsInner ts
tail-IsInner app ts i = i
tail-IsInner list ts i = i
tail-IsInner window ts i = i
tail-IsInner (arrives msg) ts i = absurd i
tail-IsInner Turn.answers ts i = absurd i
tail-IsInner Turn.drops ts i = absurd i
tail-IsInner Turn.peer_ends ts i = absurd i

pub inner-FromServer : (ts us : List Turn) → IsInner ts → FromServer us → FromServer (ts ++ us)
inner-FromServer [] us i f = f
inner-FromServer (app ∷ ts) us i f = inner-FromServer ts us i f
inner-FromServer (list ∷ ts) us i f = inner-FromServer ts us i f
inner-FromServer (window ∷ ts) us i f = inner-FromServer ts us i f
inner-FromServer (arrives msg ∷ ts) us i f = absurd i
inner-FromServer (Turn.answers ∷ ts) us i f = absurd i
inner-FromServer (Turn.drops ∷ ts) us i f = absurd i
inner-FromServer (Turn.peer_ends ∷ ts) us i f = absurd i

pub inner-after_turns :
    (ts us : List Turn) (ros : Roster)
    → IsInner ts
    → after_turns (ts ++ us) ros ≡ after_turns us ros
unfolding after_turns
inner-after_turns [] us ros i = refl
inner-after_turns (app ∷ ts) us ros i = inner-after_turns ts us ros i
inner-after_turns (list ∷ ts) us ros i = inner-after_turns ts us ros i
inner-after_turns (window ∷ ts) us ros i = inner-after_turns ts us ros i
inner-after_turns (arrives msg ∷ ts) us ros i = absurd i
inner-after_turns (Turn.answers ∷ ts) us ros i = absurd i
inner-after_turns (Turn.drops ∷ ts) us ros i = absurd i
inner-after_turns (Turn.peer_ends ∷ ts) us ros i = absurd i

module _ (env : Env) where
  -- Who has something to do: nobody, or one actor that does it without a panic. That is so up to
  -- the end, which comes after at most so many turns.
  pub data Chain : ℕ → Client → Type 0 where
    goes :
        {n : ℕ} {c : Client} (who : Turn) (d : Client)
        → IsInner (who ∷ [])
        → ((t : Turn) → IsInner (t ∷ []) → (t ≡ who) ⊎ (turn env t c ≡ done c))
        → turn env who c ≡ done d
        → Chain n d
        → Chain (suc n) c
    ends :
        {n : ℕ} {c : Client}
        → c ≡ rest c
        → ((t : Turn) → IsInner (t ∷ []) → turn env t c ≡ done c)
        → Chain n c

  longer : {n : ℕ} (c : Client) → Chain n c → Chain (suc n) c
  longer c (goes who d i others acts h) = goes who d i others acts (longer d h)
  longer c (ends e idles) = ends e idles

  -- The client after some turns, with no more to do than before.
  abbrev Gets : ℕ → List Turn → Client → Type 0
  Gets n ts c = (d : Client) × (run env ts c ≡ done d) × Chain n d

  then :
      {n : ℕ} (t : Turn) (ts : List Turn) (c d : Client)
      → turn env t c ≡ done d
      → Gets n ts d
      → Gets n (t ∷ ts) c
  unfolding run
  then t ts c d' e (d, r, h) = (d, ap (λ (m : Handled Client). m >>= λ c'. run env ts c') e ∙ r, h)

  pub runs : {n : ℕ} (ts : List Turn) (c : Client) → IsInner ts → Chain n c → Gets n ts c
  unfolding run
  runs [] c i h = (c, refl, h)
  runs (t ∷ ts) c i (goes who d w others acts h) = elim (others t (head-IsInner t ts i)) [
    | inl e ↦
        let (d', r, h') = runs ts d (tail-IsInner t ts i) h in
        then t ts c d (ap (λ (x : Turn). turn env x c) e ∙ acts) (d', r, longer d' h')
    | inr e ↦ then t ts c c e (runs ts c (tail-IsInner t ts i) (goes who d w others acts h))
  ]
  runs (t ∷ ts) c i (ends e idles) =
      then t ts c c (idles t (head-IsInner t ts i)) (runs ts c (tail-IsInner t ts i) (ends e idles))

  pub run-append :
      (ts us : List Turn) (c d : Client)
      → run env ts c ≡ done d
      → run env (ts ++ us) c ≡ run env us d
  unfolding run
  run-append [] us c d h = ap (run env us) (done-inj h)
  run-append (t ∷ ts) us c d h = elim (Handled-cases (turn env t c)) [
    | inl dead ↦ absurd (ground (arith, dead, h))
    | inr (c1, e) ↦
        ap (λ (m : Handled Client). m >>= λ c'. run env (ts ++ us) c') e
        ∙ run-append ts us c1 d (ground (arith, e, h))
  ]

  -- What holds of the three actors holds of each.
  pub each : (P : Turn → Type 0) → P app → P list → P window → (t : Turn) → IsInner (t ∷ []) → P t
  each P a l w app i = a
  each P a l w list i = l
  each P a l w window i = w
  each P a l w (arrives msg) i = absurd i
  each P a l w Turn.answers i = absurd i
  each P a l w Turn.drops i = absurd i
  each P a l w Turn.peer_ends i = absurd i

  abbrev pub Idle : Client → Turn → Type 0
  Idle c t = turn env t c ≡ done c

  pub by_app :
      {n : ℕ} {c : Client} (d : Client)
      → turn env app c ≡ done d
      → Idle c list
      → Idle c window
      → Chain n d
      → Chain (suc n) c
  by_app {n} {c} d acts l w h =
      goes app d tt (each (λ t. (t ≡ app) ⊎ Idle c t) (inl refl) (inr l) (inr w)) acts h

  pub by_list :
      {n : ℕ} {c : Client} (d : Client)
      → turn env list c ≡ done d
      → Idle c app
      → Idle c window
      → Chain n d
      → Chain (suc n) c
  by_list {n} {c} d acts a w h =
      goes list d tt (each (λ t. (t ≡ list) ⊎ Idle c t) (inr a) (inl refl) (inr w)) acts h

  pub by_window :
      {n : ℕ} {c : Client} (d : Client)
      → turn env window c ≡ done d
      → Idle c app
      → Idle c list
      → Chain n d
      → Chain (suc n) c
  by_window {n} {c} d acts a l h =
      goes window d tt (each (λ t. (t ≡ window) ⊎ Idle c t) (inr a) (inr l) (inl refl)) acts h

  -- A turn before the one of the actor with something to do.
  before :
      {n : ℕ} (t who : Turn) (ts : List Turn) (c d : Client)
      → (t ≡ who) ⊎ (turn env t c ≡ done c)
      → turn env who c ≡ done d
      → Gets n ts d
      → Gets n ts c
      → Gets n (t ∷ ts) c
  before t who ts c d (inl e) acts now later =
      then t ts c d (ap (λ (x : Turn). turn env x c) e ∙ acts) now
  before t who ts c d (inr e) acts now later = then t ts c c e later

  a_round : {n : ℕ} (c : Client) → Chain (suc n) c → Gets n round c
  a_round c (goes app d w others acts h) =
      then app (list ∷ window ∷ []) c d acts (runs (list ∷ window ∷ []) d tt h)
  a_round c (goes list d w others acts h) =
      before app list (list ∷ window ∷ []) c d (others app tt) acts
        (runs (list ∷ window ∷ []) d tt h)
        (then list (window ∷ []) c d acts (runs (window ∷ []) d tt h))
  a_round c (goes window d w others acts h) =
      before app window (list ∷ window ∷ []) c d (others app tt) acts
        (runs (list ∷ window ∷ []) d tt h)
        (before list window (window ∷ []) c d (others list tt) acts (runs (window ∷ []) d tt h)
          (then window [] c d acts (runs [] d tt h)))
  a_round c (goes (arrives msg) d w others acts h) = absurd w
  a_round c (goes Turn.answers d w others acts h) = absurd w
  a_round c (goes Turn.drops d w others acts h) = absurd w
  a_round c (goes Turn.peer_ends d w others acts h) = absurd w
  a_round c (ends e idles) = runs round c tt (ends e idles)

  -- With a round for each turn that is left, nothing is left.
  pub settles : (n : ℕ) (c : Client) → Chain n c → Gets 0 (rounds n) c
  unfolding run
  settles zero c h = (c, refl, h)
  settles (suc n) c h =
      let (d, r, h1) = a_round c h in
      let (e, s, h2) = settles n d h1 in (e, run-append round (rounds n) c d r ∙ s, h2)

  pub over : (c : Client) → Chain 0 c → c ≡ rest c
  over c (ends e idles) = e
