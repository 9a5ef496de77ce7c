-- ===== src/Chat/Broadcast.antt =====
-- `Server::broadcast`: who is told, and when the server panics.
use thespis_impl_remote.Common.{
  ℕ, suc, ◌+◌, true, false, List, [], ◌∷◌, none, some, arith, Map, lookup, ◌==◌, ◌≡◌, ◌↔◌, refl,
  inl, inr, Bool-cases, if◌then◌else◌,
}
use thespis_impl_remote.Peer.State.{Handled-cases, done, panics}
use thespis_impl_remote.Chat.Format.{ServerMsg}
use thespis_impl_remote.Chat.Server.{UserData, Server, Env, broadcast_to, broadcast}
use thespis_impl_remote.Chat.Nicks.{IsTidy}

-- How many messages a peer was handed.
unfoldable pub told : ℕ → List (ℕ × ServerMsg) → ℕ
told p [] = 0
told p ((q, msg) ∷ handed) = let rest = told p handed in if p == q then suc rest else rest

-- How many users a peer stands for.
unfoldable pub standing : ℕ → Map UserData → ℕ
standing p [] = 0
standing p ((sid, ud) ∷ m) = let rest = standing p m in if p == ud.peer_addr then suc rest else rest

module _ (env : Env) where
  -- The peer of some user is gone.
  abbrev pub HasGone : Map UserData → Type 0
  HasGone m =
      (k : ℕ) × (ud : UserData) × (lookup k m ≡ some ud) × (env.is_alive ud.peer_addr ≡ false)

  abbrev pub AllAlive : Map UserData → Type 0
  AllAlive m = (k : ℕ) (ud : UserData) → lookup k m ≡ some ud → env.is_alive ud.peer_addr ≡ true

  gone_panics :
      (k : ℕ) (ud : UserData) (m : Map UserData) (msg : ServerMsg) (handed : List (ℕ × ServerMsg))
      → lookup k m ≡ some ud
      → env.is_alive ud.peer_addr ≡ false
      → broadcast_to env m msg handed ≡ panics
  unfolding broadcast_to lookup
  gone_panics k ud [] msg handed h gone = absurd (ground arith)
  gone_panics k ud ((j, other) ∷ m) msg handed h gone =
      ground (arith, gone, gone_panics k ud m msg ((other.peer_addr, msg) ∷ handed))

  tail-AllAlive :
      (j : ℕ) (ud : UserData) (m : Map UserData)
      → lookup j m ≡ none
      → AllAlive ((j, ud) ∷ m)
      → (env.is_alive ud.peer_addr ≡ true) × AllAlive m
  unfolding lookup
  tail-AllAlive j ud m fresh a =
      (a j ud (ground arith), λ k other h. a k other (ground (arith, fresh, h)))

  told_lem :
      (m : Map UserData) (msg : ServerMsg) (handed : List (ℕ × ServerMsg))
      → IsTidy env.is_match m
      → AllAlive m
      → (handed' : List (ℕ × ServerMsg)) × (broadcast_to env m msg handed ≡ done handed')
        × ((p : ℕ) → told p handed' ≡ told p handed + standing p m)
  unfolding broadcast_to IsTidy told standing
  told_lem [] msg handed t a = (handed, refl, λ p. omega arith)
  told_lem ((j, ud) ∷ m) msg handed t a =
      let alive = tail-AllAlive j ud m t.1 a in
      let rest = told_lem m msg ((ud.peer_addr, msg) ∷ handed) t.4 alive.1 in
      (rest.0, ground (arith, alive.0, rest.1), λ p. ground (arith, rest.2 p))

  panics_gone :
      (m : Map UserData) (msg : ServerMsg) (handed : List (ℕ × ServerMsg))
      → IsTidy env.is_match m
      → broadcast_to env m msg handed ≡ panics
      → HasGone m
  unfolding broadcast_to IsTidy lookup
  panics_gone [] msg handed t h = absurd (ground arith)
  panics_gone ((j, ud) ∷ m) msg handed t h = elim (Bool-cases (env.is_alive ud.peer_addr)) [
    | inl alive ↦
        let rest =
          panics_gone m msg ((ud.peer_addr, msg) ∷ handed) t.4 (ground (arith, alive, h)) in
        (rest.0, rest.1, ground (arith, rest.2, t.1), rest.3)
    | inr gone ↦ (j, ud, ground arith, gone)
  ]

  -- While the peers of all users are there, each is told once for each user it stands for, and the
  -- users stay as they are.
  pub broadcast_lem :
      (s : Server) (msg : ServerMsg)
      → IsTidy env.is_match s.users
      → AllAlive s.users
      → (s' : Server) × (broadcast env s msg ≡ done s')
        × (s'.users ≡ s.users)
        × ((p : ℕ) → told p s'.handed ≡ told p s.handed + standing p s.users)
  unfolding broadcast
  broadcast_lem s msg t a =
      let all = told_lem s.users msg s.handed t a in
      (record s { handed = all.0 }, ground (arith, all.1), refl, all.2)

  pub broadcast_users :
      (s s' : Server) (msg : ServerMsg) → broadcast env s msg ≡ done s' → s'.users ≡ s.users
  unfolding broadcast
  broadcast_users s s' msg h = elim (Handled-cases (broadcast_to env s.users msg s.handed)) [
    | inl dead ↦ absurd (ground (arith, dead, h))
    | inr (handed, told_all) ↦ ground (arith, told_all, h)
  ]

  -- A broadcast to users under different ids panics exactly if the peer of one of them is gone,
  -- whoever was told before.
  pub broadcast-panics_iff :
      (s : Server) (msg : ServerMsg)
      → IsTidy env.is_match s.users
      → (broadcast env s msg ≡ panics) ↔ HasGone s.users
  unfolding broadcast
  broadcast-panics_iff s msg t = (
    λ h. elim (Handled-cases (broadcast_to env s.users msg s.handed)) [
      | inl dead ↦ panics_gone s.users msg s.handed t dead
      | inr (handed, told_all) ↦ absurd (ground (arith, told_all, h))
    ],
    λ (k, ud, there, gone). ground (arith, gone_panics k ud s.users msg s.handed there gone),
  )
