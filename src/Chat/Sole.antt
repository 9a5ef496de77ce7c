-- ===== src/Chat/Sole.antt =====
-- A user whose peer is that of no other user, in the map of the chat server.
use thespis_impl_remote.Common.{
  ℕ, Bool, [], ◌∷◌, none, some, arith, Map, lookup, remove, lookup-remove, ◌==◌, ◌≡◌, ◌≢◌, refl,
  inl, inr, if◌then◌else◌, Bool-cases, ap, ◌∙◌, sym,
}
use thespis_impl_remote.Chat.Format.{Text}
use thespis_impl_remote.Chat.Server.{UserData}
use thespis_impl_remote.Chat.Nicks.{IsTidy}
use thespis_impl_remote.Chat.Broadcast.{standing}

-- Of the users, one and no other has the peer.
pub record Sole (p k : ℕ) (m : Map UserData) : Type 0 where
  pub user : UserData
  pub there : lookup k m ≡ some user
  pub peer : user.peer_addr ≡ p
  pub only : (j : ℕ) (ud : UserData) → lookup j m ≡ some ud → ud.peer_addr ≡ p → j ≡ k

pub in_tail :
    (i j : ℕ) (u v : UserData) (m : Map UserData)
    → lookup j m ≡ none
    → lookup i m ≡ some v
    → lookup i ((j, u) ∷ m) ≡ some v
unfolding lookup
in_tail i j u v m out h = ground (arith, out, h)

pub at_head : (j : ℕ) (u : UserData) (m : Map UserData) → lookup j ((j, u) ∷ m) ≡ some u
unfolding lookup
at_head j u m = ground arith

module _ (is_match : Text → Bool) where
  pub standing_none :
      (p : ℕ) (m : Map UserData)
      → IsTidy is_match m
      → ((j : ℕ) (ud : UserData) → lookup j m ≡ some ud → ud.peer_addr ≢ p)
      → standing p m ≡ 0
  unfolding standing IsTidy
  standing_none p [] t h = refl
  standing_none p ((j, ud) ∷ m) t h = ground (
    arith,
    h j ud (at_head j ud m),
    standing_none p m t.4 (λ i v r. h i v (in_tail i j ud v m t.1 r)),
  )

  -- A peer that is that of one user stands for one.
  pub standing-Sole :
      (p k : ℕ) (m : Map UserData) → IsTidy is_match m → Sole p k m → standing p m ≡ 1
  unfolding standing IsTidy
  standing-Sole p k [] t s = absurd (unfold lookup in ground (arith, s.there))
  standing-Sole p k ((j, ud) ∷ m) t s = elim (Bool-cases (k == j)) [
    | inl same ↦
        let none_left =
          standing_none p m t.4
            (λ i v r e. ground (arith, same, s.only i v (in_tail i j ud v m t.1 r) e, r, t.1)) in
        let mine : ud ≡ s.user = unfold lookup in ground (arith, same, s.there) in
        ground (arith, none_left, mine, s.peer)
    | inr other ↦
        let rest : Sole p k m = record {
          user = s.user;
          there = unfold lookup in ground (arith, other, s.there);
          peer = s.peer;
          only = λ i v r e. s.only i v (in_tail i j ud v m t.1 r) e;
        } in
        ground (arith, s.only j ud (at_head j ud m), other, standing-Sole p k m t.4 rest)
  ]

-- The map with an entry for a user that has another peer.
pub Sole-set :
    (p k id : ℕ) (v : UserData) (m m' : Map UserData)
    → Sole p k m
    → id ≢ k
    → v.peer_addr ≢ p
    → ((j : ℕ) → lookup j m' ≡ (if j == id then some v else lookup j m))
    → Sole p k m'
Sole-set p k id v m m' s ne other at = record {
  user = s.user;
  there = ground (arith, at k, s.there, ne);
  peer = s.peer;
  only = λ j ud h e. ground (arith, at j, h, e, other, s.only j ud);
}

pub Sole-remove : (p k id : ℕ) (m : Map UserData) → Sole p k m → id ≢ k → Sole p k (remove id m)
Sole-remove p k id m s ne = record {
  user = s.user;
  there = ground (arith, lookup-remove k id m, s.there, ne);
  peer = s.peer;
  only = λ j ud h e. ground (arith, lookup-remove j id m, h, e, s.only j ud);
}

pub Sole-same : (p k : ℕ) (m m' : Map UserData) → Sole p k m → m' ≡ m → Sole p k m'
Sole-same p k m m' s e = record {
  user = s.user;
  there = ap (lookup k) e ∙ s.there;
  peer = s.peer;
  only = λ j ud h. s.only j ud (sym (ap (lookup j) e) ∙ h);
}
