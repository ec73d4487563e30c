-- ===== src/Daemon/Balance/Ranks.antt =====
-- What `Rebalance` leaves: producer states untouched where every server has one, a rank map that
-- names registered servers only and is not empty unless there is no server.
use push_system.Common.{ℕ, ◌≡◌, refl, List, [], ◌∷◌, some, true, arith, All, inl, inr, Bool-cases}
use push_system.Double.{Double}
use push_system.StdMap.{StdMap, has, touch-has}
use push_system.Daemon.State.{ServerInfo, ProducerState, no_producer}
use push_system.Daemon.Balance.{rank_assign, lower_bound, last_rank, rebalance_loop}

module _ {D : Type 0} ⦃dbl : Double D⦄ where
  open dbl use {le, plus, of_nat, le_trans, le_total}

  pub rebalance_loop-states :
      (m : StdMap (ServerInfo D)) (rank : D) (ranks : List (D × ℕ))
      (producers : StdMap ProducerState)
      → All (λ e. has e.0 producers ≡ true) m
      → (rebalance_loop m rank ranks producers).1 ≡ producers
  unfolding rebalance_loop
  rebalance_loop-states [] rank ranks producers a = refl
  rebalance_loop-states ((id, info) ∷ rest) rank ranks producers a =
      rw (touch-has id no_producer producers a.0, rebalance_loop)
        (rebalance_loop-states rest (plus rank info.score)
          (rank_assign (plus rank info.score) id ranks) producers a.1)

  pub rank_assign-All {κ} :
      (P : ℕ → Type κ) (rank : D) (id : ℕ) (ranks : List (D × ℕ))
      → P id
      → All (λ e. P e.1) ranks
      → All (λ e. P e.1) (rank_assign rank id ranks)
  unfolding rank_assign
  rank_assign-All P rank id [] p a = (p, tt)
  rank_assign-All P rank id ((r, i) ∷ m) p a = ground (arith, rank_assign-All P rank id m p a.1)

  pub rebalance_loop-All {κ} :
      (P : ℕ → Type κ) (m : StdMap (ServerInfo D)) (rank : D) (ranks : List (D × ℕ))
      (producers : StdMap ProducerState)
      → All (λ e. P e.0) m
      → All (λ e. P e.1) ranks
      → All (λ e. P e.1) (rebalance_loop m rank ranks producers).0
  unfolding rebalance_loop
  rebalance_loop-All P [] rank ranks producers a b = b
  rebalance_loop-All P ((id, info) ∷ rest) rank ranks producers a b =
      rebalance_loop-All P rest _ _ _ a.1 (rank_assign-All P (plus rank info.score) id ranks a.0 b)

  -- Every rank is at least 0.
  abbrev pub NonNeg : List (D × ℕ) → Type 0
  NonNeg = All (λ e. le (of_nat 0) e.0 ≡ true)

  rank_assign-NonNeg :
      (rank : D) (id : ℕ) (ranks : List (D × ℕ))
      → le (of_nat 0) rank ≡ true
      → NonNeg ranks
      → NonNeg (rank_assign rank id ranks)
  unfolding rank_assign
  rank_assign-NonNeg rank id [] h a = (h, tt)
  rank_assign-NonNeg rank id ((r, i) ∷ m) h a = ground (arith, rank_assign-NonNeg rank id m h a.1)

  pub rebalance_loop-NonNeg :
      (m : StdMap (ServerInfo D)) (rank : D) (ranks : List (D × ℕ))
      (producers : StdMap ProducerState)
      → All (λ e. le (of_nat 0) e.1.score ≡ true) m
      → le (of_nat 0) rank ≡ true
      → NonNeg ranks
      → NonNeg (rebalance_loop m rank ranks producers).0
  unfolding rebalance_loop
  rebalance_loop-NonNeg [] rank ranks producers a h b = b
  rebalance_loop-NonNeg ((id, info) ∷ rest) rank ranks producers a h b =
      let up =
        le_trans (of_nat 0) rank (plus rank info.score) h (dbl.plus_grows rank info.score a.0) in
      rebalance_loop-NonNeg rest _ _ _ a.1 up
        (rank_assign-NonNeg (plus rank info.score) id ranks up b)

  -- There is a last rank exactly where the map is not empty.
  abbrev pub IsFilled : List (D × ℕ) → Type 0
  IsFilled [] = ⊥
  IsFilled (_ ∷ _) = Unit {0}

  rank_assign-IsFilled :
      (rank : D) (id : ℕ) (ranks : List (D × ℕ)) → IsFilled (rank_assign rank id ranks)
  unfolding rank_assign
  rank_assign-IsFilled rank id [] = tt
  rank_assign-IsFilled rank id ((r, i) ∷ m) = ground arith

  pub rebalance_loop-IsFilled :
      (m : StdMap (ServerInfo D)) (rank : D) (ranks : List (D × ℕ))
      (producers : StdMap ProducerState)
      → IsFilled ranks
      → IsFilled (rebalance_loop m rank ranks producers).0
  unfolding rebalance_loop
  rebalance_loop-IsFilled [] rank ranks producers f = f
  rebalance_loop-IsFilled ((id, info) ∷ rest) rank ranks producers f =
      rebalance_loop-IsFilled rest _ _ _ (rank_assign-IsFilled (plus rank info.score) id ranks)

  pub rebalance_loop-cons-IsFilled :
      (e : ℕ × ServerInfo D) (m : StdMap (ServerInfo D)) (rank : D)
      (producers : StdMap ProducerState)
      → IsFilled (rebalance_loop (e ∷ m) rank [] producers).0
  unfolding rebalance_loop
  rebalance_loop-cons-IsFilled (id, info) m rank producers =
      rebalance_loop-IsFilled m _ _ _ (rank_assign-IsFilled (plus rank info.score) id [])

  -- Up to the last rank, `lower_bound` finds an entry.
  pub last_rank-lower_bound :
      (ranks : List (D × ℕ))
      → IsFilled ranks
      → NonNeg ranks
      → (r : D) × (last_rank ranks ≡ some r)
        × (le (of_nat 0) r ≡ true)
        × ((key : D) → le key r ≡ true → (id : ℕ) × (lower_bound key ranks ≡ some id))
  unfolding last_rank lower_bound
  last_rank-lower_bound [] f a = absurd f
  last_rank-lower_bound ((r, i) ∷ []) f a = (r, refl, a.0, λ key h. (i, rw h))
  last_rank-lower_bound ((r, i) ∷ e ∷ m) f a =
      let rest = last_rank-lower_bound (e ∷ m) tt a.1 in
      (
        rest.0,
        rest.1,
        rest.2,
        λ key h. elim (Bool-cases (le key r)) [
          | inl t ↦ (i, rw t)
          | inr t ↦ let found = rest.3 key h in (found.0, rw t found.1)
        ],
      )

  pub lower_bound-All {κ} :
      (P : ℕ → Type κ) (key : D) (ranks : List (D × ℕ)) (id : ℕ)
      → All (λ e. P e.1) ranks
      → lower_bound key ranks ≡ some id
      → P id
  unfolding lower_bound
  lower_bound-All P key [] id a h = absurd (ground arith)
  lower_bound-All P key ((r, i) ∷ m) id a h = ground (arith, lower_bound-All P key m id a.1)
