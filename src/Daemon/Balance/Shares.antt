-- ===== src/Daemon/Balance/Shares.antt =====
-- The rank map against its purpose: each server holds the interval of the running sum that its
-- score adds.
use push_system.Common.{
  ℕ, ◌≡◌, refl, List, [], ◌∷◌, ◌++◌, Option, none, some, true, false, if◌then◌else◌, arith, All, ap,
  ◌∙◌,
}
use mathlib.Core.List.{append_assoc, append-nil}
use push_system.Double.{Double}
use push_system.StdMap.{StdMap, touch}
use push_system.Daemon.State.{State, ServerInfo, ProducerState, no_producer}
use push_system.Daemon.Balance.{rank_assign, lower_bound, rebalance_loop, rebalance}

module _ {D : Type 0} ⦃dbl : Double D⦄ where
  open dbl use {le, plus, of_nat, le_trans, le_total}

  -- The first server, in the order of the ids, whose running sum of scores reaches the key.
  abbrev pub share_of : D → D → StdMap (ServerInfo D) → Option ℕ
  share_of key sum [] = none
  share_of key sum ((id, info) ∷ rest) =
      if le key (plus sum info.score) then some id else share_of key (plus sum info.score) rest

  -- Every score raises the sum.
  abbrev pub IsGrowing : D → StdMap (ServerInfo D) → Type 0
  IsGrowing sum [] = Unit
  IsGrowing sum ((id, info) ∷ rest) =
      (le (plus sum info.score) sum ≡ false) × IsGrowing (plus sum info.score) rest

  -- Every rank is less than the number.
  abbrev AllLess : D → List (D × ℕ) → Type 0
  AllLess next = All (λ e. le next e.0 ≡ false)

  sums : D → StdMap (ServerInfo D) → List (D × ℕ)
  sums sum [] = []
  sums sum ((id, info) ∷ rest) = (plus sum info.score, id) ∷ sums (plus sum info.score) rest

  le_of_not : (a b : D) → le a b ≡ false → le b a ≡ true
  le_of_not a b h = ground (arith, le_total a b)

  rank_assign_end :
      (next : D) (id : ℕ) (ranks : List (D × ℕ))
      → AllLess next ranks
      → rank_assign next id ranks ≡ ranks ++ (next, id) ∷ []
  unfolding rank_assign
  rank_assign_end next id [] a = refl
  rank_assign_end next id ((r, i) ∷ m) a =
      ground (arith, rank_assign_end next id m a.1, le_of_not next r a.0)

  -- The invariant of the loop: all ranks so far are at most the sum so far.
  abbrev AllAtMost : D → List (D × ℕ) → Type 0
  AllAtMost sum = All (λ e. le e.0 sum ≡ true)

  less_of_at_most :
      (next sum : D) (ranks : List (D × ℕ))
      → le next sum ≡ false
      → AllAtMost sum ranks
      → AllLess next ranks
  less_of_at_most next sum [] h a = tt
  less_of_at_most next sum ((r, i) ∷ m) h a =
      (ground (arith, le_trans next r sum), less_of_at_most next sum m h a.1)

  at_most_snoc :
      (next sum : D) (id : ℕ) (ranks : List (D × ℕ))
      → le next sum ≡ false
      → AllAtMost sum ranks
      → AllAtMost next (ranks ++ (next, id) ∷ [])
  at_most_snoc next sum id [] h a = (ground (arith, le_total next next), tt)
  at_most_snoc next sum id ((r, i) ∷ m) h a =
      (le_trans r sum next a.0 (le_of_not next sum h), at_most_snoc next sum id m h a.1)

  rebalance_loop-sums :
      (m : StdMap (ServerInfo D)) (sum : D) (ranks : List (D × ℕ))
      (producers : StdMap ProducerState)
      → IsGrowing sum m
      → AllAtMost sum ranks
      → (rebalance_loop m sum ranks producers).0 ≡ ranks ++ sums sum m
  unfolding rebalance_loop sums
  rebalance_loop-sums [] sum ranks producers g a = rw append-nil
  rebalance_loop-sums ((id, info) ∷ rest) sum ranks producers g a =
      let next = plus sum info.score in
      rw (rank_assign_end next id ranks (less_of_at_most next sum ranks g.0 a), rebalance_loop)
        (rw (
          rebalance_loop-sums rest next (ranks ++ (next, id) ∷ []) (touch id no_producer producers)
              g.1 (at_most_snoc next sum id ranks g.0 a),
          append_assoc,
        ))

  lower_bound-sums :
      (key sum : D) (m : StdMap (ServerInfo D)) → lower_bound key (sums sum m) ≡ share_of key sum m
  unfolding lower_bound sums
  lower_bound-sums key sum [] = refl
  lower_bound-sums key sum ((id, info) ∷ rest) =
      ground (arith, lower_bound-sums key (plus sum info.score) rest)

  -- If every score raises the running sum, then after Rebalance the server found at a key is the
  -- first one, in the order of the ids, whose running sum of scores reaches the key: the share of
  -- each server is the interval that its own score adds.
  pub lower_bound-rebalance :
      (key : D) (s : State D)
      → IsGrowing (of_nat 0) s.svr_info
      → lower_bound key (rebalance s).rank_to_svr ≡ share_of key (of_nat 0) s.svr_info
  unfolding rebalance
  lower_bound-rebalance key s g =
      ap (lower_bound key) (rebalance_loop-sums s.svr_info (of_nat 0) [] s.producer_states g tt)
      ∙ lower_bound-sums key (of_nat 0) s.svr_info
