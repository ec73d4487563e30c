-- ===== src/Daemon/Balance.antt =====
-- `Rebalance` and `gRank2SvrId`, the map from a running sum of scores to a server.
pub mod Ranks
pub mod Shares
use push_system.Common.{ℕ, List, [], ◌∷◌, Option, none, some, not, if◌then◌else◌}
use push_system.Double.{Double}
use push_system.StdMap.{StdMap, touch}
use push_system.Daemon.State.{State, ServerInfo, ProducerState, no_producer}

module _ {D : Type 0} ⦃dbl : Double D⦄ where
  open dbl use {le, plus, of_nat}

  -- `gRank2SvrId[rank] = svrId`: equal keys are those of which neither is less.
  unfoldable pub rank_assign : D → ℕ → List (D × ℕ) → List (D × ℕ)
  rank_assign rank id [] = (rank, id) ∷ []
  rank_assign rank id ((r, i) ∷ m) =
      if not (le r rank)
      then (rank, id) ∷ (r, i) ∷ m
      else if le rank r
      then (r, id) ∷ m
      else (r, i) ∷ rank_assign rank id m

  -- `gRank2SvrId.lower_bound(key)->second`; none where it is `end()`.
  unfoldable pub lower_bound : D → List (D × ℕ) → Option ℕ
  lower_bound key [] = none
  lower_bound key ((r, i) ∷ m) = if le key r then some i else lower_bound key m

  -- `gRank2SvrId.rbegin()->first`; none on an empty map.
  unfoldable pub last_rank : List (D × ℕ) → Option D
  last_rank [] = none
  last_rank ((r, i) ∷ []) = some r
  last_rank (_ ∷ e ∷ m) = last_rank (e ∷ m)

  -- The loop of `Rebalance` over the servers. Its log line reads `gSvrId2ProducerState[id]`, which
  -- makes a missing entry.
  unfoldable pub rebalance_loop :
      StdMap (ServerInfo D)
      → D
      → List (D × ℕ)
      → StdMap ProducerState
      → List (D × ℕ) × StdMap ProducerState
  rebalance_loop [] rank ranks producers = (ranks, producers)
  rebalance_loop ((id, info) ∷ rest) rank ranks producers =
      let next = plus rank info.score in
      rebalance_loop rest next (rank_assign next id ranks) (touch id no_producer producers)

  unfoldable pub rebalance : State D → State D
  rebalance s =
      let done = rebalance_loop s.svr_info (of_nat 0) [] s.producer_states in
      record s { rank_to_svr = done.0; producer_states = done.1 }
