-- ===== src/Daemon/Alive/Survivors.antt =====
-- Who is left after a round of `CheckProcAlive`.
use push_system.Common.{
  ℕ, ◌+◌, ◌≡◌, ltb, refl, [], ◌∷◌, none, some, Bool, true, false, ◌==◌, if◌then◌else◌, arith, inl,
  inr, Option-cases, All,
}
use push_system.Double.{Double}
use push_system.StdMap.{StdMap, find, IsSorted, Above, find-erase, Above-find}
use push_system.Daemon.State.{State, ServerInfo, ProducerState}
use push_system.Daemon.Balance.{rebalance}
use push_system.Daemon.Alive.{is_expired, clear_fails, drop_server, sweep, check_proc_alive}

clear_fails-All : (m : StdMap ProducerState) → All (λ e. e.1.fail_count ≡ 0) (clear_fails m)
unfolding clear_fails
clear_fails-All [] = tt
clear_fails-All (e ∷ m) = (refl, unfold clear_fails in clear_fails-All m)

module _ {D : Type 0} ⦃dbl : Double D⦄ where
  drop_server-find :
      (b : Bool) (id j : ℕ) (info : ServerInfo D) (s : State D)
      → find j (if b then drop_server id info s else s).svr_info
        ≡ (if b then (if id == j then none else find j s.svr_info) else find j s.svr_info)
  unfolding drop_server rebalance
  drop_server-find true id j info s = ground (arith, find-erase j id s.svr_info)
  drop_server-find false id j info s = refl

  not-Above : (j : ℕ) (m : StdMap (ServerInfo D)) → Above j m → find j m ≡ none
  not-Above j m a = elim (Option-cases (find j m)) [
    | inl e ↦ e
    | inr (v, e) ↦ absurd (omega (arith, Above-find j j v m a e))
  ]

  sweep-find :
      (now j : ℕ) (m : StdMap (ServerInfo D)) (s : State D)
      → IsSorted m
      → find j (sweep now m s).svr_info ≡ elim (find j m) [
        | none ↦ find j s.svr_info
        | some i ↦ if is_expired now i then none else find j s.svr_info
      ]
  unfolding sweep find
  sweep-find now j [] s sorted = refl
  sweep-find now j ((id, info) ∷ rest) s sorted =
      let dropped = is_expired now info in
      ground (
        arith,
        sweep-find now j rest (if dropped then drop_server id info s else s) sorted.1,
        drop_server-find dropped id j info s,
        not-Above id rest sorted.0,
      )

  -- On a registry whose keys are in order, a round of CheckProcAlive drops exactly the servers
  -- whose time stamp is more than 10 seconds before now, leaves the entries of all others as they
  -- are, and sets every count of failures to 0.
  pub check_proc_alive-find :
      (now : ℕ) (s : State D)
      → IsSorted s.svr_info
      → ((j : ℕ)
          → find j (check_proc_alive now s).svr_info ≡ elim (find j s.svr_info) [
            | none ↦ none
            | some i ↦ if ltb (i.timestamp + 10) now then none else some i
          ])
        × All (λ e. e.1.fail_count ≡ 0) (check_proc_alive now s).producer_states
  unfolding check_proc_alive is_expired
  check_proc_alive-find now s sorted =
      (λ j. ground (arith, sweep-find now j s.svr_info s sorted), clear_fails-All _)
