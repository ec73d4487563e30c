-- ===== src/Daemon/Alive.antt =====
-- `CheckProcAlive`: the servers whose last heart beat is more than ten seconds old are dropped.
pub mod Survivors
pub mod AtOnce
use push_system.Common.{ℕ, ◌+◌, [], ◌∷◌, Bool, ltb, if◌then◌else◌, map, text_eq}
use push_system.Double.{Double}
use push_system.StdMap.{StdMap, erase}
use push_system.Daemon.State.{State, ServerInfo, ProducerState}
use push_system.Daemon.Balance.{rebalance}
use push_system.Daemon.Registry.{producer_proc}

-- `ALIVE_DURATION`, in seconds
abbrev pub alive_duration : ℕ
alive_duration = 10

-- `difftime(now, timestamp) > ALIVE_DURATION`
unfoldable pub is_expired : {D : Type 0} → ℕ → ServerInfo D → Bool
is_expired now info = ltb (info.timestamp + alive_duration) now

unfoldable pub clear_fails : StdMap ProducerState → StdMap ProducerState
clear_fails = map λ e. (e.0, record e.1 { fail_count = 0 })

module _ {D : Type 0} ⦃dbl : Double D⦄ where
  -- The body of the loop for a server that is not alive.
  unfoldable pub drop_server : ℕ → ServerInfo D → State D → State D
  drop_server id info s =
      let rest = record s { svr_info = erase id s.svr_info } in
      if text_eq producer_proc info.proc_name
      then rebalance (record rest {
        producer_states = erase id s.producer_states;
        idle_producers = erase id s.idle_producers;
      })
      else rest

  -- The loop over the entries. The iterator goes over the map as it stood at the start: only the
  -- entry under it is ever erased.
  unfoldable pub sweep : ℕ → StdMap (ServerInfo D) → State D → State D
  unfolding is_expired
  sweep now [] s = s
  sweep now ((id, info) ∷ rest) s =
      sweep now rest (if is_expired now info then drop_server id info s else s)

  -- One round of `CheckProcAlive`, with the lock held.
  unfoldable pub check_proc_alive : ℕ → State D → State D
  check_proc_alive now s =
      let swept = sweep now s.svr_info s in
      record swept { producer_states = clear_fails swept.producer_states }
