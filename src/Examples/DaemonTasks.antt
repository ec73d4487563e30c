-- ===== src/Examples/DaemonTasks.antt =====
-- The bounds and the tasks of the daemon at a concrete run.
use push_system.Common.{
  ℕ, ◌+◌, ◌*◌, ◌≤◌, ◌≡◌, refl, All, total, [], some, ◌==◌, codes, arith, length,
}
use push_system.StdMap.{find, has, assign, adjust, insert, touch, last_key}
use push_system.Daemon.State.{ProducerState, start_state}
use push_system.Daemon.Registry.{
  client_register, admit_producer, next_server_id, new_producer, parse_and_get_ip,
}
use push_system.Daemon.Balance.{rebalance, rebalance_loop, rank_assign}
use push_system.Daemon.Alive.{check_proc_alive}
use push_system.Daemon.Alive.AtOnce.{round_at_once, Reach-check_proc_alive}
use push_system.System.Coverage.{IsSmall, in_request}
use push_system.Common.Leads.{LeadsTo}
use push_system.System.Drain.{Reach-drains}
use push_system.System.Safety.{OfProducers}
use push_system.System.{World, Reach, Step, start_world, begin_push, serve}
use push_system.System.Bound.{registrations, Reach-bounded}
use push_system.System.Tasks.Runs.{calls_of, Reach-tasks}
use push_system.Examples.Numbers.{nat_double}
use push_system.Examples.DaemonRuns.{sending, sending-Reach}

Reach-bounded_example :
    (sending.state.sending_count ≡ length sending.state.calls + length sending.failing)
    × (sending.state.sending_count + length sending.state.idle_producers
        ≤ 3 * registrations sending-Reach + 1)
    × (length sending.state.producer_states ≤ registrations sending-Reach)
Reach-bounded_example =
    Reach-bounded sending-Reach (unfold registrations sending-Reach in omega arith)

abbrev busy : ProducerState
busy = record {
  producer_caller = record { stub = some (codes "1.2.3.4:50053") };
  cur_task_count = 1;
  fail_count = 0;
}

busy_found : find 7 sending.state.producer_states ≡ some busy
unfolding begin_push start_world start_state serve client_register admit_producer next_server_id
    new_producer parse_and_get_ip rebalance rebalance_loop rank_assign find assign insert adjust
    touch last_key
busy_found = refl

none_before :
    calls_of 7 (start_world {D = ℕ}).state.calls + calls_of 7 (start_world {D = ℕ}).failing ≡ 0
unfolding start_world start_state calls_of
none_before = refl

Reach-tasks_example :
    (busy.cur_task_count ≡ calls_of 7 sending.state.calls + calls_of 7 sending.failing)
    × (has 7 sending.state.idle_producers ≡ (busy.cur_task_count == 0))
Reach-tasks_example =
    Reach-tasks sending-Reach
      (unfold sending-Reach calls_of start_world start_state next_server_id in
        (tt, (tt, (refl, tt))))
      (unfold registrations sending-Reach in omega arith) 7 busy busy_found

-- The producer came at 100, and its ten seconds are over.
Reach-check_proc_alive_example :
    check_proc_alive 200 sending.state ≡ round_at_once 200 sending.state
Reach-check_proc_alive_example = Reach-check_proc_alive sending-Reach 200

asked-IsSmall : All IsSmall sending.asked
unfolding begin_push start_world
asked-IsSmall = (omega arith, tt)

Reach-drains_example :
    (v : World ℕ) × LeadsTo (Step (λ _. ⊥)) v sending
    × Reach (OfProducers ℕ) v
    × (v.senders ≡ [])
    × (v.state.calls ≡ [])
    × (v.failing ≡ [])
    × (v.asked ≡ sending.asked)
    × ((msg uid : ℕ)
        → total (in_request msg uid) v.answered ≡ total (in_request msg uid) sending.asked)
Reach-drains_example =
    Reach-drains sending-Reach 7 (unfold registrations sending-Reach in omega arith)
      (ground (arith, busy_found)) asked-IsSmall
