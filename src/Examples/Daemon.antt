-- ===== src/Examples/Daemon.antt =====
-- The theorems on the daemon at concrete inputs.
use push_system.Common.{
  ◌+◌, ltb, true, false, ◌⊎◌, ℕ, ◌-◌, ◌%◌, ◌^◌, ◌≡◌, ◌↔◌, refl, [], ◌∷◌, ◌++◌, none, some, ◌==◌,
  if◌then◌else◌, codes, arith, All, length,
}
use push_system.Common.Word.{u64}
use push_system.Shared.{success, err}
use push_system.StdMap.{find, has, last_key}
use push_system.Daemon.State.{State, ProduceMsgRequest, Call, no_producer}
use push_system.Daemon.Balance.{lower_bound, rebalance}
use push_system.Daemon.Balance.Shares.{share_of, lower_bound-rebalance}
use push_system.Daemon.Registry.{
  ClientRegisterRequest, next_server_id, client_register, heart_beat, parse_and_get_ip,
  new_producer,
}
use push_system.Daemon.Registry.Fresh.{new_entry, client_register-fresh}
use push_system.Daemon.Registry.Entries.{heart_beat_lem}
use push_system.Daemon.Registry.Address.{NoColon, parse_and_get_ip_lem}
use push_system.Daemon.Dispatch.{select_turn, chunk, uid_count_per_time}
use push_system.Daemon.Dispatch.Rounds.{rounds, plan, chunk_count, rounds-plan, rounds_endless}
use push_system.Daemon.Dispatch.NullStub.{one_busy, select_turn-null_stub}
use push_system.Daemon.Alive.{check_proc_alive, is_expired}
use push_system.Daemon.Alive.Survivors.{check_proc_alive-find}
use push_system.Daemon.Replies.{on_get_response}
use push_system.Daemon.Replies.ReusedId.{client_register-reused_id}
use push_system.Daemon.Invariant.{WellFormed}
use push_system.System.{begin_push, start_world}
use push_system.System.Progress.{must_wait, IsFirst, without_first, Reach-progress}
use push_system.Daemon.Invariant.Sending.{sent_state}
use push_system.System.Coverage.{times_held, times_asked, times_held-eq-times_asked}
use push_system.System.Counter.{Reach-Counts}
use push_system.System.Safety.{Reach-WellFormed, Reach-select_turn}
use push_system.Examples.Numbers.{nat_double}
use push_system.Examples.Split.{split_at, split_at-SplitsAtColon}
use push_system.Examples.DaemonRuns.{
  arrival, producer_request, push, sending, sending-Reach, server, two_servers,
}

times_held-eq-times_asked_example : times_held 1 4500 sending ≡ times_asked 1 4500 sending
unfolding begin_push start_world
times_held-eq-times_asked_example = times_held-eq-times_asked sending-Reach (omega arith, tt) 1 4500

Reach-progress_example :
    ((must_wait sending.state ≡ true)
      × (select_turn 0 push 4096 sending.state ≡ some (sending.state, 4096)))
    ⊎ ((must_wait sending.state ≡ false)
        × ((id : ℕ) × (has id sending.state.svr_info ≡ true)
            × IsFirst id sending.state.idle_producers
            × (select_turn 0 push 4096 sending.state
                ≡ some (
                  sent_state id (chunk push 4096) (record sending.state {
                    idle_producers = without_first sending.state.idle_producers;
                  }),
                  u64 (4096 + uid_count_per_time),
                ))))
Reach-progress_example = Reach-progress sending-Reach 0 push 4096 (omega arith)

Reach-Counts_example :
    sending.state.sending_count ≡ (length sending.state.calls + length sending.failing) % 2 ^ 32
Reach-Counts_example = Reach-Counts sending-Reach

Reach-WellFormed_example : WellFormed sending.state
Reach-WellFormed_example = Reach-WellFormed sending-Reach

Reach-select_turn_example : (t : State ℕ × ℕ) × (select_turn 10000 push 4096 sending.state ≡ some t)
Reach-select_turn_example = Reach-select_turn sending-Reach 10000 push 4096 (omega arith)

rounds-plan_example : rounds 3 push 0 ≡ some (plan (chunk_count push 0) push 0)
rounds-plan_example = rounds-plan 3 push 0 (omega arith) (omega arith)

-- The two chunks of a push of 5001 uids.
plan-push :
    plan (chunk_count push 0) push 0
    ≡ record push { end_uid = 4095 } ∷ record push { start_uid = 4096 } ∷ []
plan-push = refl

abbrev endless_push : ProduceMsgRequest
endless_push = record { msg_id = 1; start_uid = 0; end_uid = 2 ^ 64 - 1 }

rounds_endless_example : rounds 1000 endless_push 0 ≡ none
rounds_endless_example = rounds_endless 1000 endless_push 0 (omega arith) (omega arith)

client_register-fresh_example :
    (find 9 two_servers.svr_info ≡ none)
    × ((j : ℕ)
        → find j (client_register split_at arrival producer_request two_servers).0.svr_info ≡ (
            if 9 == j
            then some (new_entry split_at arrival producer_request)
            else find j two_servers.svr_info))
unfolding last_key client_register next_server_id
client_register-fresh_example =
    client_register-fresh split_at arrival producer_request two_servers (omega arith)
      (λ k e. ground arith)

heart_beat_example : (heart_beat 120 9 two_servers).1 ≡ err
unfolding heart_beat find
heart_beat_example = refl

check_proc_alive-find_example :
    ((j : ℕ)
      → find j (check_proc_alive 100 two_servers).svr_info ≡ elim (find j two_servers.svr_info) [
        | none ↦ none
        | some i ↦ if ltb (i.timestamp + 10) 100 then none else some i
      ])
    × All (λ e. e.1.fail_count ≡ 0) (check_proc_alive 100 two_servers).producer_states
check_proc_alive-find_example = check_proc_alive-find 100 two_servers (omega arith)

lower_bound-rebalance_example :
    lower_bound 15 (rebalance two_servers).rank_to_svr ≡ share_of 15 0 two_servers.svr_info
lower_bound-rebalance_example = lower_bound-rebalance 15 two_servers (refl, (refl, tt))

share_15 : share_of 15 0 two_servers.svr_info ≡ some 8
share_15 = refl

heart_beat_lem_example :
    let r = heart_beat 120 8 two_servers in
    ((r.1 ≡ err) ↔ (find 8 two_servers.svr_info ≡ none))
    × ((j : ℕ)
        → find j r.0.svr_info ≡ elim (find j two_servers.svr_info) [
          | none ↦ none
          | some i ↦ some (if 8 == j then record i { timestamp = 120 } else i)
        ])
    × (r.0 ≡ record two_servers { svr_info = r.0.svr_info })
heart_beat_lem_example = heart_beat_lem 120 8 two_servers

parse_and_get_ip_lem_example :
    (parse_and_get_ip split_at (codes "ipv4:1.2.3.4:5000") ≡ codes "1.2.3.4")
    × (parse_and_get_ip split_at (codes "ipv4:1.2.3.4") ≡ [])
    × (parse_and_get_ip split_at (codes "ipv4") ≡ [])
    × (parse_and_get_ip split_at (codes "ipv4:1.2.3.4:5000:6") ≡ [])
parse_and_get_ip_lem_example =
    parse_and_get_ip_lem split_at split_at-SplitsAtColon (codes "ipv4") (codes "1.2.3.4")
      (codes "5000") (codes "6") [] colon_free
  where
    colon_free : All NoColon (codes "ipv4" ∷ codes "1.2.3.4" ∷ codes "5000" ∷ codes "6" ∷ [])
    colon_free = ground arith

abbrev other_request : ClientRegisterRequest
other_request = record {
  listening_port = codes "50000";
  proc_name = codes "consumer";
  group_id = 1;
}

select_turn-null_stub_example :
    select_turn 5000 push 0 (
      rebalance
        (client_register split_at arrival other_request
          (one_busy 7 (server 100) (record no_producer { cur_task_count = 1 }) [] 1 [])).0)
    ≡ none
select_turn-null_stub_example =
    select_turn-null_stub split_at arrival other_request 7 (server 100)
      (record no_producer { cur_task_count = 1 }) [] 1 [] 5000 push 0 refl (omega arith) refl
      (omega arith) (omega arith)

abbrev old_call : Call
old_call = record { svr_id = 8; request = push }

client_register-reused_id_example :
    let r = client_register split_at arrival producer_request (check_proc_alive 100 two_servers) in
    (r.2 ≡ 8)
    × (find 8 (on_get_response success old_call r.0).0.producer_states
        ≡ some
            (record (new_producer
              (parse_and_get_ip split_at arrival.peer ++ b':' ∷ producer_request.listening_port)) {
                cur_task_count = 2 ^ 32 - 1;
              }))
unfolding is_expired
client_register-reused_id_example =
    client_register-reused_id split_at arrival producer_request 100 7 (server 100) (server 85)
      two_servers success old_call refl (omega arith) refl refl refl refl
