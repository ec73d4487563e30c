-- ===== src/Daemon/Queue.antt =====
-- What each critical section does to the queue of calls and to `sendingCount`.
use push_system.Common.{
  ℕ, ◌+◌, ◌≡◌, refl, List, [], ◌∷◌, Option, none, some, Bool, true, false, arith, inl, inr, ◌⊎◌,
  if◌then◌else◌, ◌>>=◌, Text, sym, ◌∙◌,
}
use push_system.Common.Word.{inc32, dec32, u64}
use push_system.Double.{Double}
use push_system.StdMap.{StdMap}
use push_system.Daemon.State.{State, ServerInfo, ProduceMsgRequest}
use push_system.Daemon.Balance.{rebalance}
use push_system.Daemon.Registry.{
  Arrival, ClientRegisterRequest, client_register, admit_producer, heart_beat, load_balance,
}
use push_system.Daemon.Alive.{drop_server, sweep, check_proc_alive, is_expired}
use push_system.Daemon.Dispatch.{
  uid_count_per_time, chunk, dispatch, send_chunk, pick_by_rank, select_turn,
}
use push_system.Daemon.Replies.{decrease_producer_task, break_circuit}

-- The queue and the counter of a state.
pub record SameQueue {D : Type 0} (s t : State D) : Type 0 where
  pub calls : t.calls ≡ s.calls
  pub count : t.sending_count ≡ s.sending_count

SameQueue-trans : {D : Type 0} {r s t : State D} → SameQueue r s → SameQueue s t → SameQueue r t
SameQueue-trans p q = record { calls = q.calls ∙ p.calls; count = q.count ∙ p.count }

module _ {D : Type 0} ⦃dbl : Double D⦄ where
  pub rebalance-SameQueue : (s : State D) → SameQueue s (rebalance s)
  unfolding rebalance
  rebalance-SameQueue s = record { calls = refl; count = refl }

  pub client_register-SameQueue :
      (split : (ℕ → Bool) → Text → List Text) (from : Arrival) (request : ClientRegisterRequest)
      (s : State D)
      → SameQueue s (client_register split from request s).0
  unfolding client_register admit_producer rebalance
  client_register-SameQueue split from request s = record {
    calls = ground arith;
    count = ground arith;
  }

  pub heart_beat-SameQueue : (now id : ℕ) (s : State D) → SameQueue s (heart_beat now id s).0
  unfolding heart_beat
  heart_beat-SameQueue now id s = record { calls = ground arith; count = ground arith }

  pub load_balance-SameQueue :
      (id n : ℕ) (score : Text) (s : State D) → SameQueue s (load_balance id n score s).0
  unfolding load_balance
  load_balance-SameQueue id n score s = record { calls = ground arith; count = ground arith }

  drop_server-SameQueue :
      (b : Bool) (id : ℕ) (info : ServerInfo D) (s : State D)
      → SameQueue s (if b then drop_server id info s else s)
  unfolding drop_server rebalance
  drop_server-SameQueue true id info s = record { calls = ground arith; count = ground arith }
  drop_server-SameQueue false id info s = record { calls = refl; count = refl }

  sweep-SameQueue :
      (now : ℕ) (m : StdMap (ServerInfo D)) (s : State D) → SameQueue s (sweep now m s)
  unfolding sweep
  sweep-SameQueue now [] s = record { calls = refl; count = refl }
  sweep-SameQueue now ((id, info) ∷ rest) s =
      SameQueue-trans (drop_server-SameQueue (is_expired now info) id info s)
        (sweep-SameQueue now rest _)

  pub check_proc_alive-SameQueue : (now : ℕ) (s : State D) → SameQueue s (check_proc_alive now s)
  unfolding check_proc_alive
  check_proc_alive-SameQueue now s =
      let swept = sweep-SameQueue now s.svr_info s in
      record { calls = swept.calls; count = swept.count }

  pub timer-SameQueue : (s : State D) → SameQueue s (rebalance s)
  timer-SameQueue s = rebalance-SameQueue s

  pub break_circuit-SameQueue : (id : ℕ) (s : State D) → SameQueue s (break_circuit id s)
  unfolding break_circuit rebalance
  break_circuit-SameQueue id s = record { calls = ground arith; count = ground arith }

module _ {D : Type 0} where
  pub decrease-calls : (id : ℕ) (s : State D) → (decrease_producer_task id s).calls ≡ s.calls
  unfolding decrease_producer_task
  decrease-calls id s = ground arith

  pub decrease-count :
      (id : ℕ) (s : State D) → (decrease_producer_task id s).sending_count ≡ dec32 s.sending_count
  unfolding decrease_producer_task
  decrease-count id s = ground arith

  -- A call more, for the chunk at `cur`, and `curUid` moved on.
  pub record Sent (request : ProduceMsgRequest) (cur : ℕ) (s : State D) (t : State D × ℕ)
      : Type 0 where
    pub id : ℕ
    pub calls : t.0.calls ≡ record { svr_id = id; request = chunk request cur } ∷ s.calls
    pub count : t.0.sending_count ≡ inc32 s.sending_count
    pub moved : t.1 ≡ u64 (cur + uid_count_per_time)

  send_chunk-Sent :
      (id : ℕ) (request : ProduceMsgRequest) (cur : ℕ) (s : State D) (t : State D × ℕ)
      → send_chunk id request cur s ≡ some t
      → Sent request cur s t
  unfolding send_chunk dispatch
  send_chunk-Sent id request cur s t e = record {
    id = id;
    calls = ground arith;
    count = ground arith;
    moved = ground arith;
  }

module _ {D : Type 0} ⦃dbl : Double D⦄ where
  busy_cases :
      (free : Bool) (choice : Option ℕ) (request : ProduceMsgRequest) (cur : ℕ) (s : State D)
      (t : State D × ℕ)
      → (if free then (choice >>= λ id. send_chunk id request cur s) else some (s, cur)) ≡ some t
      → (t ≡ (s, cur)) ⊎ Sent request cur s t
  busy_cases false choice request cur s t e = inl (sym (some_eq e))
    where
      some_eq : some (s, cur) ≡ some t → (s, cur) ≡ t
      some_eq q = ground arith
  busy_cases true none request cur s t e = absurd (ground arith)
  busy_cases true (some id) request cur s t e = inr (send_chunk-Sent id request cur s t e)

  idle_cases :
      (draw : ℕ) (request : ProduceMsgRequest) (cur : ℕ) (s : State D) (t : State D × ℕ)
      (idle : StdMap (Unit {0}))
      → s.idle_producers ≡ idle
      → select_turn draw request cur s ≡ some t
      → (t ≡ (s, cur)) ⊎ Sent request cur s t
  unfolding select_turn
  idle_cases draw request cur s t [] q e =
      busy_cases _ (pick_by_rank draw s) request cur s t (rw (q, select_turn) at e)
  idle_cases draw request cur s t ((id, u) ∷ others) q e =
      let sent =
        send_chunk-Sent id request cur (record s { idle_producers = others }) t
          (rw (q, select_turn) at e) in
      inr (record { id = sent.id; calls = sent.calls; count = sent.count; moved = sent.moved })

  -- A round of the loop sends the chunk at `cur` or leaves everything as it was.
  pub select_turn_cases :
      (draw : ℕ) (request : ProduceMsgRequest) (cur : ℕ) (s : State D) (t : State D × ℕ)
      → select_turn draw request cur s ≡ some t
      → (t ≡ (s, cur)) ⊎ Sent request cur s t
  select_turn_cases draw request cur s t e = idle_cases draw request cur s t s.idle_producers refl e
