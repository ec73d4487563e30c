-- ===== src/Daemon/Dispatch/NullStub.antt =====
-- A registered server that is not a producer: its score of 0 takes over the rank of the producer
-- before it, and it has no stub.
use push_system.Common.{
  ℕ, ◌+◌, ◌<◌, ◌≤◌, ◌^◌, ◌≡◌, refl, List, [], ◌∷◌, ◌++◌, none, Bool, true, false, arith, Text,
  text_eq,
}
use push_system.Double.{Double}
use push_system.StdMap.{find, touch, assign, insert, last_key, adjust}
use push_system.Daemon.State.{
  State, ServerInfo, ProducerState, ProduceMsgRequest, Call, no_producer,
}
use push_system.Daemon.Balance.{rebalance, rebalance_loop, rank_assign, lower_bound, last_rank}
use push_system.Daemon.Registry.{
  parse_and_get_ip, Arrival, ClientRegisterRequest, producer_proc, client_register, next_server_id,
}
use push_system.Daemon.Dispatch.{factor, dispatch, pick_by_rank, select_turn}

module _ {D : Type 0} ⦃dbl : Double D⦄ where
  open dbl use {le, plus, times, over, of_nat}

  -- One producer is registered, and it is busy.
  abbrev pub one_busy : ℕ → ServerInfo D → ProducerState → List (D × ℕ) → ℕ → List Call → State D
  one_busy id info producer ranks count calls = record {
    svr_info = (id, info) ∷ [];
    rank_to_svr = ranks;
    producer_states = (id, producer) ∷ [];
    idle_producers = [];
    sending_count = count;
    calls = calls;
  }

  registered :
      (split : (ℕ → Bool) → Text → List Text) (from : Arrival) (request : ClientRegisterRequest)
      (id : ℕ) (info : ServerInfo D) (producer : ProducerState) (ranks : List (D × ℕ)) (count : ℕ)
      (calls : List Call)
      → text_eq producer_proc request.proc_name ≡ false
      → id + 1 < 2 ^ 64
      → (other : ServerInfo D) × (other.score ≡ of_nat 0)
        × ((client_register split from request (one_busy id info producer ranks count calls)).0
            ≡ record (one_busy id info producer ranks count calls) {
              svr_info = (id, info) ∷ (id + 1, other) ∷ [];
            })
  unfolding client_register next_server_id last_key insert assign find
  registered split from request id info producer ranks count calls other_name room = (
    record {
      address = parse_and_get_ip split from.peer ++ b':' ∷ request.listening_port;
      proc_name = request.proc_name;
      group_id = request.group_id;
      timestamp = from.now;
      score = of_nat 0;
    },
    refl,
    ground arith,
  )

  rebalanced :
      (id : ℕ) (info other : ServerInfo D) (producer : ProducerState) (ranks : List (D × ℕ))
      (count : ℕ) (calls : List Call)
      → other.score ≡ of_nat 0
      → rebalance (record (one_busy id info producer ranks count calls) {
        svr_info = (id, info) ∷ (id + 1, other) ∷ [];
      })
        ≡ record {
          svr_info = (id, info) ∷ (id + 1, other) ∷ [];
          rank_to_svr = (plus (of_nat 0) info.score, id + 1) ∷ [];
          producer_states = (id, producer) ∷ (id + 1, no_producer) ∷ [];
          idle_producers = [];
          sending_count = count;
          calls = calls;
        }
  unfolding rebalance rebalance_loop rank_assign touch assign find
  rebalanced id info other producer ranks count calls zero_score = ground (
    arith,
    dbl.plus_zero (plus (of_nat 0) info.score),
    dbl.le_total (plus (of_nat 0) info.score) (plus (of_nat 0) info.score),
  )

  faults :
      (id count draw cur : ℕ) (rank : D) (info other : ServerInfo D) (producer : ProducerState)
      (calls : List Call) (push : ProduceMsgRequest)
      → count ≤ 6
      → draw ≤ factor
      → le (of_nat 0) rank ≡ true
      → select_turn draw push cur (record {
        svr_info = (id, info) ∷ (id + 1, other) ∷ [];
        rank_to_svr = (rank, id + 1) ∷ [];
        producer_states = (id, producer) ∷ (id + 1, no_producer) ∷ [];
        idle_producers = [];
        sending_count = count;
        calls = calls;
      })
        ≡ none
  unfolding select_turn pick_by_rank last_rank lower_bound dispatch touch find adjust
  faults id count draw cur rank info other producer calls push low d up =
      ground (arith, dbl.fraction_le draw factor rank d (omega arith) up)

  -- While one producer is the only server, with an id below 2⁶⁴ - 1, a score that is not negative,
  -- and busy with at most six calls, the registration of any server that is not a producer and the
  -- next Rebalance make every further round of a push undefined, whatever is drawn within range:
  -- the rank map then names only the other server, whose stub is null.
  pub select_turn-null_stub :
      (split : (ℕ → Bool) → Text → List Text) (from : Arrival) (request : ClientRegisterRequest)
      (id : ℕ) (info : ServerInfo D) (producer : ProducerState) (ranks : List (D × ℕ)) (count : ℕ)
      (calls : List Call) (draw : ℕ) (push : ProduceMsgRequest) (cur : ℕ)
      → text_eq producer_proc request.proc_name ≡ false
      → id + 1 < 2 ^ 64
      → le (of_nat 0) info.score ≡ true
      → count ≤ 6
      → draw ≤ factor
      → select_turn draw push cur (
          rebalance
            (client_register split from request (one_busy id info producer ranks count calls)).0)
        ≡ none
  select_turn-null_stub split from request id info producer ranks count calls draw push cur name
        room score low d =
      let entered = registered split from request id info producer ranks count calls name room in
      rw (entered.2, rebalanced id info entered.0 producer ranks count calls entered.1)
        (faults id count draw cur (plus (of_nat 0) info.score) info entered.0 producer calls push
          low d (dbl.plus_grows (of_nat 0) info.score score))
