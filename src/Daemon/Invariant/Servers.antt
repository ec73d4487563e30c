-- ===== src/Daemon/Invariant/Servers.antt =====
-- Registration of a producer, and the sweep over the servers, keep the state well-formed.
use push_system.Common.{
  ℕ, ◌≡◌, refl, List, [], ◌∷◌, ◌++◌, none, some, Bool, true, false, arith, All, IsSome, inl, inr,
  Option-cases, if◌then◌else◌, Text, text_eq,
}
use mathlib.Core.Path.{subst}
use push_system.Shared.{cal_load_balance_score}
use push_system.Shared.Score.{of_nat_nonneg, cal_load_balance_score-nonneg}
use push_system.Double.{Double}
use push_system.StdMap.{
  StdMap, find, Each, Each-adjust, Each-assign, Each-insert, insert, assign, adjust, IsSorted,
  Above, has-adjust, has-assign, has-insert, adjust-IsSorted, All-of_find, assign-IsSorted,
  insert-IsSorted,
}
use push_system.Daemon.Balance.{rebalance}
use push_system.Daemon.State.{State, ServerInfo, ProducerState}
use push_system.Daemon.Registry.{
  next_server_id, parse_and_get_ip, producer_proc, client_register, admit_producer, new_producer,
  Arrival, ClientRegisterRequest,
}
use push_system.Daemon.Alive.{drop_server, sweep, is_expired, check_proc_alive, clear_fails}
use push_system.Daemon.Invariant.{Inv, HasStub, IsProducer, WellFormed, rebalance-WellFormed}
use push_system.Daemon.Invariant.Handlers.{remove_producer-WellFormed}

pub clear_fails-find :
    (j : ℕ) (m : StdMap ProducerState)
    → find j (clear_fails m)
      ≡ elim (find j m) [ none ↦ none | some p ↦ some (record p { fail_count = 0 }) ]
unfolding clear_fails find
clear_fails-find j [] = refl
clear_fails-find j ((k, p) ∷ m) = ground (arith, clear_fails-find j m)

clear_fails-Above : (k : ℕ) (m : StdMap ProducerState) → Above k m → Above k (clear_fails m)
unfolding clear_fails
clear_fails-Above k [] a = tt
clear_fails-Above k ((j, p) ∷ m) a = (a.0, clear_fails-Above k m a.1)

clear_fails-IsSorted : (m : StdMap ProducerState) → IsSorted m → IsSorted (clear_fails m)
unfolding clear_fails
clear_fails-IsSorted [] s = tt
clear_fails-IsSorted ((k, p) ∷ m) s =
    (unfold clear_fails in clear_fails-Above k m s.0, clear_fails-IsSorted m s.1)

clear_fails-HasStub : (m : StdMap ProducerState) → Each HasStub m → Each HasStub (clear_fails m)
clear_fails-HasStub m e j p q = elim (Option-cases (find j m)) [
  | inl t ↦ absurd (ground (arith, clear_fails-find j m))
  | inr (v, t) ↦
      let same : v.producer_caller ≡ p.producer_caller = ground (arith, clear_fails-find j m) in
      subst (λ c. IsSome c.stub) same (e j v t)
]

module _ {D : Type 0} ⦃dbl : Double D⦄ where
  open dbl use {le, of_nat}

  clear_fails-WellFormed :
      (s : State D)
      → WellFormed s
      → WellFormed (record s { producer_states = clear_fails s.producer_states })
  clear_fails-WellFormed s w = record {
    inv = record {
      info_sorted = w.inv.info_sorted;
      states_sorted = clear_fails-IsSorted s.producer_states w.inv.states_sorted;
      producers = w.inv.producers;
      scores = w.inv.scores;
      stubs = clear_fails-HasStub s.producer_states w.inv.stubs;
      same_keys = λ j. ground (arith, w.inv.same_keys j, clear_fails-find j s.producer_states);
      idle_known =
          λ j h. ground (arith, w.inv.idle_known j h, clear_fails-find j s.producer_states);
    };
    ranks = record { ranked = w.ranks.ranked; non_neg = w.ranks.non_neg; filled = w.ranks.filled };
  }

  -- The state of a registration before its `Rebalance`.
  abbrev pub admitted : ℕ → Text → ServerInfo D → State D → State D
  admitted id address info s = record s {
    svr_info =
        adjust id (λ i. record i { score = cal_load_balance_score (of_nat 0) })
          (insert id info s.svr_info);
    producer_states = assign id (new_producer address) s.producer_states;
    idle_producers = insert id tt s.idle_producers;
  }

  pub admitted-Inv :
      (id : ℕ) (address : Text) (info : ServerInfo D) (s : State D)
      → IsProducer info
      → le (of_nat 0) info.score ≡ true
      → WellFormed s
      → Inv (admitted id address info s)
  admitted-Inv id address info s named scored w = record {
    info_sorted =
        adjust-IsSorted id _ entered (insert-IsSorted id info s.svr_info w.inv.info_sorted);
    states_sorted = assign-IsSorted id _ s.producer_states w.inv.states_sorted;
    producers =
        Each-adjust IsProducer id _ entered (λ i h. h)
          (Each-insert IsProducer id info s.svr_info named w.inv.producers);
    scores =
        Each-adjust (λ i. le (of_nat 0) i.score ≡ true) id _ entered
          (λ i h. cal_load_balance_score-nonneg (of_nat 0) (of_nat_nonneg D 0))
          (Each-insert (λ i. le (of_nat 0) i.score ≡ true) id info s.svr_info scored w.inv.scores);
    stubs = Each-assign HasStub id _ s.producer_states (unfold new_producer in tt) w.inv.stubs;
    same_keys = λ j. ground (
      arith,
      w.inv.same_keys j,
      has-assign j id (new_producer address) s.producer_states,
      has-adjust j id (λ i. record i { score = cal_load_balance_score (of_nat 0) }) entered,
      has-insert j id info s.svr_info,
    );
    idle_known = λ j h. ground (
      arith,
      w.inv.idle_known j,
      has-assign j id (new_producer address) s.producer_states,
      has-insert j id tt s.idle_producers,
    );
  }
    where
      entered : StdMap (ServerInfo D)
      entered = insert id info s.svr_info

  admit_producer-WellFormed :
      (id : ℕ) (address : Text) (info : ServerInfo D) (s : State D)
      → IsProducer info
      → le (of_nat 0) info.score ≡ true
      → WellFormed s
      → WellFormed (admit_producer id address (record s { svr_info = insert id info s.svr_info }))
  unfolding admit_producer
  admit_producer-WellFormed id address info s named scored w =
      rebalance-WellFormed _ (admitted-Inv id address info s named scored w)

  -- The registration of a producer keeps the state well-formed.
  pub client_register-WellFormed :
      (split : (ℕ → Bool) → Text → List Text) (from : Arrival) (request : ClientRegisterRequest)
      (s : State D)
      → text_eq producer_proc request.proc_name ≡ true
      → WellFormed s
      → WellFormed (client_register split from request s).0
  unfolding client_register
  client_register-WellFormed split from request s named w =
      rw named (admit_producer-WellFormed _ _ _ s named (of_nat_nonneg D 0) w)

  sweep-WellFormed :
      (now : ℕ) (m : StdMap (ServerInfo D)) (s : State D)
      → All (λ e. IsProducer e.1) m
      → WellFormed s
      → WellFormed (sweep now m s)
  unfolding sweep
  sweep-WellFormed now [] s a w = w
  sweep-WellFormed now ((id, info) ∷ rest) s a w =
      sweep-WellFormed now rest _ a.1 (after (is_expired now info))
    where
      after : (b : Bool) → WellFormed (if b then drop_server id info s else s)
      after true = unfold drop_server in rw a.0 (remove_producer-WellFormed id s w)
      after false = w

  -- A round of `CheckProcAlive` keeps the state well-formed.
  pub check_proc_alive-WellFormed :
      (now : ℕ) (s : State D) → WellFormed s → WellFormed (check_proc_alive now s)
  unfolding check_proc_alive
  check_proc_alive-WellFormed now s w = clear_fails-WellFormed (sweep now s.svr_info s) (
      sweep-WellFormed now s.svr_info s
        (All-of_find (λ e. IsProducer e.1) s.svr_info w.inv.info_sorted w.inv.producers) w)

  -- The registration of a producer, up to its `Rebalance`.
  pub client_register-admitted :
      (split : (ℕ → Bool) → Text → List Text) (from : Arrival) (request : ClientRegisterRequest)
      (s : State D)
      → text_eq producer_proc request.proc_name ≡ true
      → WellFormed s
      → (address : Text) × ((info : ServerInfo D) × ((client_register split from request s).0
            ≡ rebalance (admitted (next_server_id from.random s.svr_info) address info s))
          × Inv (admitted (next_server_id from.random s.svr_info) address info s))
  unfolding client_register admit_producer
  client_register-admitted split from request s named w = (
    parse_and_get_ip split from.peer ++ b':' ∷ request.listening_port,
    (info, rw named refl, admitted-Inv _ _ info s named (of_nat_nonneg D 0) w),
  )
    where
      info : ServerInfo D
      info = record {
        address = parse_and_get_ip split from.peer ++ b':' ∷ request.listening_port;
        proc_name = request.proc_name;
        group_id = request.group_id;
        timestamp = from.now;
        score = of_nat 0;
      }
