-- ===== src/Daemon/Invariant/Handlers.antt =====
-- Each critical section of the daemon keeps the state well-formed.
use push_system.Common.{
  ℕ, ◌≡◌, List, some, Bool, true, false, ◌==◌, arith, All-mono, inl, inr, Option-cases,
  if◌then◌else◌, Text, ltb, ==_iff,
}
use push_system.Common.Word.{inc32, dec32}
use push_system.Double.{Double}
use push_system.StdMap.{
  StdMap, find, Each-adjust, Each-erase, has, insert, erase, adjust, has-adjust, has-erase,
  has-insert, adjust-IsSorted, erase-IsSorted,
}
use push_system.Daemon.State.{State, ServerInfo, ProducerState, Call}
use push_system.Daemon.Registry.{heart_beat, read_score, load_balance}
use push_system.Daemon.Replies.{decrease_producer_task, break_circuit}
use push_system.Daemon.Balance.{rebalance}
use push_system.Daemon.Invariant.{HasStub, IsProducer, Inv, WellFormed, rebalance-WellFormed}

module _ {D : Type 0} ⦃dbl : Double D⦄ where
  open dbl use {le, of_nat}

  -- A write to an entry of `gSvrId2SvrInfo` that leaves the name and a fit score.
  adjust_info-WellFormed :
      (id : ℕ) (f : ServerInfo D → ServerInfo D) (s : State D)
      → ((i : ServerInfo D) → IsProducer i → IsProducer (f i))
      → ((i : ServerInfo D) → le (of_nat 0) i.score ≡ true → le (of_nat 0) (f i).score ≡ true)
      → WellFormed s
      → WellFormed (record s { svr_info = adjust id f s.svr_info })
  adjust_info-WellFormed id f s named scored w = record {
    inv = record {
      info_sorted = adjust-IsSorted id f s.svr_info w.inv.info_sorted;
      states_sorted = w.inv.states_sorted;
      producers = Each-adjust IsProducer id f s.svr_info named w.inv.producers;
      scores = Each-adjust (λ i. le (of_nat 0) i.score ≡ true) id f s.svr_info scored w.inv.scores;
      stubs = w.inv.stubs;
      same_keys = λ j. ground (arith, w.inv.same_keys j, has-adjust j id f s.svr_info);
      idle_known = w.inv.idle_known;
    };
    ranks = record {
      ranked =
          All-mono (λ e. ground (arith, has-adjust e.1 id f s.svr_info)) s.rank_to_svr
            w.ranks.ranked;
      non_neg = w.ranks.non_neg;
      filled = λ j h. w.ranks.filled j (ground (arith, has-adjust j id f s.svr_info));
    };
  }

  -- A heart beat keeps the state well-formed.
  pub heart_beat-WellFormed :
      (now id : ℕ) (s : State D) → WellFormed s → WellFormed (heart_beat now id s).0
  unfolding heart_beat
  heart_beat-WellFormed now id s w = elim (Option-cases (find id s.svr_info)) [
    | inl e ↦ rw (e, heart_beat) w
    | inr (i, e) ↦ rw (e, heart_beat) (adjust_info-WellFormed id _ s (λ i h. h) (λ i h. h) w)
  ]

  -- So does a report of a score that is not negative.
  pub load_balance-WellFormed :
      (id n : ℕ) (text : Text) (s : State D)
      → le (of_nat 0) (read_score n text) ≡ true
      → WellFormed s
      → WellFormed (load_balance id n text s).0
  unfolding load_balance
  load_balance-WellFormed id n text s h w = elim (Option-cases (find id s.svr_info)) [
    | inl e ↦ rw (e, load_balance) w
    | inr (i, e) ↦ rw (e, load_balance) (adjust_info-WellFormed id _ s (λ i h. h) (λ i _. h) w)
  ]

  -- A write to an entry of `gSvrId2ProducerState` that leaves its stub, with whatever else changes
  -- only in `gSetIdleProducer` and in the counter and the queue of calls.
  pub adjust_states-WellFormed :
      (id : ℕ) (f : ProducerState → ProducerState) (s : State D) (idle : StdMap (Unit {0}))
      (count : ℕ) (calls : List Call)
      → ((p : ProducerState) → HasStub p → HasStub (f p))
      → ((j : ℕ) → has j idle ≡ true → has j s.producer_states ≡ true)
      → WellFormed s
      → WellFormed (record s {
        producer_states = adjust id f s.producer_states;
        idle_producers = idle;
        sending_count = count;
        calls = calls;
      })
  adjust_states-WellFormed id f s idle count calls kept known w = record {
    inv = record {
      info_sorted = w.inv.info_sorted;
      states_sorted = adjust-IsSorted id f s.producer_states w.inv.states_sorted;
      producers = w.inv.producers;
      scores = w.inv.scores;
      stubs = Each-adjust HasStub id f s.producer_states kept w.inv.stubs;
      same_keys = λ j. ground (arith, w.inv.same_keys j, has-adjust j id f s.producer_states);
      idle_known = λ j h. ground (arith, known j h, has-adjust j id f s.producer_states);
    };
    ranks = record { ranked = w.ranks.ranked; non_neg = w.ranks.non_neg; filled = w.ranks.filled };
  }

  set_count-WellFormed :
      (count : ℕ) (s : State D) → WellFormed s → WellFormed (record s { sending_count = count })
  set_count-WellFormed count s w = record {
    inv = record {
      info_sorted = w.inv.info_sorted;
      states_sorted = w.inv.states_sorted;
      producers = w.inv.producers;
      scores = w.inv.scores;
      stubs = w.inv.stubs;
      same_keys = w.inv.same_keys;
      idle_known = w.inv.idle_known;
    };
    ranks = record { ranked = w.ranks.ranked; non_neg = w.ranks.non_neg; filled = w.ranks.filled };
  }

  -- The end of a task keeps the state well-formed.
  pub decrease_producer_task-WellFormed :
      (id : ℕ) (s : State D) → WellFormed s → WellFormed (decrease_producer_task id s)
  unfolding decrease_producer_task
  decrease_producer_task-WellFormed id s w = elim (Option-cases (find id s.producer_states)) [
    | inl e ↦ rw (e, decrease_producer_task) (set_count-WellFormed _ s w)
    | inr (p, e) ↦
        rw (e, decrease_producer_task)
          (adjust_states-WellFormed id _ s _ _ s.calls (λ q h. h)
            (λ j h. idle_after (dec32 p.cur_task_count == 0) p e j h) w)
  ]
    where
      idle_after :
          (b : Bool) (p : ProducerState)
          → find id s.producer_states ≡ some p
          → (j : ℕ) → has j (if b then insert id tt s.idle_producers else s.idle_producers) ≡ true
          → has j s.producer_states ≡ true
      idle_after true p e j h =
          ground (arith, has-insert j id tt s.idle_producers, w.inv.idle_known j, ==_iff id j)
      idle_after false p e j h = w.inv.idle_known j h

  -- A producer leaves all three maps.
  abbrev pub without : ℕ → State D → State D
  without id s = record s {
    svr_info = erase id s.svr_info;
    producer_states = erase id s.producer_states;
    idle_producers = erase id s.idle_producers;
  }

  pub without-Inv : (id : ℕ) (s : State D) → WellFormed s → Inv (without id s)
  without-Inv id s w = record {
    info_sorted = erase-IsSorted id s.svr_info w.inv.info_sorted;
    states_sorted = erase-IsSorted id s.producer_states w.inv.states_sorted;
    producers = Each-erase IsProducer id s.svr_info w.inv.producers;
    scores = Each-erase (λ i. le (of_nat 0) i.score ≡ true) id s.svr_info w.inv.scores;
    stubs = Each-erase HasStub id s.producer_states w.inv.stubs;
    same_keys = λ j.
        ground
          (arith, w.inv.same_keys j, has-erase j id s.producer_states, has-erase j id s.svr_info);
    idle_known = λ j h. ground (
      arith,
      w.inv.idle_known j,
      has-erase j id s.producer_states,
      has-erase j id s.idle_producers,
    );
  }

  -- It leaves them, and the ranks are made anew.
  pub remove_producer-WellFormed :
      (id : ℕ) (s : State D) → WellFormed s → WellFormed (rebalance (without id s))
  remove_producer-WellFormed id s w = rebalance-WellFormed _ (without-Inv id s w)

  pub break_circuit-WellFormed :
      (id : ℕ) (s : State D) → WellFormed s → WellFormed (break_circuit id s)
  unfolding break_circuit
  break_circuit-WellFormed id s w = elim (Option-cases (find id s.producer_states)) [
    | inl e ↦ rw (e, break_circuit) w
    | inr (p, e) ↦
        rw (e, break_circuit) (tripped (ltb 50 (inc32 p.fail_count)) (inc32 p.fail_count))
  ]
    where
      tripped :
          (b : Bool) (fails : ℕ)
          → WellFormed (
              if b
              then rebalance (record s {
                idle_producers = erase id s.idle_producers;
                producer_states = erase id s.producer_states;
                svr_info = erase id s.svr_info;
              })
              else record s {
                producer_states =
                    adjust id (λ q. record q { fail_count = fails }) s.producer_states;
              })
      tripped true fails = remove_producer-WellFormed id s w
      tripped false fails =
          adjust_states-WellFormed id _ s s.idle_producers s.sending_count s.calls (λ q h. h)
            w.inv.idle_known w
