-- ===== src/Daemon/Invariant/Shrinks.antt =====
-- What the sections that neither register, send nor take an answer do to the producers and their
-- tasks: producers may leave, nothing is added.
use push_system.Common.{
  ℕ, ◌≡◌, ◌≤◌, refl, [], ◌∷◌, some, Bool, true, false, arith, All, inl, inr, ◌∙◌, Option-cases,
  length, if◌then◌else◌, ltb, Text,
}
use push_system.Common.Word.{inc32}
use push_system.Double.{Double}
use push_system.StdMap.{
  StdMap, find, has, adjust, IsSorted, All-of_find, find-erase, find-adjust, has-erase,
  erase-IsSorted, length-erase-le, length-adjust,
}
use push_system.Daemon.State.{State, ServerInfo, ProducerState}
use push_system.Daemon.Registry.{heart_beat, load_balance}
use push_system.Daemon.Balance.{rebalance}
use push_system.Daemon.Alive.{drop_server, sweep, is_expired, check_proc_alive, clear_fails}
use push_system.Daemon.Replies.{break_circuit}
use push_system.Daemon.Invariant.{IsProducer, Inv, WellFormed, rebalance_states}
use push_system.Daemon.Invariant.Handlers.{without, without-Inv, remove_producer-WellFormed}
use push_system.Daemon.Invariant.Servers.{clear_fails-find}

-- A write of a `fail_count` leaves the tasks.
same_tasks :
    (id fails : ℕ) (m : StdMap ProducerState) (j : ℕ) (p : ProducerState)
    → find j (adjust id (λ q. record q { fail_count = fails }) m) ≡ some p
    → (q : ProducerState) × (find j m ≡ some q) × (p.cur_task_count ≡ q.cur_task_count)
same_tasks id fails m j p e = elim (Option-cases (find j m)) [
  | inl none_there ↦
      absurd (
        ground (arith, find-adjust j id (λ (q : ProducerState). record q { fail_count = fails }) m))
  | inr (q, there) ↦ (
    q,
    there,
    ground (arith, find-adjust j id (λ (q : ProducerState). record q { fail_count = fails }) m),
  )
]

length-clear_fails : (m : StdMap ProducerState) → length (clear_fails m) ≡ length m
unfolding clear_fails
length-clear_fails [] = refl
length-clear_fails (e ∷ m) = ground (arith, length-clear_fails m)

module _ {D : Type 0} where
  pub record Shrinks (s t : State D) : Type 0 where
    pub idle_sorted : IsSorted s.idle_producers → IsSorted t.idle_producers
    pub idle_size : length t.idle_producers ≤ length s.idle_producers
    pub size : length t.producer_states ≤ length s.producer_states
    -- A producer that is still there has its tasks, and is idle if it was.
    pub kept :
        (id : ℕ) (p : ProducerState)
        → find id t.producer_states ≡ some p
        → (q : ProducerState) × (find id s.producer_states ≡ some q)
          × (p.cur_task_count ≡ q.cur_task_count)
          × (has id t.idle_producers ≡ has id s.idle_producers)

  Shrinks-refl : (s : State D) → Shrinks s s
  Shrinks-refl s = record {
    idle_sorted = λ h. h;
    idle_size = omega arith;
    size = omega arith;
    kept = λ id p e. (p, e, refl, refl);
  }

  Shrinks-trans : {r s t : State D} → Shrinks r s → Shrinks s t → Shrinks r t
  Shrinks-trans a b = record {
    idle_sorted = λ h. b.idle_sorted (a.idle_sorted h);
    idle_size = omega (arith, a.idle_size, b.idle_size);
    size = omega (arith, a.size, b.size);
    kept = λ id p e.
        let q = b.kept id p e in let r = a.kept id q.0 q.1 in (r.0, r.1, q.2 ∙ r.2, q.3 ∙ r.3);
  }

module _ {D : Type 0} ⦃dbl : Double D⦄ where
  without-Shrinks : (id : ℕ) (s : State D) → Shrinks s (without id s)
  without-Shrinks id s = record {
    idle_sorted = erase-IsSorted id s.idle_producers;
    idle_size = length-erase-le id s.idle_producers;
    size = length-erase-le id s.producer_states;
    kept = λ j p e. (
      p,
      ground (arith, find-erase j id s.producer_states),
      refl,
      ground (arith, find-erase j id s.producer_states, has-erase j id s.idle_producers),
    );
  }

  pub rebalance-Shrinks : (s : State D) → Inv s → Shrinks s (rebalance s)
  rebalance-Shrinks s v = record {
    idle_sorted = unfold rebalance in (λ h. h);
    idle_size = unfold rebalance in omega arith;
    size = rw (rebalance_states s v) (omega arith);
    kept = λ id p e. (p, (rw (rebalance_states s v) at e), refl, unfold rebalance in refl);
  }

  info-Shrinks : (m : StdMap (ServerInfo D)) (s : State D) → Shrinks s (record s { svr_info = m })
  info-Shrinks m s = record {
    idle_sorted = λ h. h;
    idle_size = omega arith;
    size = omega arith;
    kept = λ j p e. (p, e, refl, refl);
  }

  clear_fails-Shrinks :
      (s : State D) → Shrinks s (record s { producer_states = clear_fails s.producer_states })
  clear_fails-Shrinks s = record {
    idle_sorted = λ h. h;
    idle_size = omega arith;
    size = omega (arith, length-clear_fails s.producer_states);
    kept = λ j p e. elim (Option-cases (find j s.producer_states)) [
      | inl none_there ↦ absurd (ground (arith, clear_fails-find j s.producer_states))
      | inr (q, there) ↦ (q, there, ground (arith, clear_fails-find j s.producer_states), refl)
    ];
  }

  -- A producer leaves, and the ranks are made anew.
  remove_producer-Shrinks :
      (id : ℕ) (s : State D) → WellFormed s → Shrinks s (rebalance (without id s))
  remove_producer-Shrinks id s w =
      Shrinks-trans (without-Shrinks id s) (rebalance-Shrinks (without id s) (without-Inv id s w))

  pub break_circuit-Shrinks : (id : ℕ) (s : State D) → WellFormed s → Shrinks s (break_circuit id s)
  unfolding break_circuit
  break_circuit-Shrinks id s w = elim (Option-cases (find id s.producer_states)) [
    | inl e ↦ rw (e, break_circuit) (Shrinks-refl s)
    | inr (p, e) ↦
        rw (e, break_circuit) (tripped (ltb 50 (inc32 p.fail_count)) (inc32 p.fail_count))
  ]
    where
      tripped :
          (b : Bool) (fails : ℕ)
          → Shrinks s (
              if b then rebalance (without id s) else record s {
                producer_states =
                    adjust id (λ q. record q { fail_count = fails }) s.producer_states;
              })
      tripped true fails = remove_producer-Shrinks id s w
      tripped false fails = record {
        idle_sorted = λ h. h;
        idle_size = omega arith;
        size = omega (
          arith,
          length-adjust id (λ (q : ProducerState). record q { fail_count = fails })
              s.producer_states,
        );
        kept =
            λ j p e. let q = same_tasks id fails s.producer_states j p e in (q.0, q.1, q.2, refl);
      }

  -- A heart beat and a report write one server's entry.
  pub heart_beat-Shrinks : (now id : ℕ) (s : State D) → Shrinks s (heart_beat now id s).0
  unfolding heart_beat
  heart_beat-Shrinks now id s = elim (Option-cases (find id s.svr_info)) [
    | inl e ↦ rw (e, heart_beat) (Shrinks-refl s)
    | inr (i, e) ↦ rw (e, heart_beat) (info-Shrinks _ s)
  ]

  pub load_balance-Shrinks :
      (id n : ℕ) (text : Text) (s : State D) → Shrinks s (load_balance id n text s).0
  unfolding load_balance
  load_balance-Shrinks id n text s = elim (Option-cases (find id s.svr_info)) [
    | inl e ↦ rw (e, load_balance) (Shrinks-refl s)
    | inr (i, e) ↦ rw (e, load_balance) (info-Shrinks _ s)
  ]

  sweep-Shrinks :
      (now : ℕ) (m : StdMap (ServerInfo D)) (s : State D)
      → All (λ e. IsProducer e.1) m
      → WellFormed s
      → Shrinks s (sweep now m s)
  unfolding sweep
  sweep-Shrinks now [] s a w = Shrinks-refl s
  sweep-Shrinks now ((id, info) ∷ rest) s a w =
      let step = after (is_expired now info) in
      Shrinks-trans step.1 (sweep-Shrinks now rest _ a.1 step.0)
    where
      after :
          (b : Bool)
          → (let t = if b then drop_server id info s else s in WellFormed t × Shrinks s t)
      after true =
          unfold drop_server in
          rw a.0 (remove_producer-WellFormed id s w, remove_producer-Shrinks id s w)
      after false = (w, Shrinks-refl s)

  pub check_proc_alive-Shrinks :
      (now : ℕ) (s : State D) → WellFormed s → Shrinks s (check_proc_alive now s)
  unfolding check_proc_alive
  check_proc_alive-Shrinks now s w =
      Shrinks-trans
        (sweep-Shrinks now s.svr_info s
          (All-of_find (λ e. IsProducer e.1) s.svr_info w.inv.info_sorted w.inv.producers) w)
        (clear_fails-Shrinks (sweep now s.svr_info s))
