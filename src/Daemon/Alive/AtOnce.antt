-- ===== src/Daemon/Alive/AtOnce.antt =====
-- A round of `CheckProcAlive` against one that drops all expired servers at once.
use push_system.Common.{
  ℕ, ◌≡◌, refl, sym, ap, ◌∙◌, List, [], ◌∷◌, Bool, false, ◌||◌, ◌==◌, arith, All, inl, inr,
  if◌then◌else◌, Bool-cases,
}
use push_system.Double.{Double}
use push_system.StdMap.{StdMap, erase, All-of_find}
use push_system.Daemon.State.{State, ServerInfo}
use push_system.Daemon.Balance.{rebalance}
use push_system.Daemon.Alive.{is_expired, drop_server, sweep, clear_fails, check_proc_alive}
use push_system.Daemon.Invariant.{WellFormed, IsProducer, rebalance_states}
use push_system.Daemon.Invariant.Handlers.{without, without-Inv, remove_producer-WellFormed}
use push_system.System.{World, Reach}
use push_system.System.Safety.{OfProducers, Reach-WellFormed}

-- The ids of the servers that are not alive.
unfoldable pub expired_ids : {D : Type 0} → (now : ℕ) → StdMap (ServerInfo D) → List ℕ
expired_ids now [] = []
expired_ids now ((id, info) ∷ m) =
    let rest = expired_ids now m in if is_expired now info then id ∷ rest else rest

abbrev pub among : ℕ → List ℕ → Bool
among id [] = false
among id (other ∷ ids) = other == id || among id ids

-- The entries of the other ids.
unfoldable pub others : {V : Type 0} → List ℕ → StdMap V → StdMap V
others ids [] = []
others ids ((id, v) ∷ m) = let rest = others ids m in if among id ids then rest else (id, v) ∷ rest

-- The servers leave all three maps.
abbrev pub without_all : {D : Type 0} → List ℕ → State D → State D
without_all ids s = record s {
  svr_info = others ids s.svr_info;
  producer_states = others ids s.producer_states;
  idle_producers = others ids s.idle_producers;
}

others-none : {V : Type 0} (m : StdMap V) → others [] m ≡ m
unfolding others
others-none [] = refl
others-none (e ∷ m) = ap (λ rest. e ∷ rest) (others-none m)

others-erase :
    {V : Type 0} (id : ℕ) (ids : List ℕ) (m : StdMap V)
    → others ids (erase id m) ≡ others (id ∷ ids) m
unfolding others erase
others-erase id ids [] = refl
others-erase id ids ((j, v) ∷ m) = ground (arith, others-erase id ids m)

module _ {D : Type 0} ⦃dbl : Double D⦄ where
  -- The ids leave, and if there are any the ranks are made anew.
  abbrev pub drop_all : List ℕ → State D → State D
  drop_all [] s = s
  drop_all (id ∷ ids) s = rebalance (without_all (id ∷ ids) s)

  -- A round that looks first and then drops.
  unfoldable pub round_at_once : ℕ → State D → State D
  unfolding expired_ids others
  round_at_once now s =
      let swept = drop_all (expired_ids now s.svr_info) s in
      record swept { producer_states = clear_fails swept.producer_states }

  -- `Rebalance` reads no rank, and leaves the producers of a state of producers.
  rebalance-without_all :
      (ids : List ℕ) (s : State D)
      → (rebalance s).producer_states ≡ s.producer_states
      → rebalance (without_all ids (rebalance s)) ≡ rebalance (without_all ids s)
  rebalance-without_all ids s e =
      ap
        (λ states. rebalance (record (rebalance s) {
          svr_info = others ids (rebalance s).svr_info;
          producer_states = others ids states;
          idle_producers = others ids (rebalance s).idle_producers;
        }))
        e
      ∙ again ids s
    where
      again :
          (ids : List ℕ) (s : State D)
          → rebalance (record (rebalance s) {
            svr_info = others ids (rebalance s).svr_info;
            producer_states = others ids s.producer_states;
            idle_producers = others ids (rebalance s).idle_producers;
          })
            ≡ rebalance (without_all ids s)
      again ids s = unfold rebalance in refl

  without_all-without :
      (id : ℕ) (ids : List ℕ) (s : State D)
      → without_all ids (without id s) ≡ without_all (id ∷ ids) s
  without_all-without id ids s =
      rw
        (
          others-erase id ids s.svr_info,
          others-erase id ids s.producer_states,
          others-erase id ids s.idle_producers,
        )
        refl

  without_all-none : (s : State D) → without_all [] s ≡ s
  without_all-none s =
      rw (others-none s.svr_info, others-none s.producer_states, others-none s.idle_producers) refl

  drop_all-rebalance :
      (id : ℕ) (ids : List ℕ) (s : State D)
      → WellFormed s
      → drop_all ids (rebalance (without id s)) ≡ rebalance (without_all (id ∷ ids) s)
  drop_all-rebalance id [] s w =
      ap rebalance (sym (without_all-none (without id s)) ∙ without_all-without id [] s)
  drop_all-rebalance id (j ∷ ids) s w =
      rebalance-without_all (j ∷ ids) (without id s)
        (rebalance_states (without id s) (without-Inv id s w))
      ∙ ap rebalance (without_all-without id (j ∷ ids) s)

  dropped :
      (id : ℕ) (info : ServerInfo D) (s : State D)
      → IsProducer info
      → drop_server id info s ≡ rebalance (without id s)
  unfolding drop_server
  dropped id info s p = rw (p, drop_server) refl

  sweep-drop_all :
      (now : ℕ) (m : StdMap (ServerInfo D)) (s : State D)
      → All (λ e. IsProducer e.1) m
      → WellFormed s
      → sweep now m s ≡ drop_all (expired_ids now m) s
  unfolding sweep expired_ids
  sweep-drop_all now [] s a w = refl
  sweep-drop_all now ((id, info) ∷ m) s a w = elim (Bool-cases (is_expired now info)) [
    | inl e ↦
        rw (e, sweep)
          (rw (dropped id info s a.0) (
            sweep-drop_all now m (rebalance (without id s)) a.1 (remove_producer-WellFormed id s w)
            ∙ drop_all-rebalance id (expired_ids now m) s w))
    | inr e ↦ rw (e, sweep) (sweep-drop_all now m s a.1 w)
  ]

  -- In every state of a run in which only producers register and no reported score is negative, a
  -- round of CheckProcAlive, which erases the dead servers one by one and calls Rebalance after
  -- each, leaves the same state as one that looks for all dead servers first, takes them out of
  -- the three maps, and makes the ranks once, if there are any.
  pub Reach-check_proc_alive :
      {w : World D}
      → Reach (OfProducers D) w
      → (now : ℕ) → check_proc_alive now w.state ≡ round_at_once now w.state
  unfolding check_proc_alive round_at_once
  Reach-check_proc_alive {w} r now =
      let s = w.state in
      let g = Reach-WellFormed r in
      let same =
        sweep-drop_all now s.svr_info s
          (All-of_find (λ e. IsProducer e.1) s.svr_info g.inv.info_sorted g.inv.producers) g in
      ap (λ (t : State D). record t { producer_states = clear_fails t.producer_states }) same
