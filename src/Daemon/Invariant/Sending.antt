-- ===== src/Daemon/Invariant/Sending.antt =====
-- `SelectProducerAndSend` on a well-formed state: every round is defined and keeps it well-formed.
use push_system.Common.{
  ℕ, ◌+◌, ◌≡◌, ◌≤◌, refl, [], ◌∷◌, Option, some, Bool, true, false, not, ◌&&◌, ◌==◌, arith, inl,
  inr, ◌⊎◌, Option-cases, ◌∙◌, if◌then◌else◌, length, ◌>>=◌,
}
use push_system.Common.Word.{inc32, u64, u32}
use push_system.Double.{Double}
use push_system.StdMap.{StdMap, find, has, adjust, Each, touch-has, has-cons, find-adjust}
use push_system.Daemon.State.{State, ProducerState, ProduceMsgRequest, no_producer}
use push_system.Daemon.Dispatch.{
  uid_count_per_time, factor, chunk, dispatch, send_chunk, pick_by_rank, select_turn,
}
use push_system.Daemon.Balance.Ranks.{last_rank-lower_bound, lower_bound-All}
use push_system.Daemon.Invariant.{HasStub, WellFormed}
use push_system.Daemon.Invariant.Handlers.{adjust_states-WellFormed}

-- The state after a call for a registered producer.
abbrev pub sent_state : {D : Type 0} → ℕ → ProduceMsgRequest → State D → State D
sent_state id request s = record s {
  producer_states =
      adjust id (λ p. record p { cur_task_count = inc32 p.cur_task_count }) s.producer_states;
  sending_count = inc32 s.sending_count;
  calls = record { svr_id = id; request = request } ∷ s.calls;
}

pub has_of_size :
    (low : Bool) (m : StdMap ProducerState)
    → low && not (u32 (length m) == 0) ≡ true
    → (j : ℕ) × (has j m ≡ true)
has_of_size low [] h = absurd (ground arith)
has_of_size low ((k, p) ∷ m) h = (k, has-cons k p m)

module _ {D : Type 0} where
  pub dispatch_lem :
      (id : ℕ) (request : ProduceMsgRequest) (s : State D)
      → has id s.producer_states ≡ true
      → Each HasStub s.producer_states
      → dispatch id request s ≡ some (sent_state id request s)
  unfolding dispatch
  dispatch_lem id request s h stubs = elim (Option-cases (find id s.producer_states)) [
    | inl e ↦ absurd (ground arith)
    | inr (p, e) ↦ ground (
      arith,
      touch-has id no_producer s.producer_states h,
      find-adjust id id
          (λ (q : ProducerState). record q { cur_task_count = inc32 q.cur_task_count })
          s.producer_states,
      stubs id p e,
    )
  ]

module _ {D : Type 0} ⦃dbl : Double D⦄ where
  open dbl use {le, of_nat}

  pub pick_by_rank_lem :
      (draw : ℕ) (s : State D) (j : ℕ)
      → WellFormed s
      → draw ≤ factor
      → has j s.producer_states ≡ true
      → (id : ℕ) × (pick_by_rank draw s ≡ some id) × (has id s.producer_states ≡ true)
  unfolding pick_by_rank
  pick_by_rank_lem draw s j w d h =
      let last =
        last_rank-lower_bound s.rank_to_svr (w.ranks.filled j (ground (arith, w.inv.same_keys j)))
          w.ranks.non_neg in
      let found = last.3 _ (dbl.fraction_le draw factor last.0 d (omega arith) last.2) in
      (
        found.0,
        rw (last.1, ◌>>=◌) found.1,
        w.inv.same_keys found.0
            ∙ lower_bound-All (λ id. has id s.svr_info ≡ true) _ s.rank_to_svr found.0
                w.ranks.ranked found.1,
      )

  sent-WellFormed :
      (id : ℕ) (request : ProduceMsgRequest) (s : State D)
      → WellFormed s
      → WellFormed (sent_state id request s)
  sent-WellFormed id request s w =
      adjust_states-WellFormed id _ s s.idle_producers _ _ (λ p h. h) w.inv.idle_known w

  -- A round that is defined, and what it leaves.
  abbrev pub Turns : ℕ → Option (State D × ℕ) → Type 0
  Turns cur r =
      (t : State D × ℕ) × (r ≡ some t)
      × WellFormed t.0
      × ((t.1 ≡ cur) ⊎ (t.1 ≡ u64 (cur + uid_count_per_time)))

  send_chunk-Turns :
      (id : ℕ) (request : ProduceMsgRequest) (cur : ℕ) (s : State D)
      → has id s.producer_states ≡ true
      → WellFormed s
      → Turns cur (send_chunk id request cur s)
  unfolding send_chunk
  send_chunk-Turns id request cur s h w = (
    (sent_state id (chunk request cur) s, u64 (cur + uid_count_per_time)),
    rw (dispatch_lem id (chunk request cur) s h w.inv.stubs, ◌>>=◌),
    sent-WellFormed id (chunk request cur) s w,
    inr refl,
  )

  fewer_idle-WellFormed :
      (id : ℕ) (others : StdMap (Unit {0})) (s : State D)
      → s.idle_producers ≡ (id, tt) ∷ others
      → WellFormed s
      → WellFormed (record s { idle_producers = others })
  unfolding find
  fewer_idle-WellFormed id others s e w = record {
    inv = record {
      info_sorted = w.inv.info_sorted;
      states_sorted = w.inv.states_sorted;
      producers = w.inv.producers;
      scores = w.inv.scores;
      stubs = w.inv.stubs;
      same_keys = w.inv.same_keys;
      idle_known = λ j h. w.inv.idle_known j (rw e (ground arith));
    };
    ranks = record { ranked = w.ranks.ranked; non_neg = w.ranks.non_neg; filled = w.ranks.filled };
  }

  turn-busy :
      (draw : ℕ) (request : ProduceMsgRequest) (cur : ℕ) (s : State D) (free : Bool)
      → (free ≡ true → (j : ℕ) × (has j s.producer_states ≡ true))
      → draw ≤ factor
      → WellFormed s
      → Turns cur (
          if free
          then (pick_by_rank draw s >>= λ id. send_chunk id request cur s)
          else some (s, cur))
  turn-busy draw request cur s true some_producer d w =
      let (j, h) = some_producer refl in
      let picked = pick_by_rank_lem draw s j w d h in
      rw (picked.1, ◌>>=◌) (send_chunk-Turns picked.0 request cur s picked.2 w)
  turn-busy draw request cur s false some_producer d w = ((s, cur), refl, w, inl refl)

  turn-idle :
      (draw : ℕ) (request : ProduceMsgRequest) (cur : ℕ) (s : State D) (idle : StdMap (Unit {0}))
      → s.idle_producers ≡ idle
      → draw ≤ factor
      → WellFormed s
      → Turns cur (select_turn draw request cur s)
  unfolding select_turn
  turn-idle draw request cur s ((id, tt) ∷ others) e d w =
      rw (e, select_turn)
        (send_chunk-Turns id request cur (record s { idle_producers = others })
          (w.inv.idle_known id (rw e (has-cons id tt others)))
          (fewer_idle-WellFormed id others s e w))
  turn-idle draw request cur s [] e d w =
      rw (e, select_turn)
        (turn-busy draw request cur s _ (λ h. has_of_size _ s.producer_states h) d w)

  -- With draws in range, a round of the loop on a well-formed state is defined, keeps the state
  -- well-formed, and either sends the chunk at `curUid` and moves on by 4096 or leaves `curUid`.
  pub select_turn-WellFormed :
      (draw : ℕ) (request : ProduceMsgRequest) (cur : ℕ) (s : State D)
      → draw ≤ factor
      → WellFormed s
      → Turns cur (select_turn draw request cur s)
  select_turn-WellFormed draw request cur s d w =
      turn-idle draw request cur s s.idle_producers refl d w
