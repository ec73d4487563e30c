-- ===== src/System/Progress.antt =====
-- What a round of a push does in a daemon of producers: it waits, or one chunk goes out.
use push_system.Common.{
  ℕ, ◌+◌, ◌*◌, ◌≤◌, ◌≡◌, refl, [], ◌∷◌, Option, some, ◌>>=◌, Bool, true, false, not, ◌&&◌, ◌==◌,
  leb, length, arith, inl, inr, ◌⊎◌, Bool-cases, sym, ap, ◌∙◌,
}
use push_system.Common.Word.{u32, u64}
use push_system.Double.{Double}
use push_system.StdMap.{StdMap, has, has-cons}
use push_system.Daemon.State.{State, ProduceMsgRequest}
use push_system.Daemon.Dispatch.{
  factor, uid_count_per_time, chunk, send_chunk, pick_by_rank, select_turn,
}
use push_system.Daemon.Invariant.{WellFormed}
use push_system.Daemon.Invariant.Sending.{sent_state, dispatch_lem, pick_by_rank_lem, has_of_size}
use push_system.System.{World, Reach}
use push_system.System.Safety.{OfProducers, Reach-WellFormed}

-- Nobody is idle, and there is no producer or there are too many calls.
abbrev pub must_wait : {D : Type 0} → State D → Bool
must_wait s = elim s.idle_producers [
  | [] ↦ not (
      leb s.sending_count (u32 (3 * u32 (length s.producer_states)))
      && not (u32 (length s.producer_states) == 0))
  | _ ∷ _ ↦ false
]

abbrev pub IsFirst : ℕ → StdMap (Unit {0}) → Type 0
IsFirst id [] = Unit {0}
IsFirst id ((j, _) ∷ _) = j ≡ id

abbrev pub without_first : StdMap (Unit {0}) → StdMap (Unit {0})
without_first [] = []
without_first (_ ∷ others) = others

module _ {D : Type 0} ⦃dbl : Double D⦄ where
  -- A round that waits, or sends its chunk to a registered producer, the first idle one if there is
  -- one.
  abbrev pub Progress : ℕ → ProduceMsgRequest → ℕ → State D → Type 0
  Progress draw request cur s =
      ((must_wait s ≡ true) × (select_turn draw request cur s ≡ some (s, cur)))
      ⊎ ((must_wait s ≡ false)
          × ((id : ℕ) × (has id s.svr_info ≡ true)
              × IsFirst id s.idle_producers
              × (select_turn draw request cur s
                  ≡ some (
                    sent_state id (chunk request cur)
                        (record s { idle_producers = without_first s.idle_producers }),
                    u64 (cur + uid_count_per_time),
                  ))))

  send_chunk_lem :
      (id : ℕ) (request : ProduceMsgRequest) (cur : ℕ) (s t : State D)
      → has id s.producer_states ≡ true
      → WellFormed s
      → t.producer_states ≡ s.producer_states
      → send_chunk id request cur t
        ≡ some (sent_state id (chunk request cur) t, u64 (cur + uid_count_per_time))
  unfolding send_chunk
  send_chunk_lem id request cur s t h w e =
      rw (dispatch_lem id (chunk request cur) t (rw e h) (rw e w.inv.stubs), ◌>>=◌) refl

  pub progress :
      (draw : ℕ) (request : ProduceMsgRequest) (cur : ℕ) (s : State D) (idle : StdMap (Unit {0}))
      → s.idle_producers ≡ idle
      → draw ≤ factor
      → WellFormed s
      → Progress draw request cur s
  unfolding select_turn
  progress draw request cur s ((id, tt) ∷ others) e d w =
      let known = w.inv.idle_known id (rw e (has-cons id tt others)) in
      inr (
        rw e refl,
        (
          id,
          sym (w.inv.same_keys id) ∙ known,
          rw e refl,
          rw (e, select_turn)
              (send_chunk_lem id request cur s (record s { idle_producers = others }) known w refl),
        ),
      )
  progress draw request cur s [] e d w = elim (Bool-cases (must_wait s)) [
    | inl waits ↦ inl (waits, ground arith)
    | inr sends ↦
        let free =
          has_of_size (leb s.sending_count (u32 (3 * u32 (length s.producer_states))))
            s.producer_states (ground arith) in
        let picked = pick_by_rank_lem draw s free.0 w d free.1 in
        let step : select_turn draw request cur s
            ≡ (pick_by_rank draw s >>= λ id. send_chunk id request cur s) =
          ground arith in
        let none_idle : s.idle_producers ≡ without_first s.idle_producers = ground arith in
        inr (
          sends,
          (
            picked.0,
            sym (w.inv.same_keys picked.0) ∙ picked.2,
            rw e tt,
            step
                ∙ ap (λ (o : Option ℕ). o >>= λ id. send_chunk id request cur s) picked.1
                ∙ ap (λ i. send_chunk picked.0 request cur (record s { idle_producers = i }))
                    none_idle
                ∙ send_chunk_lem picked.0 request cur s
                    (record s { idle_producers = without_first s.idle_producers }) picked.2 w refl,
          ),
        )
  ]

  -- In every run in which only producers register and no reported score is negative, a round of
  -- SelectProducerAndSend, for a draw in range, leaves the state and curUid as they are if no
  -- producer is idle and there is no producer or sendingCount is above three times their number;
  -- otherwise it sends the chunk at curUid to one registered server, the first idle one if there
  -- is one, as one call more and one task more of that server, and moves curUid on by 4096.
  pub Reach-progress :
      {w : World D}
      → Reach (OfProducers D) w
      → (draw : ℕ) (request : ProduceMsgRequest) (cur : ℕ) → draw ≤ factor
      → ((must_wait w.state ≡ true) × (select_turn draw request cur w.state ≡ some (w.state, cur)))
        ⊎ ((must_wait w.state ≡ false)
            × ((id : ℕ) × (has id w.state.svr_info ≡ true)
                × IsFirst id w.state.idle_producers
                × (select_turn draw request cur w.state
                    ≡ some (
                      sent_state id (chunk request cur) (record w.state {
                        idle_producers = without_first w.state.idle_producers;
                      }),
                      u64 (cur + uid_count_per_time),
                    ))))
  Reach-progress {w} r draw request cur d =
      progress draw request cur w.state w.state.idle_producers refl d (Reach-WellFormed r)
