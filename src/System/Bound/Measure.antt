-- ===== src/System/Bound/Measure.antt =====
-- The calls under way and the idle producers, over each critical section.
use push_system.Common.{
  ℕ, suc, ◌+◌, ◌*◌, ◌^◌, ◌≤◌, ◌<◌, ◌≡◌, refl, List, [], ◌∷◌, some, Bool, true, false, ◌==◌, arith,
  inl, inr, length, leb, text_eq, Text, ◌%◌, ap, Option-cases, if◌then◌else◌,
}
use mathlib.Core.Path.{subst}
use push_system.Common.Word.{u32, inc32, dec32}
use push_system.Double.{Double}
use push_system.StdMap.{StdMap, find, insert, length-insert-le, length-assign-le, length-adjust}
use push_system.Daemon.State.{State, ProducerState, ProduceMsgRequest}
use push_system.Daemon.Registry.{
  Arrival, ClientRegisterRequest, next_server_id, producer_proc, client_register, new_producer,
}
use push_system.Daemon.Replies.{decrease_producer_task}
use push_system.Daemon.Queue.{rebalance-SameQueue}
use push_system.Daemon.Dispatch.{chunk, select_turn}
use push_system.Daemon.Invariant.{WellFormed}
use push_system.Daemon.Invariant.Servers.{admitted, client_register-admitted}
use push_system.Daemon.Invariant.Sending.{sent_state}
use push_system.Daemon.Invariant.Shrinks.{Shrinks, rebalance-Shrinks}
use push_system.System.Progress.{Progress, without_first}

-- What the bound is on.
abbrev pub load : {D : Type 0} → (failing : ℕ) → State D → ℕ
load failing s = length s.calls + failing + length s.idle_producers

abbrev pub Loads : {D : Type 0} → (n failing : ℕ) → State D → Type 0
Loads n failing s = (load failing s ≤ 3 * n + 1) × (length s.producer_states ≤ n)

module _ {D : Type 0} where
  pub Shrinks-Loads :
      (n failing : ℕ) (s t : State D)
      → Shrinks s t
      → t.calls ≡ s.calls
      → Loads n failing s
      → Loads n failing t
  Shrinks-Loads n failing s t h e l =
      (omega (arith, l.0, h.idle_size, ap length e), omega (arith, l.1, h.size))

  -- A call ends: its producer may become idle.
  pub decrease-Loads :
      (n failing id : ℕ) (s : State D)
      → Loads n (suc failing) s
      → Loads n failing (decrease_producer_task id s)
  unfolding decrease_producer_task
  decrease-Loads n failing id s l = elim (Option-cases (find id s.producer_states)) [
    | inl e ↦ rw (e, decrease_producer_task) (omega arith, l.1)
    | inr (p, e) ↦
        rw (e, decrease_producer_task)
          (
            after (dec32 p.cur_task_count == 0),
            omega (
              arith,
              l.1,
              length-adjust id
                  (λ (q : ProducerState). record q { cur_task_count = dec32 p.cur_task_count })
                  s.producer_states,
            ),
          )
  ]
    where
      after :
          (b : Bool)
          → length s.calls
              + failing
              + length (if b then insert id tt s.idle_producers else s.idle_producers)
            ≤ 3 * n + 1
      after true = omega (arith, l.0, length-insert-le id tt s.idle_producers)
      after false = omega (arith, l.0)

module _ {D : Type 0} ⦃dbl : Double D⦄ where
  pub register-Loads :
      (n failing : ℕ) (split : (ℕ → Bool) → Text → List Text) (from : Arrival)
      (request : ClientRegisterRequest) (s : State D)
      → text_eq producer_proc request.proc_name ≡ true
      → WellFormed s
      → Loads n failing s
      → Loads (suc n) failing (client_register split from request s).0
  register-Loads n failing split from request s named w l =
      let id = next_server_id from.random s.svr_info in
      let (address, (info, e, v)) = client_register-admitted split from request s named w in
      let h = rebalance-Shrinks (admitted id address info s) v in
      rw e (
        omega (
          arith,
          l.0,
          h.idle_size,
          length-insert-le id tt s.idle_producers,
          ap length (rebalance-SameQueue (admitted id address info s)).calls,
        ),
        omega (arith, l.1, h.size, length-assign-le id (new_producer address) s.producer_states),
      )

  -- A round sends only while there are idle producers or few calls.
  pub turn-Loads :
      (n failing draw cur : ℕ) (request : ProduceMsgRequest) (s : State D) (t : State D × ℕ)
      → Progress draw request cur s
      → select_turn draw request cur s ≡ some t
      → s.sending_count ≡ (length s.calls + failing) % 2 ^ 32
      → n < 2 ^ 30
      → Loads n failing s
      → Loads n failing t.0
  turn-Loads n failing draw cur request s t (inl (waits, same)) e c b l =
      let q : s ≡ t.0 = ground arith in subst (Loads n failing) q l
  turn-Loads n failing draw cur request s t (inr (sends, (id, known, first, sent))) e c b l =
      let q : sent_state id (chunk request cur)
            (record s { idle_producers = without_first s.idle_producers })
          ≡ t.0 =
        ground arith in
      subst (Loads n failing) q (
        after s.idle_producers refl,
        omega (
          arith,
          l.1,
          length-adjust id
              (λ (p : ProducerState). record p { cur_task_count = inc32 p.cur_task_count })
              s.producer_states,
        ),
      )
    where
      after :
          (idle : StdMap (Unit {0}))
          → s.idle_producers ≡ idle
          → suc (length s.calls) + failing + length (without_first s.idle_producers) ≤ 3 * n + 1
      after (i ∷ idle) h = rw h (omega (arith, l.0, ap length h))
      after [] h = rw h (few (sends_few h))
        where
          sends_few :
              s.idle_producers ≡ []
              → leb s.sending_count (u32 (3 * u32 (length s.producer_states))) ≡ true
          sends_few h = ground arith

          few :
              leb s.sending_count (u32 (3 * u32 (length s.producer_states))) ≡ true
              → suc (length s.calls) + failing + 0 ≤ 3 * n + 1
          few h = ground (arith, l.0, l.1)
