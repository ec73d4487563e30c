-- ===== src/System/Tasks/Runs.antt =====
-- The tasks of the producers over every run in which no id is given out again too early.
use push_system.Common.{
  ℕ, ◌+◌, ◌-◌, ◌^◌, ◌≤◌, ◌<◌, ◌≡◌, refl, List, [], ◌∷◌, some, ◌==◌, arith, inl, inr, length, total,
  sym, ◌∙◌, Takes, total-Takes, if◌then◌else◌,
}
use mathlib.Core.Path.{subst}
use push_system.Double.{Double}
use push_system.StdMap.{find, has}
use push_system.Shared.{success, err}
use push_system.Daemon.State.{State, Call, ProducerState, ProduceMsgRequest, start_state}
use push_system.Daemon.Registry.{next_server_id}
use push_system.Daemon.Replies.{decrease_producer_task, on_get_response}
use push_system.Daemon.Balance.{rebalance}
use push_system.Daemon.Queue.{decrease-calls, rebalance-SameQueue, break_circuit-SameQueue}
use push_system.Daemon.Dispatch.{chunk, select_turn}
use push_system.Daemon.Invariant.{WellFormed}
use push_system.Daemon.Invariant.Servers.{admitted, client_register-admitted}
use push_system.Daemon.Invariant.Sending.{sent_state}
use push_system.Daemon.Invariant.Shrinks.{Shrinks, rebalance-Shrinks, break_circuit-Shrinks}
use push_system.System.{
  Section, register, beat, report, alive, timer, World, start_world, begin_push, answer, fail,
  retry, serve, Step, section, begin, turn, finish, answers, fails, retries, Reach, start, next,
}
use push_system.System.Bound.{registrations, fewer, serve-Shrinks, Reach-Loads}
use push_system.System.Bound.Measure.{Loads}
use push_system.System.Counter.{serve-SameQueue}
use push_system.System.Progress.{Progress, progress, without_first}
use push_system.System.Safety.{OfProducers, Reach-WellFormed, set_calls-WellFormed}
use push_system.System.Tasks.{Tasks, Shrinks-Tasks, sent-Tasks, decrease-Tasks, admitted-Tasks}

-- The calls of a server in a list.
unfoldable pub calls_of : ℕ → List Call → ℕ
calls_of id calls = total (λ call. if call.svr_id == id then 1 else 0) calls

abbrev pub pending : List Call → List Call → ℕ → ℕ
pending calls failing id = calls_of id calls + calls_of id failing

calls_of-Takes :
    (id : ℕ) {call : Call} {calls rest : List Call}
    → Takes call calls rest
    → calls_of id calls ≡ (if call.svr_id == id then 1 else 0) + calls_of id rest
unfolding calls_of
calls_of-Takes id taken = total-Takes (λ call. if call.svr_id == id then 1 else 0) taken

calls_of-le : (id : ℕ) (calls : List Call) → calls_of id calls ≤ length calls
unfolding calls_of
calls_of-le id [] = omega arith
calls_of-le id (call ∷ calls) = ground (arith, calls_of-le id calls)

calls_of-cons :
    (id : ℕ) (call : Call) (calls : List Call)
    → calls_of id (call ∷ calls) ≡ (if call.svr_id == id then 1 else 0) + calls_of id calls
unfolding calls_of
calls_of-cons id call calls = refl

moved-pending :
    (id : ℕ) (call : Call) {calls : List Call} (rest failing : List Call)
    → Takes call calls rest
    → pending rest (call ∷ failing) id ≡ pending calls failing id
moved-pending id call {calls} rest failing taken =
    omega (arith, calls_of-Takes id taken, calls_of-cons id call failing)

module _ {D : Type 0} where
  -- The id that a registration gives out has no call left from a server before.
  abbrev IsTidySection : Section → World D → Type 0
  IsTidySection (register split from request) w =
      pending w.state.calls w.failing (next_server_id from.random w.state.svr_info) ≡ 0
  IsTidySection _ w = Unit

module _ {D : Type 0} ⦃dbl : Double D⦄ where
  abbrev IsTidyStep : {A : Section → Type 0} {v w : World D} → Step A v w → Type 0
  IsTidyStep {v = v} (section e _) = IsTidySection e v
  IsTidyStep _ = Unit

  abbrev pub IsTidy : {A : Section → Type 0} {w : World D} → Reach A w → Type 0
  IsTidy start = Unit
  IsTidy (next r s) = IsTidyStep s × IsTidy r

  -- Both lists together, in a state of a bounded load.
  pending-bounded :
      (n id : ℕ) (failing : List Call) (s : State D)
      → n < 2 ^ 30
      → Loads n (length failing) s
      → pending s.calls failing id < 2 ^ 32 - 1
  pending-bounded n id failing s b l =
      omega (arith, calls_of-le id s.calls, calls_of-le id failing, l.0)

  same_queue-Tasks :
      (failing : List Call) (s t : State D)
      → Shrinks s t
      → t.calls ≡ s.calls
      → Tasks (pending s.calls failing) s
      → Tasks (pending t.calls failing) t
  same_queue-Tasks failing s t h e l =
      subst (λ calls. Tasks (pending calls failing) t) (sym e) (Shrinks-Tasks _ s t h l)

  section-Tasks :
      (e : Section) (w : World D)
      → OfProducers D e
      → IsTidySection e w
      → WellFormed w.state
      → Tasks (pending w.state.calls w.failing) w.state
      → Tasks (pending (serve e w.state).calls w.failing) (serve e w.state)
  section-Tasks (register split from request) w p tidy g l =
      let s = w.state in
      let id = next_server_id from.random s.svr_info in
      let (address, (info, e, v)) = client_register-admitted split from request s p g in
      let t = admitted id address info s in
      unfold serve in
      rw e (
        same_queue-Tasks w.failing t (rebalance t) (rebalance-Shrinks t v)
          (rebalance-SameQueue t).calls (admitted-Tasks _ id address info s tidy l))
  section-Tasks (beat now id) w p tidy g l =
      same_queue-Tasks w.failing w.state _ (serve-Shrinks (beat now id) w.state p g refl)
        (serve-SameQueue (beat now id) w.state).calls l
  section-Tasks (report id k score) w p tidy g l =
      same_queue-Tasks w.failing w.state _ (serve-Shrinks (report id k score) w.state p g refl)
        (serve-SameQueue (report id k score) w.state).calls l
  section-Tasks (alive now) w p tidy g l =
      same_queue-Tasks w.failing w.state _ (serve-Shrinks (alive now) w.state p g refl)
        (serve-SameQueue (alive now) w.state).calls l
  section-Tasks timer w p tidy g l =
      same_queue-Tasks w.failing w.state _ (serve-Shrinks timer w.state p g refl)
        (serve-SameQueue timer w.state).calls l

  turn-Tasks :
      (n draw cur : ℕ) (request : ProduceMsgRequest) (failing : List Call) (s : State D)
      (t : State D × ℕ)
      → Progress draw request cur s
      → select_turn draw request cur s ≡ some t
      → n < 2 ^ 30
      → Loads n (length failing) s
      → Tasks (pending s.calls failing) s
      → Tasks (pending (t.0).calls failing) t.0
  turn-Tasks n draw cur request failing s t (inl (waits, same)) e b l h =
      let q : s ≡ t.0 = ground arith in subst (λ r. Tasks (pending r.calls failing) r) q h
  turn-Tasks n draw cur request failing s t (inr (sends, (id, known, first, sent))) e b l h =
      let q : sent_state id (chunk request cur)
            (record s { idle_producers = without_first s.idle_producers })
          ≡ t.0 =
        ground arith in
      subst (λ (r : State D). Tasks (pending r.calls failing) r) q
        (sent-Tasks (pending s.calls failing) _ id (chunk request cur) s
          (λ j. unfold calls_of in omega arith) (unfold calls_of in few) first h)
    where
      few : (if id == id then 1 else 0) + calls_of id s.calls + calls_of id failing < 2 ^ 32
      few = ground (arith, pending-bounded n id failing s b l)

  -- The same counts of another queue.
  recount-Tasks :
      (before after : ℕ → ℕ) (calls : List Call) (s : State D)
      → ((j : ℕ) → after j ≡ before j)
      → Tasks before s
      → Tasks after (record s { calls = calls })
  recount-Tasks before after calls s e h = record {
    idle_sorted = h.idle_sorted;
    held = λ j p found. let q = h.held j p found in (q.0 ∙ sym (e j), ground (arith, q.1, e j));
  }

  ended-Tasks :
      (before : ℕ → ℕ) (id : ℕ) (failing : List Call) (s : State D)
      → ((j : ℕ) → before j ≡ (if id == j then 1 else 0) + pending s.calls failing j)
      → before id < 2 ^ 32
      → Tasks before s
      → (let t = decrease_producer_task id s in Tasks (pending t.calls failing) t)
  ended-Tasks before id failing s e b h =
      subst (λ calls. Tasks (pending calls failing) (decrease_producer_task id s))
        (sym (decrease-calls id s)) (decrease-Tasks before (pending s.calls failing) id s e b h)

  answered-Tasks :
      (n : ℕ) (call : Call) (rest failing : List Call) (s : State D)
      → Takes call s.calls rest
      → n < 2 ^ 30
      → Loads n (length failing) s
      → Tasks (pending s.calls failing) s
      → (let t = decrease_producer_task call.svr_id (record s { calls = rest }) in
          Tasks (pending t.calls failing) t)
  answered-Tasks n call rest failing s taken b l h =
      ended-Tasks (pending s.calls failing) call.svr_id failing (record s { calls = rest })
        (λ j. omega (arith, calls_of-Takes j taken))
        (omega (arith, pending-bounded n call.svr_id failing s b l))
        (recount-Tasks _ _ rest s (λ j. refl) h)

  Step-Tasks :
      {v w : World D} (n : ℕ) (t : Step (OfProducers D) v w)
      → IsTidyStep t
      → WellFormed v.state
      → n < 2 ^ 30
      → Loads n (length v.failing) v.state
      → Tasks (pending v.state.calls v.failing) v.state
      → Tasks (pending w.state.calls w.failing) w.state
  Step-Tasks {v} n (section e p) tidy g b l h = section-Tasks e v p tidy g h
  Step-Tasks n (begin request) tidy g b l h = unfold begin_push in h
  Step-Tasks {v} n (turn {t} {s} {cur} draw taken go d e) tidy g b l h =
      turn-Tasks n draw t.cur_uid t.request v.failing v.state (s, cur)
        (progress draw t.request t.cur_uid v.state v.state.idle_producers refl d g) e b l h
  Step-Tasks n (finish taken over) tidy g b l h = h
  Step-Tasks {v} n (answers {call} {rest} success taken) tidy g b l h =
      unfold answer on_get_response in answered-Tasks n call rest v.failing v.state taken b l h
  Step-Tasks {v} n (answers {call} {rest} err taken) tidy g b l h =
      unfold answer on_get_response in answered-Tasks n call rest v.failing v.state taken b l h
  Step-Tasks {v} n (fails {call} {rest} taken) tidy g b l h =
      let s = record v.state { calls = rest } in
      unfold fail in
      same_queue-Tasks (call ∷ v.failing) s _
        (break_circuit-Shrinks call.svr_id s (set_calls-WellFormed rest v.state g))
        (break_circuit-SameQueue call.svr_id s).calls
        (recount-Tasks _ _ rest v.state (λ j. moved-pending j call rest v.failing taken) h)
  Step-Tasks {v} n (retries {call} {rest} taken) tidy g b l h =
      unfold retry in
      ended-Tasks (pending v.state.calls v.failing) call.svr_id rest v.state
        (λ j. omega (arith, calls_of-Takes j taken))
        (omega (arith, pending-bounded n call.svr_id v.failing v.state b l)) h

  Reach-Tasks :
      {w : World D} (r : Reach (OfProducers D) w)
      → IsTidy r
      → registrations r < 2 ^ 30
      → Tasks (pending w.state.calls w.failing) w.state
  unfolding find registrations
  Reach-Tasks start tidy b =
      unfold start_world start_state in
      record { idle_sorted = tt; held = λ j p e. absurd (ground arith) }
  Reach-Tasks (next r s) tidy b =
      let less = fewer s b in
      Step-Tasks (registrations r) s tidy.0 (Reach-WellFormed r) less (Reach-Loads r less)
        (Reach-Tasks r tidy.1 less)

  -- In every run in which only producers register, no reported score is negative, there are fewer
  -- than 2³⁰ registrations and each one gives out an id that no call is left of, a producer's
  -- curTaskCount is the number of its calls without an answer and of those whose failure is being
  -- handled, and it is in gSetIdleProducer exactly if that number is 0.
  pub Reach-tasks :
      {w : World D} (r : Reach (OfProducers D) w)
      → IsTidy r
      → registrations r < 2 ^ 30
      → (id : ℕ) (p : ProducerState) → find id w.state.producer_states ≡ some p
      → (p.cur_task_count ≡ calls_of id w.state.calls + calls_of id w.failing)
        × (has id w.state.idle_producers ≡ (p.cur_task_count == 0))
  Reach-tasks r tidy b id p found =
      let h = (Reach-Tasks r tidy b).held id p found in (h.0, ground (arith, h.0, h.1))
