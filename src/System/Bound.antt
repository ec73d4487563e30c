-- ===== src/System/Bound.antt =====
-- How many calls can be under way, by the number of registrations.
pub mod Measure
use push_system.Common.{
  ℕ, suc, ◌+◌, ◌*◌, ◌^◌, ◌≤◌, ◌<◌, ◌≡◌, refl, List, [], ◌∷◌, some, Bool, true, false, ◌==◌, arith,
  inl, inr, length, leb, text_eq, Text, ◌%◌, ap, length-Takes, Option-cases, if◌then◌else◌,
}
use mathlib.Core.Path.{subst}
use push_system.Common.Word.{u32, inc32, dec32}
use push_system.Double.{Double}
use push_system.StdMap.{StdMap, find, insert, length-insert-le, length-assign-le, length-adjust}
use push_system.Shared.{success, err}
use push_system.Daemon.State.{State, ProducerState, ProduceMsgRequest, start_state}
use push_system.Daemon.Registry.{
  Arrival, ClientRegisterRequest, next_server_id, producer_proc, client_register, new_producer,
}
use push_system.Daemon.Replies.{decrease_producer_task, on_get_response}
use push_system.Daemon.Queue.{rebalance-SameQueue, break_circuit-SameQueue}
use push_system.Daemon.Dispatch.{chunk, select_turn}
use push_system.Daemon.Invariant.{WellFormed}
use push_system.Daemon.Invariant.Servers.{admitted, client_register-admitted}
use push_system.Daemon.Invariant.Sending.{sent_state}
use push_system.Daemon.Invariant.Shrinks.{
  Shrinks, heart_beat-Shrinks, load_balance-Shrinks, check_proc_alive-Shrinks, rebalance-Shrinks,
  break_circuit-Shrinks,
}
use push_system.System.{
  Section, register, beat, report, alive, timer, World, start_world, begin_push, answer, fail,
  retry, serve, Step, section, begin, turn, finish, answers, fails, retries, Reach, start, next,
}
use push_system.System.Bound.Measure.{
  Loads, Shrinks-Loads, decrease-Loads, register-Loads, turn-Loads,
}
use push_system.System.Counter.{Counts, Reach-Counts, serve-SameQueue}
use push_system.System.Progress.{Progress, progress, without_first}
use push_system.System.Safety.{OfProducers, Reach-WellFormed, set_calls-WellFormed}

abbrev pub is_registration : Section → Bool
is_registration (register _ _ _) = true
is_registration _ = false

module _ {D : Type 0} ⦃dbl : Double D⦄ where
  abbrev pub counted : {A : Section → Type 0} {v w : World D} → Step A v w → ℕ → ℕ
  counted (section e _) n = if is_registration e then suc n else n
  counted _ n = n

  -- The registrations of a run.
  unfoldable pub registrations : {A : Section → Type 0} {w : World D} → Reach A w → ℕ
  registrations start = 0
  registrations (next r s) = counted s (registrations r)

module _ {D : Type 0} ⦃dbl : Double D⦄ where
  pub serve-Shrinks :
      (e : Section) (s : State D)
      → OfProducers D e
      → WellFormed s
      → is_registration e ≡ false
      → Shrinks s (serve e s)
  unfolding serve
  serve-Shrinks (register split from request) s p w h = absurd (ground arith)
  serve-Shrinks (beat now id) s p w h = heart_beat-Shrinks now id s
  serve-Shrinks (report id k score) s p w h = load_balance-Shrinks id k score s
  serve-Shrinks (alive now) s p w h = check_proc_alive-Shrinks now s w
  serve-Shrinks timer s p w h = rebalance-Shrinks s w.inv

  section-Loads :
      (n failing : ℕ) (e : Section) (s : State D)
      → OfProducers D e
      → WellFormed s
      → Loads n failing s
      → Loads (if is_registration e then suc n else n) failing (serve e s)
  section-Loads n failing (register split from request) s p w l =
      unfold serve in register-Loads n failing split from request s p w l
  section-Loads n failing (beat now id) s p w l =
      Shrinks-Loads n failing s _ (serve-Shrinks (beat now id) s p w refl)
        (serve-SameQueue (beat now id) s).calls l
  section-Loads n failing (report id k score) s p w l =
      Shrinks-Loads n failing s _ (serve-Shrinks (report id k score) s p w refl)
        (serve-SameQueue (report id k score) s).calls l
  section-Loads n failing (alive now) s p w l =
      Shrinks-Loads n failing s _ (serve-Shrinks (alive now) s p w refl)
        (serve-SameQueue (alive now) s).calls l
  section-Loads n failing timer s p w l =
      Shrinks-Loads n failing s _ (serve-Shrinks timer s p w refl) (serve-SameQueue timer s).calls l

  Step-Loads :
      {v w : World D} (n : ℕ) (t : Step (OfProducers D) v w)
      → WellFormed v.state
      → Counts (length v.failing) v.state
      → n < 2 ^ 30
      → Loads n (length v.failing) v.state
      → Loads (counted t n) (length w.failing) w.state
  Step-Loads {v} n (section e p) g c b l = section-Loads n (length v.failing) e v.state p g l
  Step-Loads n (begin request) g c b l = unfold begin_push in l
  Step-Loads {v} n (turn {t} {s} {cur} draw taken go d e) g c b l =
      turn-Loads n (length v.failing) draw t.cur_uid t.request v.state (s, cur)
        (progress draw t.request t.cur_uid v.state v.state.idle_producers refl d g) e c b l
  Step-Loads n (finish taken over) g c b l = l
  Step-Loads {v} n (answers {call} {rest} success taken) g c b l =
      unfold answer on_get_response in
      decrease-Loads n (length v.failing) call.svr_id (record v.state { calls = rest })
        (omega (arith, l.0, length-Takes taken), l.1)
  Step-Loads {v} n (answers {call} {rest} err taken) g c b l =
      unfold answer on_get_response in
      decrease-Loads n (length v.failing) call.svr_id (record v.state { calls = rest })
        (omega (arith, l.0, length-Takes taken), l.1)
  Step-Loads {v} n (fails {call} {rest} taken) g c b l =
      let s = record v.state { calls = rest } in
      let h = break_circuit-Shrinks call.svr_id s (set_calls-WellFormed rest v.state g) in
      unfold fail in
      (
        omega (
          arith,
          l.0,
          h.idle_size,
          ap length (break_circuit-SameQueue call.svr_id s).calls,
          length-Takes taken,
        ),
        omega (arith, l.1, h.size),
      )
  Step-Loads {v} n (retries {call} {rest} taken) g c b l =
      unfold retry in
      decrease-Loads n (length rest) call.svr_id v.state
        (omega (arith, l.0, length-Takes taken), l.1)

  pub fewer :
      {v w : World D} {n : ℕ} (t : Step (OfProducers D) v w) → counted t n < 2 ^ 30 → n < 2 ^ 30
  fewer (section e _) b = ground arith
  fewer (begin _) b = b
  fewer (turn _ _ _ _ _) b = b
  fewer (finish _ _) b = b
  fewer (answers _ _) b = b
  fewer (fails _) b = b
  fewer (retries _) b = b

  pub Reach-Loads :
      {w : World D} (r : Reach (OfProducers D) w)
      → registrations r < 2 ^ 30
      → Loads (registrations r) (length w.failing) w.state
  unfolding registrations
  Reach-Loads start b = unfold start_world start_state in (omega arith, omega arith)
  Reach-Loads (next r s) b =
      Step-Loads (registrations r) s (Reach-WellFormed r) (Reach-Counts r) (fewer s b)
        (Reach-Loads r (fewer s b))

  -- In every run in which only producers register, no reported score is negative and there are
  -- fewer than 2³⁰ registrations, sendingCount is exactly the number of calls without an answer
  -- and of those whose failure is being handled, it is, with the number of idle producers, at most
  -- three times the number of registrations and one more, and there are at most as many producers
  -- as registrations: the queue of calls is bounded, and the counter never wraps around.
  pub Reach-bounded :
      {w : World D} (r : Reach (OfProducers D) w)
      → registrations r < 2 ^ 30
      → (w.state.sending_count ≡ length w.state.calls + length w.failing)
        × (w.state.sending_count + length w.state.idle_producers ≤ 3 * registrations r + 1)
        × (length w.state.producer_states ≤ registrations r)
  Reach-bounded {w} r b =
      let l = Reach-Loads r b in
      let same : w.state.sending_count ≡ length w.state.calls + length w.failing =
        omega (arith, Reach-Counts r, l.0) in
      (same, omega (arith, same, l.0), l.1)
