-- ===== src/System/Counter.antt =====
-- `sendingCount` against the queue of calls, over every run of the daemon.
use push_system.Common.{
  ℕ, ◌≡◌, refl, List, arith, inl, inr, ◌⊎◌, ◌+◌, length, ap, Takes, length-Takes, ◌%◌, ◌^◌,
}
use push_system.Common.Word.{u32}
use push_system.Double.{Double}
use push_system.Shared.{success, err}
use push_system.Daemon.State.{State, ProduceMsgRequest, Call, start_state}
use push_system.Daemon.Replies.{decrease_producer_task, on_get_response}
use push_system.Daemon.Queue.{
  SameQueue, client_register-SameQueue, heart_beat-SameQueue, load_balance-SameQueue,
  check_proc_alive-SameQueue, timer-SameQueue, break_circuit-SameQueue, decrease-calls,
  decrease-count, Sent, select_turn_cases,
}
use push_system.System.{
  Section, register, beat, report, alive, timer, World, start_world, begin_push, answer, fail,
  retry, serve, Step, section, begin, turn, finish, answers, fails, retries, Reach, start, next,
}

-- The counter is the length of the queue and of the calls that are failing, modulo 2³².
abbrev pub Counts : {D : Type 0} → (failing : ℕ) → State D → Type 0
Counts failing s = s.sending_count ≡ u32 (length s.calls + failing)

module _ {D : Type 0} where
  decrease-Counts :
      (failing id : ℕ) (call : Call) (rest calls : List Call) (s : State D)
      → Takes call calls rest
      → s.calls ≡ rest
      → s.sending_count ≡ u32 (length calls + failing)
      → Counts failing (decrease_producer_task id s)
  decrease-Counts failing id call rest calls s taken q c =
      omega (
        arith,
        decrease-count id s,
        ap length (decrease-calls id s),
        ap length q,
        length-Takes taken,
      )

module _ {D : Type 0} ⦃dbl : Double D⦄ where
  pub serve-SameQueue : (e : Section) (s : State D) → SameQueue s (serve e s)
  unfolding serve
  serve-SameQueue (register split from request) s = client_register-SameQueue split from request s
  serve-SameQueue (beat now id) s = heart_beat-SameQueue now id s
  serve-SameQueue (report id k score) s = load_balance-SameQueue id k score s
  serve-SameQueue (alive now) s = check_proc_alive-SameQueue now s
  serve-SameQueue timer s = timer-SameQueue s

  Sent-Counts :
      (failing : ℕ) (request : ProduceMsgRequest) (cur : ℕ) (s : State D) (t : State D × ℕ)
      → Counts failing s
      → (t ≡ (s, cur)) ⊎ Sent request cur s t
      → Counts failing t.0
  Sent-Counts failing request cur s t c (inl e) = ground arith
  Sent-Counts failing request cur s t c (inr sent) = omega (arith, sent.count, ap length sent.calls)

  Step-Counts :
      {A : Section → Type 0} {v w : World D}
      → Step A v w
      → Counts (length v.failing) v.state
      → Counts (length w.failing) w.state
  Step-Counts {v} (section e _) c =
      let same = serve-SameQueue e v.state in omega (arith, same.count, ap length same.calls)
  Step-Counts (begin request) c = unfold begin_push in c
  Step-Counts {v} (turn {t} {s} {cur} draw taken h d e) c =
      Sent-Counts (length v.failing) t.request t.cur_uid v.state (s, cur) c
        (select_turn_cases draw t.request t.cur_uid v.state (s, cur) e)
  Step-Counts (finish taken h) c = c
  Step-Counts {v} (answers {call} {rest} success taken) c =
      unfold answer on_get_response in
      decrease-Counts (length v.failing) call.svr_id call rest v.state.calls _ taken refl c
  Step-Counts {v} (answers {call} {rest} err taken) c =
      unfold answer on_get_response in
      decrease-Counts (length v.failing) call.svr_id call rest v.state.calls _ taken refl c
  Step-Counts {v} (fails {call} {rest} taken) c =
      let same = break_circuit-SameQueue call.svr_id (record v.state { calls = rest }) in
      unfold fail in omega (arith, same.count, ap length same.calls, length-Takes taken)
  Step-Counts {v} (retries {call} taken) c =
      unfold retry in
      omega (
        arith,
        decrease-count call.svr_id v.state,
        ap length (decrease-calls call.svr_id v.state),
        length-Takes taken,
      )

  -- In every reachable state of the daemon, whatever the requests, answers, failures and draws
  -- were, sendingCount is the number of calls without an answer and of those whose failure is
  -- being handled, modulo 2³².
  pub Reach-Counts :
      {A : Section → Type 0} {w : World D}
      → Reach A w
      → w.state.sending_count ≡ (length w.state.calls + length w.failing) % 2 ^ 32
  Reach-Counts start = unfold start_world start_state in refl
  Reach-Counts (next r s) = Step-Counts s (Reach-Counts r)
