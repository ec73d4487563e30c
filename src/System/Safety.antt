-- ===== src/System/Safety.antt =====
-- Every reachable state of a daemon of producers is well-formed, and no round of a push is undefined.
use push_system.Common.{ℕ, ◌≡◌, ◌≤◌, List, some, true, text_eq, arith}
use mathlib.Core.Path.{subst}
use push_system.StdMap.{find}
use push_system.Double.{Double}
use push_system.Shared.{success, err}
use push_system.Daemon.State.{State, ProduceMsgRequest, Call, start_state}
use push_system.Daemon.Registry.{producer_proc, read_score}
use push_system.Daemon.Dispatch.{factor, select_turn}
use push_system.Daemon.Replies.{on_get_response}
use push_system.Daemon.Invariant.{WellFormed, rebalance-WellFormed}
use push_system.Daemon.Invariant.Handlers.{
  heart_beat-WellFormed, load_balance-WellFormed, decrease_producer_task-WellFormed,
  break_circuit-WellFormed,
}
use push_system.Daemon.Invariant.Servers.{client_register-WellFormed, check_proc_alive-WellFormed}
use push_system.Daemon.Invariant.Sending.{select_turn-WellFormed}
use push_system.System.{
  Section, register, beat, report, alive, timer, World, start_world, begin_push, answer, fail,
  retry, serve, Step, section, begin, turn, finish, answers, fails, retries, Reach, start, next,
}

module _ (D : Type 0) ⦃dbl : Double D⦄ where
  open dbl use {le, of_nat}

  -- Only producers register, and the scores that are read out of their reports are not negative.
  abbrev pub OfProducers : Section → Type 0
  OfProducers (register split from request) = text_eq producer_proc request.proc_name ≡ true
  OfProducers (report id k score) = le (of_nat 0) (read_score k score) ≡ true
  OfProducers _ = Unit

module _ {D : Type 0} ⦃dbl : Double D⦄ where
  serve-WellFormed :
      (e : Section) (s : State D) → OfProducers D e → WellFormed s → WellFormed (serve e s)
  unfolding serve
  serve-WellFormed (register split from request) s p w =
      client_register-WellFormed split from request s p w
  serve-WellFormed (beat now id) s p w = heart_beat-WellFormed now id s w
  serve-WellFormed (report id k score) s p w = load_balance-WellFormed id k score s p w
  serve-WellFormed (alive now) s p w = check_proc_alive-WellFormed now s w
  serve-WellFormed timer s p w = rebalance-WellFormed s w.inv

  pub set_calls-WellFormed :
      (calls : List Call) (s : State D) → WellFormed s → WellFormed (record s { calls = calls })
  set_calls-WellFormed calls s w = record {
    inv = record {
      info_sorted = w.inv.info_sorted;
      states_sorted = w.inv.states_sorted;
      producers = w.inv.producers;
      scores = w.inv.scores;
      stubs = w.inv.stubs;
      same_keys = w.inv.same_keys;
      idle_known = w.inv.idle_known;
    };
    ranks = record { ranked = w.ranks.ranked; non_neg = w.ranks.non_neg; filled = w.ranks.filled };
  }

  start-WellFormed : WellFormed (start_state {D = D})
  unfolding start_state find
  start-WellFormed = record {
    inv = record {
      info_sorted = tt;
      states_sorted = tt;
      producers = λ j v e. absurd (ground arith);
      scores = λ j v e. absurd (ground arith);
      stubs = λ j v e. absurd (ground arith);
      same_keys = λ j. ground arith;
      idle_known = λ j h. ground arith;
    };
    ranks = record { ranked = tt; non_neg = tt; filled = λ j h. absurd (ground arith) };
  }

  Step-WellFormed :
      {v w : World D} → Step (OfProducers D) v w → WellFormed v.state → WellFormed w.state
  Step-WellFormed {v} (section e p) g = serve-WellFormed e v.state p g
  Step-WellFormed (begin request) g = unfold begin_push in g
  Step-WellFormed {v} (turn {t} {s} {cur} draw taken go d e) g =
      let made = select_turn-WellFormed draw t.request t.cur_uid v.state d g in
      let same : made.0.0 ≡ s = ground (arith, made.1) in subst WellFormed same made.2
  Step-WellFormed (finish taken over) g = g
  Step-WellFormed {v} (answers {call} {rest} success taken) g =
      unfold answer on_get_response in
      decrease_producer_task-WellFormed call.svr_id _ (set_calls-WellFormed rest v.state g)
  Step-WellFormed {v} (answers {call} {rest} err taken) g =
      unfold answer on_get_response in
      decrease_producer_task-WellFormed call.svr_id _ (set_calls-WellFormed rest v.state g)
  Step-WellFormed {v} (fails {call} {rest} taken) g =
      unfold fail in break_circuit-WellFormed call.svr_id _ (set_calls-WellFormed rest v.state g)
  Step-WellFormed {v} (retries {call} taken) g =
      unfold retry in decrease_producer_task-WellFormed call.svr_id v.state g

  -- In every run in which only producers register and no reported score is negative, each
  -- reachable state is well-formed: the maps of servers and of producers are sorted and have the
  -- same keys, every server is a producer with a score that is not negative, every producer has
  -- its stub, the idle ones are registered, and the rank map names registered servers, at ranks
  -- that are not negative, and is not empty while a server is registered.
  pub Reach-WellFormed : {w : World D} → Reach (OfProducers D) w → WellFormed w.state
  Reach-WellFormed start = unfold start_world in start-WellFormed
  Reach-WellFormed (next r s) = Step-WellFormed s (Reach-WellFormed r)

  -- In every run in which only producers register and no reported score is negative, no round of
  -- SelectProducerAndSend is undefined, whatever the range and the draw, which is at most 10000:
  -- it neither reads an empty rank map, nor the entry at end(), nor a null stub.
  pub Reach-select_turn :
      {w : World D}
      → Reach (OfProducers D) w
      → (draw : ℕ) (request : ProduceMsgRequest) (cur : ℕ) → draw ≤ factor
      → (t : State D × ℕ) × (select_turn draw request cur w.state ≡ some t)
  Reach-select_turn {w} r draw request cur d =
      let made = select_turn-WellFormed draw request cur w.state d (Reach-WellFormed r) in
      (made.0, made.1)
