-- ===== src/System/Drain.antt =====
-- How the daemon goes on from a reachable state until every push is at its end.
pub mod Steps
use push_system.Common.{
  ℕ, zero, suc, ◌+◌, ◌-◌, ◌*◌, ◌/◌, ◌^◌, ◌≤◌, ◌<◌, ◌≡◌, refl, sym, ap, ◌∙◌, List, [], ◌∷◌, none,
  some, Bool, true, false, not, ◌&&◌, ◌==◌, arith, inl, inr, ◌⊎◌, All, All-Takes, Takes, here, leb,
  length, total, leb→le, Bool-cases, Option-cases,
}
use mathlib.Core.Path.{subst}
use push_system.Common.Leads.{LeadsTo, stop, more}
use push_system.Common.Word.{u32, u64}
use push_system.Double.{Double}
use push_system.StdMap.{StdMap, find, has, adjust, has-adjust}
use push_system.Shared.{success}
use push_system.Daemon.State.{State, Call, ProducerState, ProduceMsgRequest}
use push_system.Daemon.Dispatch.{uid_count_per_time, chunk, select_turn}
use push_system.Daemon.Replies.{decrease_producer_task, on_get_response}
use push_system.Daemon.Queue.{decrease-calls}
use push_system.Daemon.Invariant.Sending.{sent_state}
use push_system.System.{
  World, Sender, start_sender, answer, retry, Step, turn, finish, answers, retries, Reach, next,
}
use push_system.System.Bound.{registrations, Reach-Loads}
use push_system.System.Counter.{Reach-Counts}
use push_system.System.Coverage.{IsSmall, in_request, in_sender, in_call, Held, Reach-Held}
use push_system.System.Progress.{Progress, progress, must_wait, without_first}
use push_system.System.Safety.{OfProducers, Reach-WellFormed}
use push_system.System.Drain.Steps.{
  List-cases, left_to_send, work, Onward, Goes, answered-Goes, sent-Goes, finished-Goes,
  retried-Goes,
}

module _ {D : Type 0} ⦃dbl : Double D⦄ where
  -- A continuation in which all that was asked for is answered, and nothing new is asked for.
  abbrev Drains : World D → Type 0
  Drains w =
      (v : World D) × LeadsTo Onward v w
      × Reach (OfProducers D) v
      × (v.senders ≡ [])
      × (v.state.calls ≡ [])
      × (v.failing ≡ [])
      × (v.asked ≡ w.asked)

  Drains-from : (v w : World D) → Onward w v → v.asked ≡ w.asked → Drains v → Drains w
  Drains-from v w step e (u, steps, r, senders, calls, failing, asked) =
      (u, more step steps, r, senders, calls, failing, asked ∙ e)

  -- Calls are answered first; then a thread sends its next chunk or leaves its loop.
  drain : (id fuel : ℕ) (w : World D) → Goes id w → w.failing ≡ [] → work w ≤ fuel → Drains w
  drain id zero w g f b = elim (List-cases w.senders) [
    | inl s ↦ elim (List-cases w.state.calls) [
      | inl c ↦ (w, stop, g.reach, s, c, f, refl)
      | inr (call, (rest, e)) ↦ absurd (omega (arith, ap length e))
    ]
    | inr (t, (rest, e)) ↦ absurd (omega (arith, ap (total left_to_send) e))
  ]
  drain id (suc fuel) w g f b = elim (List-cases w.state.calls) [
    | inr (call, (rest, e)) ↦
        let taken : Takes call w.state.calls rest = rw e here in
        let v = answer success call rest w in
        let shape = answer-shape call rest w in
        Drains-from v w (answers success taken) shape.3 (
          drain id fuel v (answered-Goes id call rest w taken g) (shape.2 ∙ f)
            (omega (arith, ap (total left_to_send) shape.0, ap length shape.1, ap length e)))
    | inl c ↦ elim (List-cases w.senders) [
      | inl s ↦ (w, stop, g.reach, s, c, f, refl)
      | inr (t, (rest, e)) ↦
          let taken : Takes t w.senders rest = rw e here in
          let weighs = ap (total left_to_send) e in
          elim (Bool-cases (leb t.cur_uid t.request.end_uid)) [
            | inr over ↦
                Drains-from (record w { senders = rest }) w (finish taken over) refl
                  (drain id fuel (record w { senders = rest })
                    (finished-Goes id t rest w taken over g) f (omega (arith, weighs)))
            | inl go ↦
                let (v, step, h, senders, one, none_failing, asked) =
                  sent-Goes id t rest w taken go c f g in
                let small =
                  All-Takes (λ t. IsSmall t.request) taken
                    (Reach-Held g.reach g.small).small_senders in
                Drains-from v w step asked (
                  drain id fuel v h none_failing (
                    omega (
                      arith,
                      ap (total left_to_send) senders,
                      one,
                      weighs,
                      ap length c,
                      small.0,
                      leb→le _ _ go,
                    )))
          ]
    ]
  ]
    where
      answer-shape :
          (call : Call) (rest : List Call) (w : World D)
          → ((answer success call rest w).senders ≡ w.senders)
            × ((answer success call rest w).state.calls ≡ rest)
            × ((answer success call rest w).failing ≡ w.failing)
            × ((answer success call rest w).asked ≡ w.asked)
      answer-shape call rest w =
          unfold answer on_get_response in
          (refl, decrease-calls call.svr_id (record w.state { calls = rest }), refl, refl)

  -- The failing calls are sent again first.
  retry_all :
      (id : ℕ) (failing : List Call) (w : World D) → w.failing ≡ failing → Goes id w → Drains w
  retry_all id [] w e g = drain id (work w) w g e (omega arith)
  retry_all id (call ∷ rest) w e g =
      let taken : Takes call w.failing rest = rw e here in
      Drains-from (retry call rest w) w (retries taken) (unfold retry in refl) (
        retry_all id rest (retry call rest w) (unfold retry in refl)
          (retried-Goes id call rest w taken g))

  -- From every state of a run in which only producers register, no reported score is negative,
  -- there are fewer than 2³⁰ registrations and no range that was asked for ends within 4096 of
  -- 2⁶⁴, if a producer is registered, steps lead on, none of them a handler, a timer or a new
  -- request, to a state in which no thread is in SelectProducerAndSend, no call is under way and
  -- none is failing, in which nothing more has been asked for, and in which each uid of each
  -- message has been answered with SUCCESS exactly as often as it was asked for.
  pub Reach-drains :
      {w : World D} (r : Reach (OfProducers D) w) (id : ℕ)
      → registrations r < 2 ^ 30
      → has id w.state.producer_states ≡ true
      → All IsSmall w.asked
      → (v : World D) × LeadsTo (Step (λ _. ⊥)) v w
        × Reach (OfProducers D) v
        × (v.senders ≡ [])
        × (v.state.calls ≡ [])
        × (v.failing ≡ [])
        × (v.asked ≡ w.asked)
        × ((msg uid : ℕ)
            → total (in_request msg uid) v.answered ≡ total (in_request msg uid) w.asked)
  Reach-drains {w} r id few producer small =
      let (v, steps, reach, senders, calls, failing, asked) =
        retry_all id w.failing w refl
          (record { reach = r; few = few; producer = producer; small = small }) in
      let held = (Reach-Held reach (rw asked small)).whole in
      (
        v,
        steps,
        reach,
        senders,
        calls,
        failing,
        asked,
        λ msg uid. omega (
          arith,
          held msg uid,
          ap (total (in_sender msg uid)) senders,
          ap (total (in_call msg uid)) calls,
          ap (total (in_call msg uid)) failing,
          ap (total (in_request msg uid)) asked,
        ),
      )
