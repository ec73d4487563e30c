-- ===== src/System/Drain/Steps.antt =====
-- The steps that bring a push to its end: each is possible, and leaves less to do.
use push_system.Common.{
  ℕ, ◌+◌, ◌-◌, ◌*◌, ◌/◌, ◌^◌, ◌<◌, ◌≡◌, refl, ◌∙◌, List, [], ◌∷◌, true, false, arith, inl, inr, ◌⊎◌,
  All, Takes, leb, length, total, Option-cases,
}
use push_system.Common.Word.{u64}
use push_system.Double.{Double}
use push_system.StdMap.{StdMap, find, has, has-adjust}
use push_system.Shared.{success}
use push_system.Daemon.State.{State, Call}
use push_system.Daemon.Dispatch.{uid_count_per_time, chunk}
use push_system.Daemon.Replies.{decrease_producer_task, on_get_response}
use push_system.Daemon.Invariant.Sending.{sent_state}
use push_system.System.{
  World, Sender, answer, retry, Step, turn, finish, answers, retries, Reach, next,
}
use push_system.System.Bound.{registrations, Reach-Loads}
use push_system.System.Counter.{Reach-Counts}
use push_system.System.Coverage.{IsSmall}
use push_system.System.Progress.{progress, must_wait, without_first}
use push_system.System.Safety.{OfProducers, Reach-WellFormed}

pub List-cases : {A : Type 0} (l : List A) → (l ≡ []) ⊎ ((x : A) × ((xs : List A) × (l ≡ x ∷ xs)))
List-cases [] = inl refl
List-cases (x ∷ xs) = inr (x, (xs, refl))

has-length : {V : Type 0} (id : ℕ) (m : StdMap V) → has id m ≡ true → 0 < length m
unfolding find
has-length id [] h = absurd (ground arith)
has-length id (e ∷ m) h = omega arith

-- What is left to do, if every call is answered with SUCCESS.
abbrev pub left_to_send : Sender → ℕ
left_to_send t = 2 * ((t.request.end_uid + 4096 - t.cur_uid) / 4096 + 1)

abbrev pub work : {D : Type 0} → World D → ℕ
work w = total left_to_send w.senders + length w.state.calls

free-must_wait :
    {D : Type 0} (s : State D) (idle : StdMap (Unit {0}))
    → s.idle_producers ≡ idle
    → s.sending_count ≡ 0
    → 0 < length s.producer_states
    → length s.producer_states < 2 ^ 32
    → must_wait s ≡ false
free-must_wait s [] e c low high = ground arith
free-must_wait s (i ∷ idle) e c low high = ground arith

decrease-has :
    {D : Type 0} (j id : ℕ) (s : State D)
    → has j (decrease_producer_task id s).producer_states ≡ has j s.producer_states
unfolding decrease_producer_task
decrease-has j id s = elim (Option-cases (find id s.producer_states)) [
  | inl e ↦ rw (e, decrease_producer_task) refl
  | inr (p, e) ↦ rw (e, decrease_producer_task) (has-adjust j id _ s.producer_states)
]

module _ {D : Type 0} ⦃dbl : Double D⦄ where
  -- A step of the daemon's own, without a handler or a timer.
  abbrev pub Onward : World D → World D → Type 0
  Onward = Step (λ _. ⊥)

  -- The runs from which it goes on.
  pub record Goes (id : ℕ) (w : World D) : Type 0 where
    pub reach : Reach (OfProducers D) w
    pub few : registrations reach < 2 ^ 30
    pub producer : has id w.state.producer_states ≡ true
    pub small : All IsSmall w.asked

  pub answered-Goes :
      (id : ℕ) (call : Call) (rest : List Call) (w : World D)
      → Takes call w.state.calls rest
      → Goes id w
      → Goes id (answer success call rest w)
  unfolding answer on_get_response registrations
  answered-Goes id call rest w taken g = record {
    reach = next g.reach (answers success taken);
    few = g.few;
    producer = decrease-has id call.svr_id (record w.state { calls = rest }) ∙ g.producer;
    small = g.small;
  }

  -- With no call under way, a thread in the loop sends its next chunk.
  pub sent-Goes :
      (id : ℕ) (t : Sender) (rest : List Sender) (w : World D)
      → Takes t w.senders rest
      → leb t.cur_uid t.request.end_uid ≡ true
      → w.state.calls ≡ []
      → w.failing ≡ []
      → Goes id w
      → (v : World D) × Onward w v
        × Goes id v
        × (v.senders ≡ record t { cur_uid = u64 (t.cur_uid + uid_count_per_time) } ∷ rest)
        × (length v.state.calls ≡ 1)
        × (v.failing ≡ [])
        × (v.asked ≡ w.asked)
  unfolding registrations
  sent-Goes id t rest w taken go calls failing g =
      let s = w.state in
      let none_sent : s.sending_count ≡ 0 = ground (arith, Reach-Counts g.reach) in
      let free =
        free-must_wait s s.idle_producers refl none_sent
          (has-length id s.producer_states g.producer)
          (omega (arith, (Reach-Loads g.reach g.few).1, g.few)) in
      elim (progress 0 t.request t.cur_uid s s.idle_producers refl (omega arith)
        (Reach-WellFormed g.reach)) [
          | inl (waits, _) ↦ absurd (ground arith)
          | inr (_, (to, _, _, e)) ↦
              let after =
                sent_state to (chunk t.request t.cur_uid)
                  (record s { idle_producers = without_first s.idle_producers }) in
              (
                record w {
                  state = after;
                  senders = record t { cur_uid = u64 (t.cur_uid + uid_count_per_time) } ∷ rest;
                },
                turn 0 taken go (omega arith) e,
                record {
                  reach = next g.reach (turn 0 taken go (omega arith) e);
                  few = g.few;
                  producer = has-adjust id to _ s.producer_states ∙ g.producer;
                  small = g.small;
                },
                refl,
                ground arith,
                failing,
                refl,
              )
        ]

  pub finished-Goes :
      (id : ℕ) (t : Sender) (rest : List Sender) (w : World D)
      → Takes t w.senders rest
      → leb t.cur_uid t.request.end_uid ≡ false
      → Goes id w
      → Goes id (record w { senders = rest })
  unfolding registrations
  finished-Goes id t rest w taken over g = record {
    reach = next g.reach (finish taken over);
    few = g.few;
    producer = g.producer;
    small = g.small;
  }

  pub retried-Goes :
      (id : ℕ) (call : Call) (rest : List Call) (w : World D)
      → Takes call w.failing rest
      → Goes id w
      → Goes id (retry call rest w)
  unfolding retry registrations
  retried-Goes id call rest w taken g = record {
    reach = next g.reach (retries taken);
    few = g.few;
    producer = decrease-has id call.svr_id w.state ∙ g.producer;
    small = g.small;
  }
