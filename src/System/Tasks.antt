-- ===== src/System/Tasks.antt =====
-- Whose calls the tasks of a producer are.
pub mod Runs
use push_system.Common.{
  ℕ, suc, ◌+◌, ◌*◌, ◌^◌, ◌≤◌, ◌<◌, ◌≡◌, refl, List, [], ◌∷◌, none, some, Bool, true, false, not,
  ◌&&◌, ◌==◌, arith, inl, inr, length, total, ap, sym, Takes, total-Takes, Option-cases, Bool-cases,
  if◌then◌else◌, Text,
}
use push_system.Common.Word.{inc32, dec32}
use push_system.Double.{Double}
use push_system.StdMap.{
  StdMap, find, has, insert, assign, adjust, IsSorted, find-adjust, find-assign, has-insert,
  has-assign, insert-IsSorted, Above-find,
}
use push_system.Daemon.State.{
  State, ServerInfo, Call, ProducerState, ProduceMsgRequest, start_state,
}
use push_system.Daemon.Registry.{new_producer}
use push_system.Daemon.Replies.{decrease_producer_task}
use push_system.Daemon.Invariant.Servers.{admitted}
use push_system.Daemon.Invariant.Sending.{sent_state}
use push_system.Daemon.Invariant.Shrinks.{Shrinks}
use push_system.System.Progress.{IsFirst, without_first}

-- Every producer has as many tasks as `pending` says, and is idle exactly if it has none.
pub record Tasks {D : Type 0} (pending : ℕ → ℕ) (s : State D) : Type 0 where
  pub idle_sorted : IsSorted s.idle_producers
  pub held :
      (id : ℕ) (p : ProducerState)
      → find id s.producer_states ≡ some p
      → (p.cur_task_count ≡ pending id) × (has id s.idle_producers ≡ (pending id == 0))

without_first-IsSorted : (idle : StdMap (Unit {0})) → IsSorted idle → IsSorted (without_first idle)
without_first-IsSorted [] s = tt
without_first-IsSorted (_ ∷ others) s = s.1

has-without_first :
    (id j : ℕ) (idle : StdMap (Unit {0}))
    → IsSorted idle
    → IsFirst id idle
    → has j (without_first idle) ≡ not (id == j) && has j idle
unfolding find
has-without_first id j [] s f = ground arith
has-without_first id j ((k, tt) ∷ others) s f = elim (Option-cases (find j others)) [
  | inl e ↦ ground arith
  | inr (v, e) ↦ ground (arith, Above-find k j v others s.0 e)
]

module _ {D : Type 0} where
  pub Shrinks-Tasks :
      (pending : ℕ → ℕ) (s t : State D) → Shrinks s t → Tasks pending s → Tasks pending t
  Shrinks-Tasks pending s t h l = record {
    idle_sorted = h.idle_sorted l.idle_sorted;
    held = λ id p e.
        let q = h.kept id p e in
        let r = l.held id q.0 q.1 in (ground (arith, r.0, q.2), ground (arith, r.1, q.3));
  }

  -- A call goes out to `id`.
  pub sent-Tasks :
      (pending after : ℕ → ℕ) (id : ℕ) (request : ProduceMsgRequest) (s : State D)
      → ((j : ℕ) → after j ≡ (if id == j then 1 else 0) + pending j)
      → after id < 2 ^ 32
      → IsFirst id s.idle_producers
      → Tasks pending s
      → Tasks after
          (sent_state id request (record s { idle_producers = without_first s.idle_producers }))
  sent-Tasks pending after id request s more b f l = record {
    idle_sorted = without_first-IsSorted s.idle_producers l.idle_sorted;
    held = λ j p e. elim (Option-cases (find j s.producer_states)) [
      | inl out ↦ absurd (ground (arith, find-adjust j id write s.producer_states))
      | inr (q, there) ↦
          let h = l.held j q there in
          (
            ground (arith, find-adjust j id write s.producer_states, h.0, more j, b),
            ground (arith, has-without_first id j s.idle_producers l.idle_sorted f, h.1, more j),
          )
    ];
  }
    where
      write : ProducerState → ProducerState
      write p = record p { cur_task_count = inc32 p.cur_task_count }

  -- A call of `id` ends.
  pub decrease-Tasks :
      (pending after : ℕ → ℕ) (id : ℕ) (s : State D)
      → ((j : ℕ) → pending j ≡ (if id == j then 1 else 0) + after j)
      → pending id < 2 ^ 32
      → Tasks pending s
      → Tasks after (decrease_producer_task id s)
  unfolding decrease_producer_task
  decrease-Tasks pending after id s less b l = elim (Option-cases (find id s.producer_states)) [
    | inl out ↦
        rw (out, decrease_producer_task)
          (record {
            idle_sorted = l.idle_sorted;
            held = λ j p e.
                let h = l.held j p e in
                let other : (id == j) ≡ false = ground arith in
                (ground (arith, less j), ground (arith, less j, h.1));
          })
    | inr (q, there) ↦
        rw (there, decrease_producer_task) (ended q there (dec32 q.cur_task_count == 0) refl)
  ]
    where
      ended :
          (q : ProducerState)
          → find id s.producer_states ≡ some q
          → (free : Bool) → (dec32 q.cur_task_count == 0) ≡ free
          → Tasks after (record s {
            sending_count = dec32 s.sending_count;
            producer_states =
                adjust id
                  (λ p. record p { cur_task_count = dec32 q.cur_task_count })
                  s.producer_states;
            idle_producers = if free then insert id tt s.idle_producers else s.idle_producers;
          })
      ended q there free d = record {
        idle_sorted =
            ground (arith, insert-IsSorted id tt s.idle_producers l.idle_sorted, l.idle_sorted);
        held = λ j p e. elim (Option-cases (find j s.producer_states)) [
          | inl out ↦ absurd (ground (arith, find-adjust j id write s.producer_states))
          | inr (r, found) ↦
              let h = l.held j r found in
              (
                ground (arith, find-adjust j id write s.producer_states, h.0, less j, b),
                ground (arith, has-insert j id tt s.idle_producers, h.0, h.1, less j, b, d),
              )
        ];
      }
        where
          write : ProducerState → ProducerState
          write p = record p { cur_task_count = dec32 q.cur_task_count }

module _ {D : Type 0} ⦃dbl : Double D⦄ where
  -- A producer registers under an id of which no call is left.
  pub admitted-Tasks :
      (pending : ℕ → ℕ) (id : ℕ) (address : Text) (info : ServerInfo D) (s : State D)
      → pending id ≡ 0
      → Tasks pending s
      → Tasks pending (admitted id address info s)
  admitted-Tasks pending id address info s fresh l = record {
    idle_sorted = insert-IsSorted id tt s.idle_producers l.idle_sorted;
    held = λ j p e. elim (Bool-cases (id == j)) [
      | inl same ↦ (
        ground (arith, find-assign j id (new_producer address) s.producer_states, new_tasks),
        ground (arith, has-insert j id tt s.idle_producers),
      )
      | inr other ↦
          let h =
            l.held j p
              (ground (arith, find-assign j id (new_producer address) s.producer_states)) in
          (h.0, ground (arith, has-insert j id tt s.idle_producers, h.1))
    ];
  }
    where
      new_tasks : (new_producer address).cur_task_count ≡ 0
      new_tasks = unfold new_producer in refl
