-- ===== src/Daemon/Dispatch.antt =====
-- `SelectProducerAndSend`: a range of uids goes out in chunks of 4096, each to one producer.
pub mod Rounds
pub mod NullStub
use push_system.Common.{
  ℕ, ◌+◌, ◌-◌, ◌*◌, List, [], ◌∷◌, Option, none, some, not, ◌&&◌, ltb, leb, ◌==◌, if◌then◌else◌,
  length, ◌>>=◌,
}
use push_system.Common.Word.{u32, u64, inc32}
use push_system.Double.{Double}
use push_system.StdMap.{StdMap, find, adjust, touch}
use push_system.Daemon.State.{
  State, ProducerState, ProducerCaller, ProduceMsgRequest, Call, no_producer,
}
use push_system.Daemon.Balance.{lower_bound, last_rank}

abbrev pub uid_count_per_time : ℕ
uid_count_per_time = 4096

-- `factor`, the bound of the random draw.
abbrev pub factor : ℕ
factor = 10000

-- The end of the chunk that starts at `cur`.
unfoldable pub chunk_end : ℕ → ℕ → ℕ
chunk_end cur end_uid =
    let last = u64 (cur + uid_count_per_time - 1) in if ltb end_uid last then end_uid else last

unfoldable pub chunk : ProduceMsgRequest → ℕ → ProduceMsgRequest
unfolding chunk_end
chunk request cur = record request { start_uid = cur; end_uid = chunk_end cur request.end_uid }

-- `ProducerCaller::ProduceMsg`: a call more on the queue; a null stub is dereferenced.
unfoldable pub produce_msg : ProducerCaller → ℕ → ProduceMsgRequest → List Call → Option (List Call)
produce_msg caller id request calls = elim caller.stub [
  | none ↦ none
  | some _ ↦ some (record { svr_id = id; request = request } ∷ calls)
]

abbrev pub entry : ℕ → StdMap ProducerState → ProducerState
entry id m = elim (find id m) [ none ↦ no_producer | some p ↦ p ]

module _ {D : Type 0} where
  -- What both branches do with the producer that they chose; `++sendingCount` included.
  unfoldable pub dispatch : ℕ → ProduceMsgRequest → State D → Option (State D)
  unfolding produce_msg
  dispatch id request s =
      let producers =
        adjust id (λ p. record p { cur_task_count = inc32 p.cur_task_count })
          (touch id no_producer s.producer_states) in
      do
        calls ← produce_msg (entry id producers).producer_caller id request s.calls
        some (record s {
          producer_states = producers;
          sending_count = inc32 s.sending_count;
          calls = calls;
        })

  unfoldable pub send_chunk : ℕ → ProduceMsgRequest → ℕ → State D → Option (State D × ℕ)
  send_chunk id request cur s =
      dispatch id (chunk request cur) s >>= λ sent. some (sent, u64 (cur + uid_count_per_time))

module _ {D : Type 0} ⦃dbl : Double D⦄ where
  open dbl use {times, over, of_nat}

  -- The producer of a random rank; `draw` is `dist(rng)`. Reading the last rank of an empty map,
  -- or the entry at `end()`, is undefined.
  unfoldable pub pick_by_rank : ℕ → State D → Option ℕ
  pick_by_rank draw s = do
    last ← last_rank s.rank_to_svr
    lower_bound (times (over (of_nat draw) (of_nat factor)) last) s.rank_to_svr

  -- One round of the loop, with the lock held: the new state and the new `curUid`, which stays
  -- where it is if every producer is busy and the thread sleeps.
  unfoldable pub select_turn : ℕ → ProduceMsgRequest → ℕ → State D → Option (State D × ℕ)
  unfolding send_chunk
  select_turn draw request cur s =
      let size = u32 (length s.producer_states) in
      elim s.idle_producers [
        | (id, _) ∷ others ↦ send_chunk id request cur (record s { idle_producers = others })
        | [] ↦
            if leb s.sending_count (u32 (3 * size)) && not (size == 0)
            then (pick_by_rank draw s >>= λ id. send_chunk id request cur s)
            else some (s, cur)
      ]
