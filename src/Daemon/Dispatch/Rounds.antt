-- ===== src/Daemon/Dispatch/Rounds.antt =====
-- The loop of `SelectProducerAndSend` by itself: the chunks that it sends when no round has to wait.
use push_system.Common.{
  ℕ, zero, suc, ◌+◌, ◌-◌, ◌/◌, ◌%◌, ◌^◌, ◌<◌, ◌≤◌, ◌≡◌, refl, List, [], ◌∷◌, Option, none, some,
  leb, if◌then◌else◌, arith, inl, inr, Bool-cases, leb→le, ap,
}
use push_system.Common.Word.{u64}
use push_system.Daemon.State.{ProduceMsgRequest}
use push_system.Daemon.Dispatch.{uid_count_per_time, chunk}

-- `for (curUid = cur; curUid <= end_uid;)`, each round of which sends; none if the fuel runs out.
unfoldable pub rounds : ℕ → ProduceMsgRequest → ℕ → Option (List ProduceMsgRequest)
rounds zero request cur = none
rounds (suc fuel) request cur =
    let rest = rounds fuel request (u64 (cur + uid_count_per_time)) in
    if leb cur request.end_uid
    then elim rest [ none ↦ none | some l ↦ some (chunk request cur ∷ l) ]
    else some []

-- The ranges that a push is meant to be cut into: `n` of 4096 uids from `cur` on, the last one
-- shorter if the range ends before.
abbrev pub plan : ℕ → ProduceMsgRequest → ℕ → List ProduceMsgRequest
plan zero request cur = []
plan (suc n) request cur =
    record request {
      start_uid = cur;
      end_uid = if leb (cur + 4095) request.end_uid then cur + 4095 else request.end_uid;
    }
    ∷ plan n request (cur + 4096)

chunk-plan :
    (n cur : ℕ) (request : ProduceMsgRequest)
    → request.end_uid + 4096 < 2 ^ 64
    → cur ≤ request.end_uid
    → chunk request cur ∷ plan n request (u64 (cur + 4096)) ≡ plan (suc n) request cur
unfolding chunk
chunk-plan n cur request small go =
    let same : u64 (cur + 4096) ≡ cur + 4096 = omega arith in rw same (ground arith)

-- The number of chunks from `cur` on.
abbrev pub chunk_count : ProduceMsgRequest → ℕ → ℕ
chunk_count request cur = (request.end_uid + 4096 - cur) / 4096

-- The loop of SelectProducerAndSend, when no round has to wait, ends and sends the ranges of 4096
-- uids from the start of the push on, in their order, the last one cut at its end: with a range
-- that ends more than 4096 below 2⁶⁴, one round more than there are chunks is enough.
pub rounds-plan :
    (fuel : ℕ) (request : ProduceMsgRequest) (cur : ℕ)
    → request.end_uid + 4096 < 2 ^ 64
    → chunk_count request cur < fuel
    → rounds fuel request cur ≡ some (plan (chunk_count request cur) request cur)
unfolding rounds
rounds-plan zero request cur small enough = absurd (omega arith)
rounds-plan (suc fuel) request cur small enough = elim (Bool-cases (leb cur request.end_uid)) [
  | inl go ↦
      let le : cur ≤ request.end_uid = leb→le _ _ go in
      let next = u64 (cur + 4096) in
      let more : chunk_count request cur ≡ suc (chunk_count request next) = omega arith in
      rw (go, more, rounds-plan fuel request next small (omega arith))
        (ap some (chunk-plan (chunk_count request next) cur request small le))
  | inr over ↦
      let past : request.end_uid < cur = ground arith in
      let none_left : chunk_count request cur ≡ 0 = omega arith in rw (over, none_left)
]

-- A range that reaches into the last 4096 uids below 2⁶⁴, counted from the offset of its start, is
-- never done: curUid wraps around and the loop starts over, whatever the fuel.
pub rounds_endless :
    (fuel : ℕ) (request : ProduceMsgRequest) (cur : ℕ)
    → cur < 2 ^ 64
    → 2 ^ 64 - 4096 + cur % 4096 ≤ request.end_uid
    → rounds fuel request cur ≡ none
unfolding rounds
rounds_endless zero request cur word far = refl
rounds_endless (suc fuel) request cur word far =
    ground (arith, rounds_endless fuel request (u64 (cur + 4096)) (omega arith) (omega arith))
