-- ===== src/Consumer/Shown.antt =====
-- What a consumer shows of the messages of a chunk.
use push_system.Common.{ℕ, ◌+◌, ◌<◌, ◌^◌, ◌≡◌, List, length, total, Text}
use push_system.Double.{Double}
use push_system.Producer.Task.{ProducerMsg, Task}
use push_system.Producer.Report.{TpsReach}
use push_system.Consumer.{Consumer}

-- `uint64 to_uid` and `uint32 msg_id`
abbrev pub IsWord : ProducerMsg → Type 0
IsWord m = (m.to_uid < 2 ^ 64) × (m.msg_id < 2 ^ 32)

module _ {D : Type 0} ⦃dbl : Double D⦄ (parse : Text → ProducerMsg) where
  -- What was handed over is shown or still to be looked at, under any weight; each message shown was
  -- counted.
  record Shows (handed : List Text) (c : Consumer D) : Type 0 where
    whole :
        (w : ProducerMsg → ℕ)
        → total (λ body. w (parse body)) handed
          ≡ total w c.shown + total (total (λ body. w (parse body))) c.batches
    counted : TpsReach (length c.shown) c.tps
