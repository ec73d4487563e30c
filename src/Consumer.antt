-- ===== src/Consumer.antt =====
-- consumer/consumer.cpp: what the consumer does with the messages that RocketMQ hands over, with its
-- threads and that of `gTps` in any order. Its gRPC handler is with those of the other servers.
pub mod Shown
use push_system.Common.{ℕ, List, [], ◌∷◌, ◌++◌, ◌≡◌, none, some, Takes, Text}
use push_system.Double.{Double}
use push_system.Producer.Task.{ProducerMsg}
use push_system.Producer.Report.{TpsReportService, new_tps, increment, tps_load, tps_store}

-- The answers that a listener of RocketMQ can give.
pub data ConsumeStatus : Type 0 where
  consume_success reconsume_later : ConsumeStatus

-- `gTps`, the lines of the log, the bodies that each call of `consumeMessage` has still to look at,
-- and what the calls that are over returned.
pub record Consumer (D : Type 0) : Type 0 where
  pub tps : TpsReportService D
  pub shown : List ProducerMsg
  pub batches : List (List Text)
  pub statuses : List ConsumeStatus

unfoldable pub new_consumer : {D : Type 0} ⦃dbl : Double D⦄ → Consumer D
new_consumer = record { tps = new_tps; shown = []; batches = []; statuses = [] }

-- `parse` is what is in a new `ProducerMsg` after `ParseFromString`, whose result is not looked at.
module _ {D : Type 0} ⦃dbl : Double D⦄ (parse : Text → ProducerMsg) where
  -- The body of the loop over the messages.
  unfoldable pub consume_one : Text → Consumer D → Consumer D
  consume_one body c = record c { tps = increment c.tps; shown = c.shown ++ parse body ∷ [] }

  -- The end of `MsgListener::consumeMessage`.
  unfoldable pub end_batch : List (List Text) → Consumer D → Consumer D
  end_batch rest c = record c { batches = rest; statuses = consume_success ∷ c.statuses }

  -- `handed` is the bodies that RocketMQ has handed over so far.
  pub data ConsumerReach : (handed : List Text) → Consumer D → Type 0 where
    start : ConsumerReach [] new_consumer
    -- A call of `consumeMessage`.
    hand :
        {handed : List Text} {c : Consumer D} (bodies : List Text)
        → ConsumerReach handed c
        → ConsumerReach (bodies ++ handed) (record c { batches = bodies ∷ c.batches })
    one :
        {handed : List Text} {c : Consumer D} {body : Text} {bodies : List Text}
        {rest : List (List Text)}
        → ConsumerReach handed c
        → Takes (body ∷ bodies) c.batches rest
        → ConsumerReach handed (consume_one body (record c { batches = bodies ∷ rest }))
    ends :
        {handed : List Text} {c : Consumer D} {rest : List (List Text)}
        → ConsumerReach handed c
        → Takes [] c.batches rest
        → ConsumerReach handed (end_batch rest c)
    -- `TpsReport`, cut at its load and its store.
    loads :
        {handed : List Text} {c : Consumer D}
        → ConsumerReach handed c
        → c.tps.loaded ≡ none
        → ConsumerReach handed (record c { tps = tps_load c.tps })
    stores :
        {handed : List Text} {c : Consumer D} {count : ℕ}
        → ConsumerReach handed c
        → c.tps.loaded ≡ some count
        → ConsumerReach handed (record c { tps = tps_store count c.tps })
