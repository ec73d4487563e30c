-- ===== src/Examples/Consumer.antt =====
-- The one message of a call goes through, while the report thread runs.
use push_system.Common.{ℕ, [], ◌∷◌, none, Text}
use push_system.Producer.Task.{ProducerMsg}
use push_system.Consumer.{Consumer, consume_success}
use push_system.Examples.Numbers.{nat_double}
use push_system.Examples.Producer.{greeting}

-- A body of two words.
abbrev serialize : ProducerMsg → Text
serialize m = m.to_uid ∷ m.msg_id ∷ []

abbrev parse : Text → ProducerMsg
parse (to_uid ∷ msg_id ∷ []) = record { to_uid = to_uid; msg_id = msg_id }
parse _ = record { to_uid = 0; msg_id = 0 }

-- The report thread has loaded 0 before the message was counted, and has stored 0 after it.
abbrev shown_once : Consumer ℕ
shown_once = record {
  tps = record { tps_count = 0; total_count = 0; avg_speed = 0; loaded = none };
  shown = greeting ∷ [];
  batches = [];
  statuses = consume_success ∷ [];
}
