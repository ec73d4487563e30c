-- ===== src/Examples/Producer.antt =====
-- The theorems on the producer at concrete inputs.
use push_system.Common.{
  ℕ, ◌+◌, ◌-◌, ◌/◌, ◌%◌, ◌*◌, ◌<◌, ◌≡◌, refl, List, [], ◌∷◌, none, some, ◌&&◌, leb, ltb,
  if◌then◌else◌, arith, count, total, length, ◌⊎◌, here,
}
use push_system.Common.Int.{pos}
use push_system.Common.Word.{inc32, u32}
use push_system.Shared.{success, finish}
use push_system.Redis.{ReplyKind, RedisClient}
use push_system.Daemon.State.{ProduceMsgRequest}
use push_system.Producer.Bitmap.{bit_at, byte_uids, uids_to_send}
use push_system.Producer.Bitmap.Selected.{bit_of, get_range}
use push_system.Producer.Bitmap.Copied.{copy_bytes-uids_to_send}
use push_system.Producer.Prepare.{load_user_info, loaded, copy_bytes, byte_count}
use push_system.Producer.Task.{
  Task, ProducerMsg, new_task, notify_one, send_all, proceed, MqReach, send, on_success, next,
}
use push_system.Producer.Task.Delivery.{begun_task, MqReach-delivered}
use push_system.Producer.Task.Leak.{proceed-failed, proceed-empty}

-- A chunk that starts in the middle of a byte: uid 5 is chosen by bit 1.
copy_bytes-uids_to_send_example :
    (bytes : List ℕ) × (copy_bytes (byte_count 4 12) (get_range (4 / 8) (12 / 8) (64 ∷ 0 ∷ []))
      ≡ loaded bytes)
    × ((u : ℕ)
        → count u (uids_to_send 4 0 bytes) ≡ (
            if leb 4 u && (ltb u (4 + 8 * (12 / 8 - 4 / 8 + 1)) && bit_of (64 ∷ 0 ∷ []) (u - 4 % 8))
            then 1
            else 0))
copy_bytes-uids_to_send_example =
    copy_bytes-uids_to_send 4 12 (64 ∷ 0 ∷ []) (omega arith) (omega arith) (omega arith)

shifted_uids : uids_to_send 4 0 (64 ∷ 0 ∷ []) ≡ 5 ∷ []
unfolding uids_to_send byte_uids bit_at
shifted_uids = refl

abbrev pub greeting : ProducerMsg
greeting = record { to_uid = 5; msg_id = 1 }

abbrev pub delivered : Task
delivered = record (begun_task 3) {
  status = finish;
  reply_err = success;
  finishes = 1;
  task_count = 3;
  sent = greeting ∷ [];
}

pub delivered-MqReach : MqReach (send_all (greeting ∷ []) (begun_task 3)) delivered
unfolding send_all notify_one
delivered-MqReach = next (next MqReach.here (send here)) (on_success here)

MqReach-delivered_example :
    ((delivered.finishes ≡ 1)
      × (delivered.unsent ≡ [])
      × (delivered.sending ≡ [])
      × ((w : ProducerMsg → ℕ) → total w delivered.sent ≡ total w (greeting ∷ []))
      × (delivered.reply_err ≡ success)
      × (delivered.task_count ≡ u32 3))
    ⊎ ((delivered.finishes ≡ 0) × (0 < length delivered.unsent + length delivered.sending))
MqReach-delivered_example =
    MqReach-delivered (greeting ∷ []) 3 (omega arith) (omega arith) delivered-MqReach

-- A server that does not answer, and one whose bitmap is there and has these bytes.
abbrev dead : RedisClient (Unit {0})
dead = record { command = λ c r. (r, none) }

abbrev serving : List ℕ → RedisClient (Unit {0})
serving bytes = record {
  command = λ c r. (r, some (record { kind = ReplyKind.other; integer = pos 1; str = bytes }));
}

abbrev request : ProduceMsgRequest
request = record { msg_id = 1; start_uid = 0; end_uid = 7 }

proceed-failed_example :
    ((proceed dead request tt (new_task 3)).1 ≡ some (begun_task 3))
    × ((begun_task 3).finishes ≡ 0)
    × ((begun_task 3).task_count ≡ inc32 3)
unfolding load_user_info
proceed-failed_example = proceed-failed dead request tt 3 (begun_task 3) refl MqReach.here

proceed-empty_example :
    ((proceed (serving (0 ∷ [])) request tt (new_task 3)).1 ≡ some (send_all [] (begun_task 3)))
    × ((send_all [] (begun_task 3)).finishes ≡ 1)
    × ((send_all [] (begun_task 3)).task_count ≡ inc32 3)
unfolding load_user_info copy_bytes byte_count uids_to_send byte_uids bit_at
proceed-empty_example =
    proceed-empty (serving (0 ∷ [])) request tt 3 (0 ∷ []) (send_all [] (begun_task 3)) refl refl
      MqReach.here
