-- ===== src/Producer/Task.antt =====
-- One `ProduceMsgCallData` from the moment its request comes: `ProduceMsg`, the messages that it
-- hands to RocketMQ, the callbacks of `ProducerSendCallBack`, and `NotifyOne`.
pub mod Delivery
pub mod Leak
use push_system.Common.{
  ℕ, ◌+◌, List, [], ◌∷◌, map, Option, none, some, Bool, ◌==◌, if◌then◌else◌, length, Takes,
}
use push_system.Common.Word.{u32, inc32, dec32}
use push_system.Shared.{ErrCode, success, err, CallStatus, process, finish}
use push_system.Redis.{RedisClient}
use push_system.Daemon.State.{ProduceMsgRequest}
use push_system.Producer.Bitmap.{uids_to_send}
use push_system.Producer.Prepare.{Loaded, failed, loaded, overread, load_user_info}

-- `ProducerMsg` of producer.proto; a uint64 and a uint32, whose ranges stand where they matter.
pub record ProducerMsg : Type 0 where
  pub to_uid : ℕ
  pub msg_id : ℕ

pub record Task : Type 0 where
  pub status : CallStatus
  pub reply_err : ErrCode
  -- How often `responder_.Finish` was called.
  pub finishes : ℕ
  pub wait_for_send_count : ℕ
  -- The global `taskCount`, an int32 as a word.
  pub task_count : ℕ
  -- Messages in an `AsyncProducerWorker` (of the loop or of `RetrySending`), with the broker, and
  -- sent.
  pub unsent : List ProducerMsg
  pub sending : List ProducerMsg
  pub sent : List ProducerMsg

-- A call whose request has come, with `taskCount` at the number.
abbrev pub new_task : ℕ → Task
new_task task_count = record {
  status = process;
  reply_err = success;
  finishes = 0;
  wait_for_send_count = 0;
  task_count = task_count;
  unsent = [];
  sending = [];
  sent = [];
}

-- `reply_.set_err(SUCCESS)` and `responder_.Finish`.
unfoldable pub answer : Task → Task
answer t = record t { status = finish; reply_err = success; finishes = t.finishes + 1 }

-- `NotifyOne`
unfoldable pub notify_one : Task → Task
unfolding answer
notify_one t =
    let left = dec32 t.wait_for_send_count in
    if left == 0
    then answer (record t { wait_for_send_count = left; task_count = dec32 t.task_count })
    else record t { wait_for_send_count = left }

-- The end of `ProduceMsg`: the messages go out, or the call is answered if there are none.
unfoldable pub send_all : List ProducerMsg → Task → Task
unfolding answer
send_all msgs t =
    let waiting = record t { wait_for_send_count = u32 (length msgs) } in
    if length msgs == 0 then answer waiting else record waiting { unsent = msgs }

abbrev pub messages : ProduceMsgRequest → List ℕ → List ProducerMsg
messages request bytes =
    map (λ uid. record { to_uid = uid; msg_id = request.msg_id })
      (uids_to_send request.start_uid 0 bytes)

-- `Proceed` of a call in PROCESS, with `ProduceMsg`; none where bytes beyond the reply are read.
unfoldable pub proceed :
    {R : Type 0} → RedisClient R → ProduceMsgRequest → R → Task → R × Option Task
unfolding send_all
proceed redis request r t =
    let begun = record t { reply_err = err; task_count = inc32 t.task_count } in
    let (r, outcome) = load_user_info redis request.start_uid request.end_uid r in
    elim outcome [
      | failed ↦ (r, some begun)
      | overread ↦ (r, none)
      | loaded bytes ↦ (r, some (send_all (messages request bytes) begun))
    ]

-- What happens to the messages, in any order. A `send` that throws leaves its message where it is.
pub data MqStep (t : Task) : Task → Type 0 where
  send :
      {m : ProducerMsg} {rest : List ProducerMsg}
      → Takes m t.unsent rest
      → MqStep t (record t { unsent = rest; sending = m ∷ t.sending })
  throw : {m : ProducerMsg} {rest : List ProducerMsg} → Takes m t.unsent rest → MqStep t t
  on_success :
      {m : ProducerMsg} {rest : List ProducerMsg}
      → Takes m t.sending rest
      → MqStep t (notify_one (record t { sending = rest; sent = m ∷ t.sent }))
  on_exception :
      {m : ProducerMsg} {rest : List ProducerMsg}
      → Takes m t.sending rest
      → MqStep t (record t { sending = rest; unsent = m ∷ t.unsent })

pub data MqReach (s : Task) : Task → Type 0 where
  here : MqReach s s
  next : {t u : Task} → MqReach s t → MqStep t u → MqReach s u
