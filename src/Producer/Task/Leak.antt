-- ===== src/Producer/Task/Leak.antt =====
-- The calls that leave `taskCount` one too high, and those that are never answered.
use push_system.Common.{ℕ, ◌≡◌, refl, List, [], some, ap, Takes, here, there, ◌∙◌}
use push_system.Common.Word.{inc32}
use push_system.Redis.{RedisClient}
use push_system.Daemon.State.{ProduceMsgRequest}
use push_system.Producer.Prepare.{failed, loaded, load_user_info}
use push_system.Producer.Bitmap.{uids_to_send}
use push_system.Producer.Task.{
  ProducerMsg, Task, new_task, send_all, proceed, MqStep, send, throw, on_success, on_exception,
  MqReach, next,
}
use push_system.Producer.Task.Delivery.{begun_task}

no_take : {m : ProducerMsg} {l rest : List ProducerMsg} → l ≡ [] → Takes m l rest → ⊥
no_take e here = cc
no_take e (there t) = cc

-- A call with nothing to send stays as it is.
pub MqReach-quiet : {s t : Task} → s.unsent ≡ [] → s.sending ≡ [] → MqReach s t → t ≡ s
MqReach-quiet {s} u v MqReach.here = refl
MqReach-quiet {s} u v (next r st) = by_step st (MqReach-quiet u v r)
  where
    by_step : {t w : Task} → MqStep t w → t ≡ s → w ≡ s
    by_step (send taken) e = absurd (no_take (ap (λ (t : Task). t.unsent) e ∙ u) taken)
    by_step (throw taken) e = absurd (no_take (ap (λ (t : Task). t.unsent) e ∙ u) taken)
    by_step (on_success taken) e = absurd (no_take (ap (λ (t : Task). t.sending) e ∙ v) taken)
    by_step (on_exception taken) e = absurd (no_take (ap (λ (t : Task). t.sending) e ∙ v) taken)

module _ {R : Type 0} (redis : RedisClient R) where
  -- A ProduceMsg call whose Redis part fails is never answered, whatever the broker does, and
  -- taskCount stays one too high.
  pub proceed-failed :
      (request : ProduceMsgRequest) (r : R) (before : ℕ) (later : Task)
      → (load_user_info redis request.start_uid request.end_uid r).1 ≡ failed
      → MqReach (begun_task before) later
      → ((proceed redis request r (new_task before)).1 ≡ some (begun_task before))
        × (later.finishes ≡ 0)
        × (later.task_count ≡ inc32 before)
  unfolding proceed
  proceed-failed request r before later e reach =
      let same = MqReach-quiet {s = begun_task before} refl refl reach in
      (rw (e, proceed), ap (λ (t : Task). t.finishes) same, ap (λ (t : Task). t.task_count) same)

  -- A ProduceMsg call whose chunk has no user to send to is answered once, but taskCount stays one
  -- too high.
  pub proceed-empty :
      (request : ProduceMsgRequest) (r : R) (before : ℕ) (bytes : List ℕ) (later : Task)
      → (load_user_info redis request.start_uid request.end_uid r).1 ≡ loaded bytes
      → uids_to_send request.start_uid 0 bytes ≡ []
      → MqReach (send_all [] (begun_task before)) later
      → ((proceed redis request r (new_task before)).1 ≡ some (send_all [] (begun_task before)))
        × (later.finishes ≡ 1)
        × (later.task_count ≡ inc32 before)
  unfolding proceed
  proceed-empty request r before bytes later e none_set reach =
      unfold send_all in
      let same = MqReach-quiet {s = send_all [] (begun_task before)} refl refl reach in
      (
        rw (e, proceed) (rw none_set),
        ap (λ (t : Task). t.finishes) same,
        ap (λ (t : Task). t.task_count) same,
      )
