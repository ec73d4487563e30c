-- ===== src/Producer/Task/Delivery.antt =====
-- A call is answered once, and only when every message of its chunk was sent.
use push_system.Common.{
  ap, ℕ, ◌+◌, ◌<◌, ◌^◌, ◌≡◌, refl, List, [], ◌∷◌, arith, length, total, total-Takes, length-Takes,
  inl, inr, ◌⊎◌,
}
use push_system.Common.Word.{u32, inc32, dec32}
use push_system.Shared.{success, err, process, finish}
use push_system.Producer.Task.{
  new_task, ProducerMsg, Task, notify_one, send_all, MqStep, send, throw, on_success, on_exception,
  MqReach, here, next,
}

-- What holds in a run that began with the messages, and `taskCount` at `before`.
pub record Delivers (msgs : List ProducerMsg) (before : ℕ) (t : Task) : Type 0 where
  pub few : length msgs < 2 ^ 32
  pub waiting : t.wait_for_send_count ≡ length t.unsent + length t.sending
  pub fits : t.wait_for_send_count < 2 ^ 32
  pub kept :
      (w : ProducerMsg → ℕ) → total w t.unsent + total w t.sending + total w t.sent ≡ total w msgs
  pub answered :
      ((t.finishes ≡ 1)
        × (t.wait_for_send_count ≡ 0)
        × (t.status ≡ finish)
        × (t.reply_err ≡ success)
        × (t.task_count ≡ u32 before))
      ⊎ ((t.finishes ≡ 0)
          × (0 < t.wait_for_send_count)
          × (t.status ≡ process)
          × (t.task_count ≡ u32 (before + 1)))

MqStep-Delivers :
    {msgs : List ProducerMsg} {before : ℕ} {t u : Task}
    → MqStep t u
    → Delivers msgs before t
    → Delivers msgs before u
unfolding notify_one
MqStep-Delivers {t} (send {m} {rest} taken) d =
    let counted = length-Takes taken in
    record {
      few = d.few;
      waiting = omega (arith, counted, d.waiting);
      fits = d.fits;
      kept = λ w. omega (arith, d.kept w, total-Takes w taken);
      answered = d.answered;
    }
MqStep-Delivers (throw taken) d = d
MqStep-Delivers {t} (on_exception {m} {rest} taken) d =
    let counted = length-Takes taken in
    record {
      few = d.few;
      waiting = omega (arith, counted, d.waiting);
      fits = d.fits;
      kept = λ w. omega (arith, d.kept w, total-Takes w taken);
      answered = d.answered;
    }
MqStep-Delivers {msgs} {before} {t} (on_success {m} {rest} taken) d =
    let counted = length-Takes taken in
    let left : dec32 t.wait_for_send_count ≡ length t.unsent + length rest =
      omega (arith, counted, d.waiting, d.fits) in
    record {
      few = d.few;
      waiting = ground arith;
      fits = ground arith;
      kept = λ w. ground (arith, d.kept w, total-Takes w taken);
      answered = ground arith;
    }

MqReach-Delivers :
    {msgs : List ProducerMsg} {before : ℕ} {s t : Task}
    → MqReach s t
    → Delivers msgs before s
    → Delivers msgs before t
MqReach-Delivers here d = d
MqReach-Delivers (next r st) d = MqStep-Delivers st (MqReach-Delivers r d)

-- A call that `Proceed` has begun, with `taskCount` at `before` until then.
abbrev pub begun_task : ℕ → Task
begun_task before = record (new_task before) {
  reply_err = err;
  task_count = inc32 (new_task before).task_count;
}

send_all-Delivers :
    (msgs : List ProducerMsg) (before : ℕ)
    → 0 < length msgs
    → length msgs < 2 ^ 32
    → Delivers msgs before (send_all msgs (begun_task before))
unfolding send_all
send_all-Delivers msgs before some_msg few = record {
  few = few;
  waiting = ground arith;
  fits = ground arith;
  kept = λ w. ground arith;
  answered = ground arith;
}

empty_of_length : {A : Type 0} (l : List A) → length l ≡ 0 → l ≡ []
empty_of_length [] h = refl
empty_of_length (x ∷ l) h = ground arith

-- With at least one message and fewer than 2³², in whatever order the broker takes, refuses,
-- confirms and fails messages: a ProduceMsg call is answered at most once; when it is, nothing is
-- left to send, the messages sent are those of the chunk, each as often as it is in it, the reply
-- is SUCCESS and taskCount is back where it was; and until then something is left to send.
pub MqReach-delivered :
    (msgs : List ProducerMsg) (before : ℕ) {t : Task}
    → 0 < length msgs
    → length msgs < 2 ^ 32
    → MqReach (send_all msgs (begun_task before)) t
    → ((t.finishes ≡ 1)
        × (t.unsent ≡ [])
        × (t.sending ≡ [])
        × ((w : ProducerMsg → ℕ) → total w t.sent ≡ total w msgs)
        × (t.reply_err ≡ success)
        × (t.task_count ≡ u32 before))
      ⊎ ((t.finishes ≡ 0) × (0 < length t.unsent + length t.sending))
MqReach-delivered msgs before {t} some_msg few r =
    by_answer (MqReach-Delivers r (send_all-Delivers msgs before some_msg few))
  where
    by_answer :
        Delivers msgs before t
        → ((t.finishes ≡ 1)
            × (t.unsent ≡ [])
            × (t.sending ≡ [])
            × ((w : ProducerMsg → ℕ) → total w t.sent ≡ total w msgs)
            × (t.reply_err ≡ success)
            × (t.task_count ≡ u32 before))
          ⊎ ((t.finishes ≡ 0) × (0 < length t.unsent + length t.sending))
    by_answer d = elim d.answered [
      | inl a ↦
          let none_unsent = empty_of_length t.unsent (omega (arith, d.waiting, a.1)) in
          let none_sending = empty_of_length t.sending (omega (arith, d.waiting, a.1)) in
          inl (
            a.0,
            none_unsent,
            none_sending,
            λ w. omega (arith, d.kept w, ap (total w) none_unsent, ap (total w) none_sending),
            a.3,
            a.4,
          )
      | inr a ↦ inr (a.0, omega (arith, d.waiting, a.1))
    ]
