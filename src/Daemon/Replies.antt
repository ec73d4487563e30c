-- ===== src/Daemon/Replies.antt =====
-- What a producer's answer does: `ProduceMsgAsyncCall` and `DecreaseProducerTask`. The call itself
-- is off the queue when its handler runs.
pub mod ReusedId
use push_system.Common.{ℕ, Option, none, some, ltb, ◌==◌, if◌then◌else◌}
use push_system.Common.Word.{inc32, dec32}
use push_system.Shared.{ErrCode, success, err}
use push_system.Double.{Double}
use push_system.StdMap.{find, adjust, erase, insert}
use push_system.Daemon.State.{State, ProduceMsgRequest, Call}
use push_system.Daemon.Balance.{rebalance}

abbrev pub fail_count_limit : ℕ
fail_count_limit = 50

module _ {D : Type 0} where
  unfoldable pub decrease_producer_task : ℕ → State D → State D
  decrease_producer_task id s = elim (find id s.producer_states) [
    | none ↦ record s { sending_count = dec32 s.sending_count }
    | some p ↦
        let cur_task = dec32 p.cur_task_count in
        record s {
          sending_count = dec32 s.sending_count;
          producer_states =
              adjust id (λ q. record q { cur_task_count = cur_task }) s.producer_states;
          idle_producers =
              if cur_task == 0 then insert id tt s.idle_producers else s.idle_producers;
        }
  ]

  -- `OnGetResponse`: the new state, and the request that is to be sent again after a second.
  unfoldable pub on_get_response : ErrCode → Call → State D → State D × Option ProduceMsgRequest
  on_get_response success call s = (decrease_producer_task call.svr_id s, none)
  on_get_response err call s = (decrease_producer_task call.svr_id s, some call.request)

module _ {D : Type 0} ⦃dbl : Double D⦄ where
  -- The circuit breaker of `OnResponseFail`.
  unfoldable pub break_circuit : ℕ → State D → State D
  break_circuit id s = elim (find id s.producer_states) [
    | none ↦ s
    | some p ↦
        let fails = inc32 p.fail_count in
        if ltb fail_count_limit fails
        then rebalance (record s {
          idle_producers = erase id s.idle_producers;
          producer_states = erase id s.producer_states;
          svr_info = erase id s.svr_info;
        })
        else record s {
          producer_states = adjust id (λ q. record q { fail_count = fails }) s.producer_states;
        }
  ]
