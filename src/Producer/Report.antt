-- ===== src/Producer/Report.antt =====
-- The load reports of a producer: `TpsReportService` of common/rocketmq.h, and
-- `ProducerImpl::SendLoadBalanceInfo`.
pub mod Signs
use push_system.Common.{ℕ, ◌+◌, ◌≡◌, Option, none, some, Bool, not, ◌&&◌, ◌==◌, if◌then◌else◌, Text}
use push_system.Common.Word.{u64}
use push_system.Double.{Double}
use push_system.Shared.{cal_load_balance_score}
use push_system.Client.{Client, get_server_id}

abbrev pub tps_interval : ℕ
tps_interval = 10

pub record TpsReportService (D : Type 0) : Type 0 where
  pub tps_count : ℕ
  pub total_count : ℕ
  pub avg_speed : D
  -- The count that `TpsReport` has loaded, until it stores 0.
  pub loaded : Option ℕ

module _ {D : Type 0} ⦃dbl : Double D⦄ where
  open dbl use {times, over, of_nat, le, print}

  unfoldable pub new_tps : TpsReportService D
  new_tps = record { tps_count = 0; total_count = 0; avg_speed = of_nat 0; loaded = none }

  unfoldable pub increment : TpsReportService D → TpsReportService D
  increment t = record t { tps_count = t.tps_count + 1 }

  -- `TpsReport` up to `tps_count_.load()`.
  unfoldable pub tps_load : TpsReportService D → TpsReportService D
  tps_load t = record t { loaded = some t.tps_count }

  -- The rest of the round; what was counted since the load is set to 0 as well.
  unfoldable pub tps_store : ℕ → TpsReportService D → TpsReportService D
  tps_store count t = record t {
    total_count = u64 (t.total_count + count);
    avg_speed =
        if count == 0
        then of_nat 0
        else over (times (of_nat 1000) (of_nat tps_interval)) (of_nat count);
    tps_count = 0;
    loaded = none;
  }

  -- The literal 0.0001.
  abbrev pub least_score : D
  least_score = over (of_nat 1) (of_nat 10000)

  unfoldable pub load_score : (avg_time : D) → (task_count : ℕ) → D
  load_score avg_time task_count =
      if not (le least_score avg_time) && not (task_count == 0)
      then least_score
      else cal_load_balance_score avg_time

  -- A round of `SendLoadBalanceInfo`: the id and the score of the request, if it is sent; the
  -- client may be NULL.
  unfoldable pub send_load_balance_info :
      Option Client → (avg_time : D) → (task_count : ℕ) → Option (Option ℕ × Text)
  unfolding load_score
  send_load_balance_info client avg_time task_count = elim client [
    | none ↦ none
    | some c ↦ elim (get_server_id c) [
      | none ↦ none
      | some id ↦ some (id, print (load_score avg_time task_count))
    ]
  ]

  -- The counter and the report thread in any order; `n` is the number of messages sent so far.
  pub data TpsReach : ℕ → TpsReportService D → Type 0 where
    start : TpsReach 0 new_tps
    sent : {n : ℕ} {t : TpsReportService D} → TpsReach n t → TpsReach (n + 1) (increment t)
    load :
        {n : ℕ} {t : TpsReportService D} → TpsReach n t → t.loaded ≡ none → TpsReach n (tps_load t)
    store :
        {n count : ℕ} {t : TpsReportService D}
        → TpsReach n t
        → t.loaded ≡ some count
        → TpsReach n (tps_store count t)
