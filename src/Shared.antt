-- ===== src/Shared.antt =====
-- common/common.cpp and common/errCode.h: what the daemon, the producers and the updater share.
pub mod Score
use push_system.Common.{ℕ, List, [], ◌∷◌, ◌++◌, Text, codes}
use push_system.Double.{Double}

pub data ErrCode : Type 0 where
  success err : ErrCode

-- `CallStatus` of common/handler_interface.h.
pub data CallStatus : Type 0 where
  create process finish : CallStatus

abbrev pub seconds_per_minute : ℕ
seconds_per_minute = 60

abbrev pub user_info_key : List Text
user_info_key =
    codes "OFFICIAL_FANS_" ∷ codes "MONTH_ACTIVE_USER_" ∷ codes "PUSH_SWITCH_OPENED_" ∷ []

abbrev pub tmp_user_info_key : Text
tmp_user_info_key = codes "TMP_USER_INFO_KEY"

unfoldable pub gen_release_key : Text → Text
gen_release_key c = c ++ codes "RELEASE"

unfoldable pub gen_temp_key : Text → Text
gen_temp_key c = c ++ codes "TEMP"

unfoldable pub gen_diff_key : Text → Text
gen_diff_key c = c ++ codes "DIFF"

unfoldable pub cal_load_balance_score : {D : Type 0} ⦃dbl : Double D⦄ → D → D
cal_load_balance_score ⦃dbl⦄ avg_time =
    over (times (of_nat 10) (of_nat 7)) (plus avg_time (of_nat 7))
  where
    open dbl use {over, times, plus, of_nat}
