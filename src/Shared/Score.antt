-- ===== src/Shared/Score.antt =====
-- The sign of the load-balance score.
use push_system.Common.{◌<◌, ℕ, zero, suc, ◌≡◌, true, false, arith}
use push_system.Double.{Double}
use push_system.Shared.{cal_load_balance_score}

module _ (D : Type 0) ⦃dbl : Double D⦄ where
  open dbl use {le, of_nat, le_total, of_nat_pos}

  pub of_nat_nonneg : (n : ℕ) → le (of_nat 0) (of_nat n) ≡ true
  of_nat_nonneg zero = ground (arith, le_total (of_nat 0) (of_nat 0))
  of_nat_nonneg (suc n) =
      ground (arith, le_total (of_nat 0) (of_nat (suc n)), of_nat_pos (suc n) (omega arith))

module _ {D : Type 0} ⦃dbl : Double D⦄ where
  open dbl use {le, of_nat, plus, le_trans, plus_grows, plus_comm, of_nat_pos}

  plus_pos :
      (a : D) (n : ℕ) → le (of_nat 0) a ≡ true → 0 < n → le (plus a (of_nat n)) (of_nat 0) ≡ false
  plus_pos a n h p = ground (
    arith,
    of_nat_pos n p,
    plus_grows (of_nat n) a h,
    plus_comm (of_nat n) a,
    le_trans (of_nat n) (plus a (of_nat n)) (of_nat 0),
  )

  -- The score of an average time that is not negative is not negative.
  pub cal_load_balance_score-nonneg :
      (avg_time : D)
      → le (of_nat 0) avg_time ≡ true
      → le (of_nat 0) (cal_load_balance_score avg_time) ≡ true
  unfolding cal_load_balance_score
  cal_load_balance_score-nonneg avg_time h =
      dbl.over_nonneg _ _ (dbl.times_nonneg _ _ (of_nat_nonneg D 10) (of_nat_nonneg D 7))
        (plus_pos avg_time 7 h (omega arith))
