-- ===== src/Producer/Report/Signs.antt =====
-- What a producer reports is a score that the daemon may take.
use push_system.Common.{ℕ, zero, suc, ◌+◌, ◌<◌, ◌≤◌, ◌^◌, ◌≡◌, sym, Option, some, true, arith, Text}
use mathlib.Core.Path.{subst}
use push_system.Double.{Double}
use push_system.Daemon.Registry.{read_score}
use push_system.Shared.Score.{of_nat_nonneg, cal_load_balance_score-nonneg}
use push_system.Client.{Client}
use push_system.System.{report}
use push_system.System.Safety.{OfProducers}
use push_system.Producer.Report.{
  TpsReportService, new_tps, increment, tps_load, tps_store, load_score, send_load_balance_info,
  TpsReach, start, sent, load, store,
}

module _ {D : Type 0} ⦃dbl : Double D⦄ where
  open dbl use {le, of_nat, parse, print}

  tps_store-nonneg :
      (count : ℕ) (t : TpsReportService D) → le (of_nat 0) (tps_store count t).avg_speed ≡ true
  unfolding tps_store
  tps_store-nonneg zero t = of_nat_nonneg D 0
  tps_store-nonneg (suc n) t =
      let speed =
        dbl.over_nonneg (dbl.times (of_nat 1000) (of_nat 10)) (of_nat (suc n))
          (dbl.times_nonneg _ _ (of_nat_nonneg D 1000) (of_nat_nonneg D 10))
          (dbl.of_nat_pos (suc n) (omega arith)) in
      ground arith

  -- The speed is not negative, and no more is counted than was sent.
  abbrev pub Sound : ℕ → TpsReportService D → Type 0
  Sound n t =
      (le (of_nat 0) t.avg_speed ≡ true)
      × (t.total_count + t.tps_count ≤ n)
      × ((count : ℕ) → t.loaded ≡ some count → count ≤ t.tps_count)

  pub TpsReach-Sound : {n : ℕ} {t : TpsReportService D} → TpsReach n t → n < 2 ^ 63 → Sound n t
  unfolding new_tps increment tps_load tps_store
  TpsReach-Sound start h = (of_nat_nonneg D 0, omega arith, λ count e. absurd cc)
  TpsReach-Sound (sent {n} {t} r) h =
      let s = TpsReach-Sound r (omega arith) in
      (s.0, omega (arith, s.1), λ count e. omega (arith, s.2 count e))
  TpsReach-Sound (load {n} {t} r e) h =
      let s = TpsReach-Sound r h in (s.0, s.1, λ count q. ground arith)
  TpsReach-Sound (store {n} {count} {t} r e) h =
      let s = TpsReach-Sound r h in
      (tps_store-nonneg count t, omega (arith, s.1, s.2 count e), λ c q. absurd cc)

  load_score-nonneg :
      (avg_time : D) (task_count : ℕ)
      → le (of_nat 0) avg_time ≡ true
      → le (of_nat 0) (load_score avg_time task_count) ≡ true
  unfolding load_score
  load_score-nonneg avg_time task_count h =
      let least =
        dbl.over_nonneg (of_nat 1) (of_nat 10000) (of_nat_nonneg D 1)
          (dbl.of_nat_pos 10000 (omega arith)) in
      let usual = cal_load_balance_score-nonneg avg_time h in ground arith

  -- While fewer than 2⁶³ messages have been sent, in whatever order they are counted and the speed
  -- is taken, a report of SendLoadBalanceInfo has a score that the daemon reads as not negative,
  -- under any id, and the total count is at most the number of messages sent.
  pub send_load_balance_info-OfProducers :
      {n : ℕ} {t : TpsReportService D} (client : Option Client) (task_count server_id k : ℕ)
      (request : Option ℕ × Text)
      → TpsReach n t
      → n < 2 ^ 63
      → send_load_balance_info client t.avg_speed task_count ≡ some request
      → OfProducers D (report server_id k request.1) × (t.total_count ≤ n)
  unfolding send_load_balance_info
  send_load_balance_info-OfProducers {n} {t} client task_count server_id k request r h e =
      let s = TpsReach-Sound r h in
      let score = load_score-nonneg t.avg_speed task_count s.0 in
      let (x, read, positive) = dbl.print_nonneg (load_score t.avg_speed task_count) score in
      let its : request.1 ≡ print (load_score t.avg_speed task_count) = ground arith in
      let scored : le (of_nat 0) (read_score k (print (load_score t.avg_speed task_count))) ≡ true =
        rw (read, read_score) positive in
      (
        subst (λ text. le (of_nat 0) (read_score k text) ≡ true) (sym its) scored,
        omega (arith, s.1),
      )
