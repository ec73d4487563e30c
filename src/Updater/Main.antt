-- ===== src/Updater/Main.antt =====
-- userInfoUpdate/main.cpp: the three tags, one after the other, for ever.
pub mod Step
pub mod Kept
pub mod Chosen
use push_system.Common.{ℕ, List, [], ◌∷◌, Bool}
use push_system.Double.{Double}
use push_system.Redis.{RedisClient}
use push_system.Updater.{
  MysqlClient, Ended, done, stopped, beyond, running, check_and_update_user_info,
}

-- What follows an update: CheckAndUpdateUserInfo returns, at an error as well, unless it was not
-- defined or is still running.
unfoldable pub and_then : {R M : Type 0} → R × M × Ended → (R → M → R × M × Ended) → R × M × Ended
and_then (r, m, done) next = next r m
and_then (r, m, stopped) next = next r m
and_then (r, m, beyond) next = (r, m, beyond)
and_then (r, m, running) next = (r, m, running)

module _ (D : Type 0) ⦃dbl : Double D⦄ {R M : Type 0} (redis : RedisClient R)
    (mysql : MysqlClient M) (same_day : ℕ → ℕ → Bool) (fuel : ℕ) where
  -- One turn of the loop; the clock gives what the two calls of `time` read for a tag.
  unfoldable pub main_round : (clock : ℕ → ℕ × ℕ) → R → M → R × M × Ended
  main_round clock r m =
      let check : ℕ → R → M → R × M × Ended = λ tag.
        check_and_update_user_info D redis mysql same_day fuel tag (clock tag).0 (clock tag).1 in
      and_then (check 0 r m) (λ r m. and_then (check 1 r m) (check 2))

  unfoldable pub main_loop : (clocks : List (ℕ → ℕ × ℕ)) → R → M → R × M × Ended
  main_loop [] r m = (r, m, done)
  main_loop (clock ∷ clocks) r m = and_then (main_round clock r m) (main_loop clocks)
