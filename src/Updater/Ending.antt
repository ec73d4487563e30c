-- ===== src/Updater/Ending.antt =====
-- That an update ends, and writes nothing beyond its bitmaps.
use push_system.Common.{
  Bool, ◌==◌, ℕ, zero, suc, ◌+◌, ◌-◌, ◌/◌, ◌<◌, ◌≤◌, ◌≡◌, List, some, ltb, All, Text, arith, inl,
  inr, Bool-cases, Option-cases,
}
use push_system.Common.Word.{u64}
use push_system.Double.{Double}
use push_system.Shared.{gen_temp_key}
use push_system.Redis.{RedisClient, setrange, del}
use push_system.Updater.Page.{counts_per_loop}
use push_system.Updater.Page.Bits.{InPage, uids_to_send-page_bitmap}
use push_system.Updater.{
  end_uid, MysqlClient, select_uids, gen_sql, Ended, done, stopped, beyond, running, write_pages,
  release, compare_keys, update_key, update_user_info,
}

-- The answer to the query of a page holds uids of the page alone, as its WHERE says.
abbrev pub IsHonest : {M : Type 0} → MysqlClient M → Type 0
IsHonest {M} mysql =
    (table : Text) (opened : Bool) (uid : ℕ) (m : M) (rows : List ℕ)
    → (mysql.command (select_uids table uid (uid + counts_per_loop) opened) m).1 ≡ some rows
    → All (InPage uid (uid + counts_per_loop)) rows

-- It came to an end, and not by a write beyond a bitmap.
abbrev pub IsOver : Ended → Type 0
IsOver done = Unit {0}
IsOver stopped = Unit {0}
IsOver beyond = ⊥
IsOver running = ⊥

module _ {R M : Type 0} (redis : RedisClient R) (mysql : MysqlClient M) where
  pub write_pages-IsOver :
      (fuel : ℕ) (key table : Text) (tag uid : ℕ) (r : R) (m : M)
      → IsHonest mysql
      → (end_uid + counts_per_loop - uid) / counts_per_loop < fuel
      → IsOver (write_pages redis mysql fuel key table tag uid r m).2
  unfolding write_pages gen_sql
  write_pages-IsOver zero key table tag uid r m law f = absurd (omega arith)
  write_pages-IsOver (suc fuel) key table tag uid r m law f = elim (Bool-cases (ltb end_uid uid)) [
    | inl over ↦ rw (over, write_pages) tt
    | inr more ↦ elim (Option-cases (mysql.command (gen_sql table tag uid) m).1) [
      | inl e ↦ ground arith
      | inr (rows, e) ↦
          let low : uid ≤ end_uid = ground arith in
          let page =
            uids_to_send-page_bitmap uid 0 rows (law table (tag == 2) uid m rows e) (omega arith) in
          let next = u64 (uid + counts_per_loop) in
          let sent = redis.command (setrange (gen_temp_key key) (uid / 8) page.0) r in
          ground (
            arith,
            page.1,
            write_pages-IsOver fuel key table tag next sent.0
                (mysql.command (gen_sql table tag uid) m).0 law (omega arith),
          )
    ]
  ]

  release-IsOver :
      (key : Text) (tag now : ℕ) (r : R) (m : M) → IsOver (release redis mysql key tag now r m).2
  unfolding release
  release-IsOver key tag now r m = ground arith

module _ (D : Type 0) ⦃dbl : Double D⦄ {R M : Type 0} (redis : RedisClient R)
    (mysql : MysqlClient M) where
  update_key-IsOver :
      (fuel : ℕ) (key table : Text) (tag now : ℕ) (r : R) (m : M)
      → IsHonest mysql
      → (end_uid + counts_per_loop) / counts_per_loop < fuel
      → IsOver (update_key D redis mysql fuel key table tag now r m).2
  unfolding update_key
  update_key-IsOver fuel key table tag now r m law f =
      let cleared = redis.command (del (gen_temp_key key)) r in
      let pages = write_pages redis mysql fuel key table tag 0 cleared.0 m in
      ground (
        arith,
        write_pages-IsOver redis mysql fuel key table tag 0 cleared.0 m law (omega arith),
        release-IsOver redis mysql key tag now (compare_keys D redis mysql key pages.0).0 pages.1,
      )

  -- If MySQL answers the query of a page with uids of the page alone, then UpdateUserInfo, for
  -- each of the three tags, ends, at an error or as it should, and never writes beyond a bitmap;
  -- one round more than (END_UID + 10240) / 10240 is enough.
  pub update_user_info-IsOver :
      (fuel tag now : ℕ) (r : R) (m : M)
      → IsHonest mysql
      → tag < 3
      → (end_uid + counts_per_loop) / counts_per_loop < fuel
      → IsOver (update_user_info D redis mysql fuel tag now r m).2
  unfolding update_user_info
  update_user_info-IsOver fuel zero now r m law t f = update_key-IsOver fuel _ _ 0 now r m law f
  update_user_info-IsOver fuel (suc zero) now r m law t f =
      update_key-IsOver fuel _ _ 1 now r m law f
  update_user_info-IsOver fuel (suc (suc zero)) now r m law t f =
      update_key-IsOver fuel _ _ 2 now r m law f
  update_user_info-IsOver fuel (suc (suc (suc tag))) now r m law t f = absurd (omega arith)
