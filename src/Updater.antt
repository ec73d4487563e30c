-- ===== src/Updater.antt =====
-- userInfoUpdate/userInfoUpdate.cpp: the bitmaps of the selected users, out of the MySQL tables.
pub mod Page
pub mod Written
pub mod Atomic
pub mod Ending
pub mod Order
pub mod Main
use push_system.Common.{
  ℕ, zero, suc, ◌+◌, ◌-◌, ◌/◌, ◌%◌, ◌^◌, List, [], ◌∷◌, Option, none, some, Bool, true, false, not,
  if◌then◌else◌, ltb, ◌==◌, ◌&&◌, get_elem?, Text, codes,
}
use push_system.Common.Word.{u32, u64}
use push_system.Common.Int.{ℤ, pos, negsuc, is_zero, is_nonpos}
use push_system.Double.{Double}
use push_system.Shared.{
  user_info_key, tmp_user_info_key, gen_release_key, gen_temp_key, gen_diff_key,
}
use push_system.Redis.{RedisClient, exists_key, del, rename, bitop_xor, bitcount, setrange}
use push_system.Updater.Page.{counts_per_loop, page_bitmap}

abbrev pub end_uid : ℕ
end_uid = 100000000

abbrev pub diff_percentage : ℕ
diff_percentage = 100

abbrev pub table_names : List Text
table_names = codes "official_fans" ∷ codes "month_active_users" ∷ codes "push_switch" ∷ []

-- The statements, as they are written into the text of the query.
pub data Query : Type 0 where
  select_time : (tag : ℕ) → Query
  select_uids : (table : Text) → (begin end : ℕ) → (only_opened : Bool) → Query
  update_time : (now tag : ℕ) → Query
  insert_time : (tag now : ℕ) → Query

-- A MySQL connection as its users see it: `mysqlHandler.command`, none where it returns false,
-- otherwise the number in the first column of every row that mysql_fetch_row gives, up to its NULL;
-- the source does not ask whether that is the end of the rows or an error, so after an error these
-- are fewer rows. And `mysql_affected_rows`.
pub record MysqlClient (M : Type 0) : Type 0 where
  pub command : Query → M → M × Option (List ℕ)
  pub affected_rows : M → ℤ

-- `GenSQL`; the bound is an int64_t, and far from its end.
unfoldable pub gen_sql : (table : Text) → (tag begin_uid : ℕ) → Query
gen_sql table tag begin_uid = select_uids table begin_uid (begin_uid + counts_per_loop) (tag == 2)

-- How an update ends: as it should, at an error, by a write beyond the bitmap or a tag without a
-- key, or not with this fuel.
pub data Ended : Type 0 where
  done stopped beyond running : Ended

-- `uint32_t bitcounts = redisRes->integer`
unfoldable pub u32_of : ℤ → ℕ
u32_of (pos n) = u32 n
u32_of (negsuc n) = 2 ^ 32 - 1 - u32 n

module _ {R M : Type 0} (redis : RedisClient R) (mysql : MysqlClient M) where
  -- The loop over the uids; `done` is its normal end.
  unfoldable pub write_pages :
      (fuel : ℕ) → (key table : Text) → (tag uid : ℕ) → R → M → R × M × Ended
  unfolding gen_sql
  write_pages zero key table tag uid r m = (r, m, running)
  write_pages (suc fuel) key table tag uid r m = elim (ltb end_uid uid) [
    | true ↦ (r, m, done)
    | false ↦
        let (m, result) = mysql.command (gen_sql table tag uid) m in
        elim result [
          | none ↦ (r, m, stopped)
          | some rows ↦ elim (page_bitmap uid rows) [
            | none ↦ (r, m, beyond)
            | some bitmap ↦
                let (r, reply) = redis.command (setrange (gen_temp_key key) (uid / 8) bitmap) r in
                elim reply [
                  | none ↦ (r, m, stopped)
                  | some _ ↦ write_pages fuel key table tag (u64 (uid + counts_per_loop)) r m
                ]
          ]
        ]
  ]

  -- RENAME and what follows it, for an update that was accepted.
  unfoldable pub release : (key : Text) → (tag now : ℕ) → R → M → R × M × Ended
  release key tag now r m =
      let (r, reply) = redis.command (rename (gen_temp_key key) (gen_release_key key)) r in
      elim reply [
        | none ↦ (r, m, stopped)
        | some _ ↦
            let (m, updated) = mysql.command (update_time now tag) m in
            elim updated [
              | none ↦ (r, m, stopped)
              | some _ ↦
                  let affected = mysql.affected_rows m in
                  let (m, written) =
                    if is_nonpos affected
                    then mysql.command (insert_time tag now) m
                    else (m, some []) in
                  elim written [
                    | none ↦ (r, m, stopped)
                    | some _ ↦ ((redis.command (del tmp_user_info_key) r).0, m, done)
                  ]
            ]
      ]

module _ (D : Type 0) ⦃dbl : Double D⦄ {R M : Type 0} (redis : RedisClient R)
    (mysql : MysqlClient M) where
  open dbl use {times, over, of_nat, le}

  -- `diff < DIFF_PERCENTAGE`
  unfoldable pub is_close : ℕ → Bool
  is_close bits =
      not (le (of_nat diff_percentage) (over (times (of_nat bits) (of_nat 100)) (of_nat end_uid)))

  -- Whether TEMP_KEY may take the place of RELEASE_KEY; none where the update stops.
  unfoldable pub compare_keys : (key : Text) → R → R × Option Bool
  unfolding is_close
  compare_keys key r =
      let (r, found) = redis.command (exists_key (gen_release_key key)) r in
      elim found [
        | none ↦ (r, none)
        | some f ↦ elim (is_zero f.integer) [
          | true ↦ (r, some true)
          | false ↦
              let (r, differs) =
                redis.command
                  (bitop_xor (gen_diff_key key) (gen_release_key key ∷ gen_temp_key key ∷ [])) r in
              elim differs [
                | none ↦ (r, none)
                | some _ ↦
                    let (r, counted) = redis.command (bitcount (gen_diff_key key)) r in
                    elim counted [
                      | none ↦ (r, none)
                      | some c ↦
                          let (r, _) = redis.command (del (gen_diff_key key)) r in
                          (r, some (is_close (u32_of c.integer)))
                    ]
              ]
        ]
      ]

  -- `UpdateUserInfo` for a key and a table.
  unfoldable pub update_key :
      (fuel : ℕ) → (key table : Text) → (tag now : ℕ) → R → M → R × M × Ended
  unfolding compare_keys
  update_key fuel key table tag now r m =
      let (r, cleared) = redis.command (del (gen_temp_key key)) r in
      elim cleared [
        | none ↦ (r, m, stopped)
        | some _ ↦
            let (r, m, pages) = write_pages redis mysql fuel key table tag 0 r m in
            elim pages [
              | done ↦
                  let (r, ok) = compare_keys key r in
                  elim ok [
                    | none ↦ (r, m, stopped)
                    | some accepted ↦ elim accepted [
                      | true ↦ release redis mysql key tag now r m
                      | false ↦ (r, m, done)
                    ]
                  ]
              | stopped ↦ (r, m, stopped)
              | beyond ↦ (r, m, beyond)
              | running ↦ (r, m, running)
            ]
      ]

  unfoldable pub update_user_info : (fuel tag now : ℕ) → R → M → R × M × Ended
  unfolding update_key
  update_user_info fuel tag now r m = elim (get_elem? user_info_key tag) [
    | none ↦ (r, m, beyond)
    | some key ↦ elim (get_elem? table_names tag) [
      | none ↦ (r, m, beyond)
      | some table ↦ update_key fuel key table tag now r m
    ]
  ]

  -- `CheckAndUpdateUserInfo`; `same_day` is what `localtime` says of two times, the day and the
  -- month alone.
  unfoldable pub check_and_update_user_info :
      (same_day : ℕ → ℕ → Bool) → (fuel tag now later : ℕ) → R → M → R × M × Ended
  unfolding update_user_info
  check_and_update_user_info same_day fuel tag now later r m =
      let (m, result) = mysql.command (select_time tag) m in
      elim result [
        | none ↦ (r, m, stopped)
        | some rows ↦ elim rows [
          | [] ↦ update_user_info fuel tag later r m
          | timestamp ∷ _ ↦ elim (same_day timestamp now) [
            | true ↦ (r, m, done)
            | false ↦ update_user_info fuel tag later r m
          ]
        ]
      ]
