-- ===== src/Examples/Updater.antt =====
-- The theorems on the updater at concrete inputs.
use push_system.Common.{
  ℕ, ◌/◌, ◌≡◌, List, [], ◌∷◌, some, if◌then◌else◌, All, arith, count, length, ◌⊎◌, codes,
}
use push_system.Common.Int.{pos}
use push_system.Shared.{gen_temp_key}
use push_system.Redis.{Reply, ReplyKind, RedisClient, del}
use push_system.Producer.Bitmap.{uids_to_send}
use push_system.Updater.Page.{counts_per_loop, page_bitmap}
use push_system.Updater.Page.Bits.{listed, uids_to_send-page_bitmap}
use push_system.Updater.{
  MysqlClient, select_uids, select_time, update_time, insert_time, update_key, update_user_info,
}
use push_system.Updater.Ending.{IsHonest, IsOver, update_user_info-IsOver}
use push_system.Updater.Order.{Log, logged, Pages, Extends, Spares, update_key-Pages}
use push_system.Examples.Numbers.{nat_double}

uids_to_send-page_bitmap_example :
    (bytes : List ℕ) × (page_bitmap 10240 (10245 ∷ 10250 ∷ []) ≡ some bytes)
    × (length bytes ≡ counts_per_loop / 8)
    × (count 10245 (uids_to_send 10240 0 bytes)
        ≡ (if listed 10245 (10245 ∷ 10250 ∷ []) then 1 else 0))
uids_to_send-page_bitmap_example =
    uids_to_send-page_bitmap 10240 10245 (10245 ∷ 10250 ∷ []) (ground arith) (omega arith)

-- A table that holds the first uid of every page.
abbrev sparse : MysqlClient (Unit {0})
sparse = record {
  command = λ q m. (
    m,
    some (elim q [
      | select_uids table begin end only_opened ↦ begin ∷ []
      | select_time tag ↦ []
      | update_time now tag ↦ []
      | insert_time tag now ↦ []
    ]),
  );
  affected_rows = λ m. pos 1;
}

sparse-IsHonest : IsHonest sparse
sparse-IsHonest table tag uid m [] e = tt
sparse-IsHonest table tag uid m (row ∷ []) e = ground arith
sparse-IsHonest table tag uid m (row ∷ other ∷ rows) e = absurd cc

abbrev redis : RedisClient (Unit {0})
redis = record {
  command = λ c r. (r, some (record { kind = ReplyKind.other; integer = pos 0; str = [] }));
}

update_user_info-IsOver_example : IsOver (update_user_info ℕ redis sparse 9767 2 100 tt tt).2
update_user_info-IsOver_example =
    update_user_info-IsOver ℕ redis sparse 9767 2 100 tt tt sparse-IsHonest (omega arith)
      (omega arith)

update_key-Pages_example :
    All Spares
      (update_key ℕ (logged redis) sparse 9767 (codes "K") (codes "t") 0 100 (tt, []) tt).0.1
    ⊎ ((cleared : Reply) × (pages : Log) × Pages sparse
          (codes "K")
          (codes "t")
          0
          0
          ((del (gen_temp_key (codes "K")), some cleared) ∷ [])
          pages
        × All Spares pages
        × Extends pages
            (update_key ℕ (logged redis) sparse 9767 (codes "K") (codes "t") 0 100 (tt, []) tt).0.1)
update_key-Pages_example = update_key-Pages ℕ redis sparse 9767 (codes "K") (codes "t") 0 100 tt tt
