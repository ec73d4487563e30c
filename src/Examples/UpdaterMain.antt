-- ===== src/Examples/UpdaterMain.antt =====
-- A turn of the updater that an error of MySQL ends, and a chunk after it.
use push_system.Common.{
  ℕ, ◌+◌, ◌≡◌, refl, [], ◌∷◌, some, none, Bool, true, ◌&&◌, ◌==◌, if◌then◌else◌, leb, arith, count,
}
use mathlib.Core.Path.{subst}
use push_system.Common.Int.{pos}
use push_system.Shared.{gen_release_key, gen_temp_key}
use push_system.Producer.Bitmap.{bit_at, uids_to_send}
use push_system.Producer.Prepare.{load_user_info, copy_bytes, byte_count}
use push_system.Updater.Page.{counts_per_loop, page_bitmap, fill, set_bit, or_bit}
use push_system.Updater.{
  MysqlClient, select_uids, select_time, update_time, insert_time, gen_sql, write_pages, update_key,
  update_user_info, check_and_update_user_info,
}
use push_system.Updater.Written.{IsExact}
use push_system.Updater.Main.{main_loop, main_round, and_then}
use push_system.Updater.Main.Chosen.{in_all_three, main_loop-chosen}
use push_system.Examples.Store.{store_redis, store-Strings}
use push_system.Examples.Numbers.{nat_double}
use push_system.Examples.ProducerChosen.{three, not_found}
use push_system.Examples.UpdaterAtomic.{page_of, AreExact, page_of-AreExact}

-- The first page is answered, and no other; two of the tags were updated today.
abbrev first_page : MysqlClient (Unit {0})
first_page = record {
  command = λ q m. (
    m,
    elim q [
      | select_uids table begin end only_opened ↦
          if begin == 0 then some (page_of 1 begin end) else none
      | select_time tag ↦ some (if tag == 2 then [] else 5 ∷ [])
      | update_time now tag ↦ some []
      | insert_time tag now ↦ some []
    ],
  );
  affected_rows = λ m. pos 1;
}

first_page-IsExact : IsExact first_page (λ table opened u. u == 1)
first_page-IsExact table opened uid m rows e =
    let same : some (page_of 1 uid (uid + counts_per_loop)) ≡ some rows = ground arith in
    subst (AreExact 1 uid) same (page_of-AreExact 1 uid)

main_loop-chosen_example :
    (f a o : Bool) × ((u : ℕ)
      → count u (uids_to_send 0 0 (64 ∷ [])) ≡ (
          if leb 0 u && (leb u 7 && in_all_three f a o (λ table opened u. u == 1) three u)
          then 1
          else 0))
unfolding main_loop main_round and_then check_and_update_user_info update_user_info update_key
    write_pages gen_sql page_bitmap fill set_bit or_bit load_user_info copy_bytes byte_count
    gen_release_key gen_temp_key bit_at
main_loop-chosen_example =
    main_loop-chosen ℕ store_redis (λ s. s) store-Strings first_page (λ table opened u. u == 1)
      first_page-IsExact (λ a b. true) 2 ((λ tag. (6, 7)) ∷ []) three tt 0 7 not_found (64 ∷ [])
      (omega arith) (omega arith) refl refl refl refl refl
