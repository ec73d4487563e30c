-- ===== src/Examples/UpdaterAtomic.antt =====
-- An update over a Redis of strings and a table of one user.
use push_system.Common.{
  ℕ, ◌+◌, Option, none, ◌≤◌, ◌<◌, ◌≡◌, refl, List, [], ◌∷◌, some, ◌&&◌, ◌==◌, if◌then◌else◌, leb,
  ltb, arith, ◌⊎◌, inl, inr, codes, Bool-cases, All,
}
use mathlib.Core.Path.{subst}
use push_system.Common.Int.{pos}
use push_system.Shared.{gen_release_key}
use push_system.Producer.Bitmap.Selected.{bit_of}
use push_system.Updater.Page.{counts_per_loop}
use push_system.Updater.Page.Bits.{listed, InPage}
use push_system.Updater.Written.{IsExact, pages_end}
use push_system.Updater.Atomic.{update_user_info-old_or_whole}
use push_system.Updater.{
  MysqlClient, select_uids, select_time, update_time, insert_time, update_user_info,
}
use push_system.Examples.Store.{store_redis, store-Strings}
use push_system.Examples.Numbers.{nat_double}

-- The table holds one user.
abbrev pub page_of : (user begin end : ℕ) → List ℕ
page_of user begin end = if leb begin user && ltb user end then user ∷ [] else []

abbrev one_user : MysqlClient (Unit {0})
one_user = record {
  command = λ q m. (
    m,
    some (elim q [
      | select_uids table begin end only_opened ↦ page_of 12345 begin end
      | select_time tag ↦ []
      | update_time now tag ↦ []
      | insert_time tag now ↦ []
    ]),
  );
  affected_rows = λ m. pos 1;
}

abbrev pub AreExact : (user uid : ℕ) → Option (List ℕ) → Type 0
AreExact user uid none = Unit
AreExact user uid (some rows) =
    All (InPage uid (uid + counts_per_loop)) rows
    × ((u : ℕ) → uid ≤ u → u < uid + counts_per_loop → listed u rows ≡ (u == user))

pub page_of-AreExact :
    (user uid : ℕ) → AreExact user uid (some (page_of user uid (uid + counts_per_loop)))
page_of-AreExact user uid = elim (Bool-cases (leb uid user && ltb user (uid + counts_per_loop))) [
  | inl t ↦ rw t ((ground arith, tt), λ u low high. ground arith)
  | inr f ↦ rw f (tt, λ u low high. ground arith)
]

one_user-IsExact : IsExact one_user (λ table opened u. u == 12345)
one_user-IsExact table opened uid m rows e =
    subst (AreExact 12345 uid) e (page_of-AreExact 12345 uid)

update_user_info-old_or_whole_example :
    let key = codes "PUSH_SWITCH_OPENED_" in
    let t = (update_user_info ℕ store_redis one_user 9767 2 100 (λ key. []) tt).0 in
    (t (gen_release_key key) ≡ [])
    ⊎ ((u : ℕ) → bit_of (t (gen_release_key key)) u ≡ ltb u pages_end && (u == 12345))
update_user_info-old_or_whole_example =
    update_user_info-old_or_whole ℕ store_redis (λ s. s) store-Strings one_user
      (λ table opened u. u == 12345) 9767 2 100 (codes "PUSH_SWITCH_OPENED_") (codes "push_switch")
      (λ key. []) tt one_user-IsExact refl refl
