-- ===== src/Updater/Order.antt =====
-- The order of the commands of an update: RENAME comes after all pages.
use push_system.Common.{
  ℕ, zero, suc, ◌+◌, ◌/◌, ◌<◌, ◌≤◌, ◌≡◌, refl, List, [], ◌∷◌, Option, some, ◌==◌, true, false, ltb,
  All, Text, arith, inl, inr, ◌⊎◌, Bool-cases, Option-cases, ltb→lt, sym,
}
use mathlib.Core.Path.{subst}
use push_system.Common.Word.{u64}
use push_system.Double.{Double}
use push_system.Shared.{gen_temp_key, gen_release_key, gen_diff_key, tmp_user_info_key}
use push_system.Redis.{
  RedisClient, Reply, Command, setrange, del, rename, exists_key, bitop_xor, bitcount,
}
use push_system.Updater.Page.{counts_per_loop, page_bitmap}
use push_system.Updater.{
  end_uid, MysqlClient, select_uids, gen_sql, Ended, done, stopped, beyond, running, write_pages,
  release, compare_keys, update_key,
}

-- Commands with what came back for them, the last one first.
abbrev pub Log : Type 0
Log = List (Command × Option Reply)

-- A connection that keeps the commands it was given, with the replies.
abbrev pub logged : {R : Type 0} → RedisClient R → RedisClient (R × Log)
logged redis = record {
  command = λ c r. let (s, reply) = redis.command c r.0 in ((s, (c, reply) ∷ r.1), reply);
}

-- The commands from `log` to `after` write the pages from `uid` to the end, in their order, each
-- the bitmap of rows that MySQL returned for it, and each was answered by Redis.
pub data Pages {M : Type 0} (mysql : MysqlClient M) (key table : Text) (tag : ℕ)
    : ℕ → Log → Log → Type 0 where
  written : {uid : ℕ} {log : Log} → end_uid < uid → Pages mysql key table tag uid log log
  page :
      {uid : ℕ} {log after : Log} {m : M} {rows bitmap : List ℕ} {answer : Option Reply}
      {reply : Reply}
      → uid ≤ end_uid
      → (mysql.command (select_uids table uid (uid + counts_per_loop) (tag == 2)) m).1 ≡ some rows
      → page_bitmap uid rows ≡ some bitmap
      → answer ≡ some reply
      → Pages mysql key table tag
          (u64 (uid + counts_per_loop))
          ((setrange (gen_temp_key key) (uid / 8) bitmap, answer) ∷ log)
          after
      → Pages mysql key table tag uid log after

-- Commands were added.
pub data Extends (log : Log) : Log → Type 0 where
  same : Extends log log
  more : {c : Command × Option Reply} {after : Log} → Extends log after → Extends log (c ∷ after)

-- The command is no RENAME.
abbrev pub Spares : Command × Option Reply → Type 0
Spares (rename _ _, _) = ⊥
Spares _ = Unit {0}

pub Ended-cases : (e : Ended) → (e ≡ done) ⊎ ((e ≡ stopped) ⊎ ((e ≡ beyond) ⊎ (e ≡ running)))
Ended-cases done = inl refl
Ended-cases stopped = inr (inl refl)
Ended-cases beyond = inr (inr (inl refl))
Ended-cases running = inr (inr (inr refl))

module _ {R M : Type 0} (redis : RedisClient R) (mysql : MysqlClient M) where
  write_pages-Pages :
      (fuel : ℕ) (key table : Text) (tag uid : ℕ) (r : R × Log) (m : M)
      → let w = write_pages (logged redis) mysql fuel key table tag uid r m in
        w.2 ≡ done → Pages mysql key table tag uid r.1 w.0.1
  unfolding write_pages gen_sql
  write_pages-Pages zero key table tag uid r m = λ d. absurd cc
  write_pages-Pages (suc fuel) key table tag uid r m = elim (Bool-cases (ltb end_uid uid)) [
    | inl over ↦ rw (over, write_pages) (λ d. written (ltb→lt _ _ over))
    | inr le ↦ elim (Option-cases (mysql.command (gen_sql table tag uid) m).1) [
      | inl e ↦ rw (le, write_pages) (rw e (λ d. absurd cc))
      | inr (rows, e) ↦ elim (Option-cases (page_bitmap uid rows)) [
        | inl p ↦ rw (le, write_pages) (rw e (rw p (λ d. absurd cc)))
        | inr (bitmap, p) ↦
            elim (Option-cases
              (redis.command (setrange (gen_temp_key key) (uid / 8) bitmap) r.0).1) [
                | inl q ↦ rw (le, write_pages) (rw e (rw p (rw q (λ d. absurd cc))))
                | inr (reply, q) ↦
                    let sent =
                      (logged redis).command (setrange (gen_temp_key key) (uid / 8) bitmap) r in
                    let next = u64 (uid + counts_per_loop) in
                    let rest =
                      write_pages-Pages fuel key table tag next sent.0
                        (mysql.command (gen_sql table tag uid) m).0 in
                    rw (le, write_pages)
                      (rw e (rw p (rw q (λ d. page (ground arith) e p q (rest d)))))
              ]
      ]
    ]
  ]

  write_pages-Spares :
      (fuel : ℕ) (key table : Text) (tag uid : ℕ) (r : R × Log) (m : M)
      → All Spares r.1
      → All Spares (write_pages (logged redis) mysql fuel key table tag uid r m).0.1
  unfolding write_pages
  write_pages-Spares zero key table tag uid r m a = a
  write_pages-Spares (suc fuel) key table tag uid r m a =
      elim (Option-cases (mysql.command (gen_sql table tag uid) m).1) [
        | inl e ↦ ground arith
        | inr (rows, e) ↦ elim (Option-cases (page_bitmap uid rows)) [
          | inl p ↦ ground arith
          | inr (bitmap, p) ↦
              let sent = (logged redis).command (setrange (gen_temp_key key) (uid / 8) bitmap) r in
              let next = u64 (uid + counts_per_loop) in
              ground (
                arith,
                write_pages-Spares fuel key table tag next sent.0
                    (mysql.command (gen_sql table tag uid) m).0 (tt, a),
              )
        ]
      ]

  release-Extends :
      (key : Text) (tag now : ℕ) (r : R × Log) (m : M)
      → Extends r.1 (release (logged redis) mysql key tag now r m).0.1
  unfolding release
  release-Extends key tag now r m =
      let move = rename (gen_temp_key key) (gen_release_key key) in
      let moved = (redis.command move r.0).1 in
      let renamed : Extends r.1 ((move, moved) ∷ r.1) = more same in
      let clear = del tmp_user_info_key in
      let cleared : Extends r.1
          ((clear, (redis.command clear (redis.command move r.0).0).1) ∷ (move, moved) ∷ r.1) =
        more renamed in
      ground arith

module _ (D : Type 0) ⦃dbl : Double D⦄ {R M : Type 0} (redis : RedisClient R)
    (mysql : MysqlClient M) where
  compare_keys-Spares :
      (key : Text) (r : R × Log)
      → All Spares r.1
      → All Spares (compare_keys D (logged redis) mysql key r).0.1
  unfolding compare_keys
  compare_keys-Spares key r a = ground arith

  compare_keys-Extends :
      (key : Text) (r : R × Log) → Extends r.1 (compare_keys D (logged redis) mysql key r).0.1
  unfolding compare_keys
  compare_keys-Extends key r =
      let c1 = exists_key (gen_release_key key) in
      let r1 = redis.command c1 r.0 in
      let c2 = bitop_xor (gen_diff_key key) (gen_release_key key ∷ gen_temp_key key ∷ []) in
      let r2 = redis.command c2 r1.0 in
      let c3 = bitcount (gen_diff_key key) in
      let r3 = redis.command c3 r2.0 in
      let c4 = del (gen_diff_key key) in
      let looked : Extends r.1 ((c1, r1.1) ∷ r.1) = more same in
      let differs = more {c = (c2, r2.1)} looked in
      let counted = more {c = (c3, r3.1)} differs in
      let removed = more {c = (c4, (redis.command c4 r3.0).1)} counted in ground arith

  Extends-trans : {a b c : Log} → Extends a b → Extends b c → Extends a c
  Extends-trans e same = e
  Extends-trans e (more f) = more (Extends-trans e f)

  -- No RENAME in the log, or all pages in it before the first one.
  abbrev IsOrdered : (key table : Text) → (tag : ℕ) → Log → Type 0
  IsOrdered key table tag log =
      All Spares log
      ⊎ ((cleared : Reply) × (pages : Log) × Pages mysql key table tag 0
            ((del (gen_temp_key key), some cleared) ∷ []) pages
          × All Spares pages
          × Extends pages log)

  -- Whatever Redis and MySQL answer, the commands of UpdateUserInfo to Redis hold no RENAME, or
  -- before any RENAME TEMP_KEY was deleted and the bitmap of every page up to END_UID was written
  -- to it, in order, each with a reply that is not NULL, and each made of rows that MySQL returned
  -- for the query of the page, of the opened ones alone for the tag 2: an update whose page fails
  -- or is not answered never sends a RENAME.
  pub update_key-Pages :
      (fuel : ℕ) (key table : Text) (tag now : ℕ) (r : R) (m : M)
      → let log = (update_key D (logged redis) mysql fuel key table tag now (r, []) m).0.1 in
        All Spares log
        ⊎ ((cleared : Reply) × (pages : Log) × Pages mysql key table tag 0
              ((del (gen_temp_key key), some cleared) ∷ [])
              pages
            × All Spares pages
            × Extends pages log)
  unfolding update_key
  update_key-Pages fuel key table tag now r m =
      let cleared = (logged redis).command (del (gen_temp_key key)) (r, []) in
      let w = write_pages (logged redis) mysql fuel key table tag 0 cleared.0 m in
      let c = compare_keys D (logged redis) mysql key w.0 in
      let wrote : All Spares w.0.1 =
        write_pages-Spares redis mysql fuel key table tag 0 cleared.0 m (tt, tt) in
      let compared : All Spares c.0.1 = compare_keys-Spares key w.0 wrote in
      let grown =
        Extends-trans (compare_keys-Extends key w.0)
          (release-Extends redis mysql key tag now c.0 w.1) in
      let all_pages = write_pages-Pages redis mysql fuel key table tag 0 cleared.0 m in
      let log = (update_key D (logged redis) mysql fuel key table tag now (r, []) m).0.1 in
      let is : (l : Log) → log ≡ l → IsOrdered key table tag l → IsOrdered key table tag log =
        λ l q o. subst (IsOrdered key table tag) (sym q) o in
      elim (Option-cases cleared.1) [
        | inl e ↦ is cleared.0.1 (ground arith) (inl (tt, tt))
        | inr (reply, e) ↦ elim (Ended-cases w.2) [
          | inl d ↦ elim (Option-cases c.1) [
            | inl n ↦ is c.0.1 (ground arith) (inl compared)
            | inr (true, n) ↦
                is (release (logged redis) mysql key tag now c.0 w.1).0.1 (ground arith) (
                  inr (
                    reply,
                    w.0.1,
                    subst
                        (λ o. Pages mysql key table tag 0 ((del (gen_temp_key key), o) ∷ []) w.0.1)
                        e (all_pages d),
                    wrote,
                    grown,
                  ))
            | inr (false, n) ↦ is c.0.1 (ground arith) (inl compared)
          ]
          | inr (inl d) ↦ is w.0.1 (ground arith) (inl wrote)
          | inr (inr (inl d)) ↦ is w.0.1 (ground arith) (inl wrote)
          | inr (inr (inr d)) ↦ is w.0.1 (ground arith) (inl wrote)
        ]
      ]
