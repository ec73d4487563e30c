-- ===== src/Updater/Atomic.antt =====
-- What an update leaves at RELEASE_KEY, wherever it stops.
use push_system.Common.{
  ℕ, ◌≡◌, refl, sym, ◌∙◌, List, [], ◌∷◌, some, Bool, true, false, ◌&&◌, ◌==◌, Text, text_eq, ltb,
  arith, inl, inr, ◌⊎◌, get_elem?, Option-cases,
}
use mathlib.Core.Path.{subst}
use push_system.Double.{Double}
use push_system.Producer.Bitmap.Selected.{bit_of}
use push_system.Shared.{
  gen_release_key, gen_temp_key, gen_diff_key, tmp_user_info_key, user_info_key,
}
use push_system.Redis.{Reply, RedisClient, del, exists_key, bitop_xor, bitcount}
use push_system.Redis.Strings.{Strings}
use push_system.Updater.Order.{Ended-cases}
use push_system.Updater.{
  done, table_names, MysqlClient, write_pages, release, compare_keys, update_key, update_user_info,
}
use push_system.Updater.Written.{
  IsExact, pages_end, HasBits, NotTmp, release-NotTmp, temp_release, diff_release, diff_temp,
  write_pages-bits, write_pages-others, release-kept,
}

module _ (D : Type 0) ⦃dbl : Double D⦄ {R M : Type 0} (redis : RedisClient R)
    (value : R → Text → List ℕ) (laws : Strings redis value) (mysql : MysqlClient M) where
  pub compare_keys-kept :
      (key other : Text) (r : R)
      → text_eq (gen_diff_key key) other ≡ false
      → value (compare_keys D redis mysql key r).0 other ≡ value r other
  unfolding compare_keys
  compare_keys-kept key other r d =
      let looked = exists_key (gen_release_key key) in
      let r1 = (redis.command looked r).0 in
      let differ = bitop_xor (gen_diff_key key) (gen_release_key key ∷ gen_temp_key key ∷ []) in
      let r2 = (redis.command differ r1).0 in
      let counted = bitcount (gen_diff_key key) in
      let r3 = (redis.command counted r2).0 in
      ground (
        arith,
        laws.others looked r other refl,
        laws.others differ r1 other d,
        laws.others counted r2 other refl,
        laws.others (del (gen_diff_key key)) r3 other d,
      )

  -- What holds of Redis wherever `UpdateUserInfo` may stop.
  pub update_key-cases :
      (P : R → Type 0) (fuel : ℕ) (key table : Text) (tag now : ℕ) (r : R) (m : M)
      → let cleared = redis.command (del (gen_temp_key key)) r in
        let w = write_pages redis mysql fuel key table tag 0 cleared.0 m in
        let c = compare_keys D redis mysql key w.0 in
        P cleared.0
        → P w.0
        → P c.0
        → ((reply : Reply)
            → cleared.1 ≡ some reply
            → w.2 ≡ done
            → P (release redis mysql key tag now c.0 w.1).0)
        → P (update_key D redis mysql fuel key table tag now r m).0
  unfolding update_key
  update_key-cases P fuel key table tag now r m at_del at_pages at_compare at_release =
      let cleared = redis.command (del (gen_temp_key key)) r in
      let w = write_pages redis mysql fuel key table tag 0 cleared.0 m in
      let c = compare_keys D redis mysql key w.0 in
      let t = (update_key D redis mysql fuel key table tag now r m).0 in
      let is : (l : R) → t ≡ l → P l → P t = λ l q o. subst P (sym q) o in
      elim (Option-cases cleared.1) [
        | inl e ↦ is cleared.0 (ground arith) at_del
        | inr (reply, e) ↦ elim (Ended-cases w.2) [
          | inl d ↦ elim (Option-cases c.1) [
            | inl n ↦ is c.0 (ground arith) at_compare
            | inr (true, n) ↦
                is (release redis mysql key tag now c.0 w.1).0 (ground arith) (at_release reply e d)
            | inr (false, n) ↦ is c.0 (ground arith) at_compare
          ]
          | inr (inl d) ↦ is w.0 (ground arith) at_pages
          | inr (inr (inl d)) ↦ is w.0 (ground arith) at_pages
          | inr (inr (inr d)) ↦ is w.0 (ground arith) at_pages
        ]
      ]

  -- As it was, or the whole of the table.
  abbrev OldOrWhole : (member : ℕ → Bool) → Text → R → R → Type 0
  OldOrWhole member key before after =
      (value after (gen_release_key key) ≡ value before (gen_release_key key))
      ⊎ HasBits member pages_end (value after (gen_release_key key))

  update_key-OldOrWhole :
      (member : Text → Bool → ℕ → Bool) (fuel : ℕ) (key table : Text) (tag now : ℕ) (r : R) (m : M)
      → IsExact mysql member
      → text_eq tmp_user_info_key (gen_release_key key) ≡ false
      → OldOrWhole
          (member table (tag == 2))
          key
          r
          (update_key D redis mysql fuel key table tag now r m).0
  update_key-OldOrWhole member fuel key table tag now r m exact other =
      let cleared = redis.command (del (gen_temp_key key)) r in
      let w = write_pages redis mysql fuel key table tag 0 cleared.0 m in
      let c = compare_keys D redis mysql key w.0 in
      let kept0 = laws.others (del (gen_temp_key key)) r (gen_release_key key) (temp_release key) in
      let kept1 =
        write_pages-others redis value laws mysql member exact fuel 0 key table
          (gen_release_key key) tag cleared.0 m (temp_release key)
        ∙ kept0 in
      let kept2 = compare_keys-kept key (gen_release_key key) w.0 (diff_release key) ∙ kept1 in
      update_key-cases (OldOrWhole (member table (tag == 2)) key r) fuel key table tag now r m
        (inl kept0) (inl kept1) (inl kept2)
        (λ reply e d.
          let empty : HasBits (member table (tag == 2)) 0 (value cleared.0 (gen_temp_key key)) =
            rw (laws.cleared (gen_temp_key key) r reply e) (λ u. ground arith) in
          let whole =
            write_pages-bits redis value laws mysql member exact fuel 0 key table tag cleared.0 m
              (omega arith) (omega arith) empty d in
          let same = compare_keys-kept key (gen_temp_key key) w.0 (diff_temp key) in
          elim (release-kept redis value laws mysql member exact key tag now c.0 w.1 other) [
            | inl q ↦ inl (q ∙ kept2)
            | inr q ↦
                inr (subst (HasBits (member table (tag == 2)) pages_end) (sym (q ∙ same)) whole)
          ])

  -- If MySQL answers the query of a page with the users of the page that a fixed table holds, and
  -- the strings of Redis are written by SETRANGE, DEL and RENAME as documented, where a RENAME
  -- whose reply is lost may or may not have been done, then UpdateUserInfo, wherever it stops and
  -- at whatever error, leaves at RELEASE_KEY what was there or a bitmap whose bit u is set exactly
  -- if u is below 100003840, the end of the pages, and the table holds u.
  pub update_user_info-old_or_whole :
      (member : Text → Bool → ℕ → Bool) (fuel tag now : ℕ) (key table : Text) (r : R) (m : M)
      → IsExact mysql member
      → get_elem? user_info_key tag ≡ some key
      → get_elem? table_names tag ≡ some table
      → let t = (update_user_info D redis mysql fuel tag now r m).0 in
        (value t (gen_release_key key) ≡ value r (gen_release_key key))
        ⊎ ((u : ℕ)
            → bit_of (value t (gen_release_key key)) u
              ≡ ltb u pages_end && member table (tag == 2) u)
  unfolding update_user_info
  update_user_info-old_or_whole member fuel tag now key table r m exact k t =
      rw (k, update_user_info)
        (rw t (
          update_key-OldOrWhole member fuel key table tag now r m exact
            (subst NotTmp k (release-NotTmp tag))))
