-- ===== src/Updater/Main/Kept.antt =====
-- What the turns of the updater leave at the three release keys.
use push_system.Common.{
  ℕ, zero, suc, ◌≡◌, refl, ◌∙◌, List, [], ◌∷◌, Bool, false, ◌||◌, Text, text_eq, arith, inl, inr,
  Option-cases, Bool-cases,
}
use push_system.Double.{Double}
use push_system.Shared.{gen_release_key, gen_temp_key, gen_diff_key, tmp_user_info_key}
use push_system.Redis.{RedisClient, del}
use push_system.Redis.Strings.{Strings}
use push_system.Updater.{
  Ended, done, stopped, beyond, running, MysqlClient, select_time, write_pages, compare_keys,
  update_key, update_user_info, check_and_update_user_info,
}
use push_system.Updater.Written.{IsExact, write_pages-others, release-others}
use push_system.Updater.Atomic.{compare_keys-kept, update_key-cases, update_user_info-old_or_whole}
use push_system.Updater.Main.Step.{fans, active, opened, KeySteps, KeySteps-trans}
use push_system.Updater.Main.{and_then, main_round, main_loop}

-- A key that an update does not write.
record Apart (key other : Text) : Type 0 where
  temp : text_eq (gen_temp_key key) other ≡ false
  diff : text_eq (gen_diff_key key) other ≡ false
  released : text_eq (gen_release_key key) other ≡ false
  tmp : text_eq tmp_user_info_key other ≡ false

separate :
    (key other : Text)
    → (text_eq (gen_temp_key key) other
        || text_eq (gen_diff_key key) other
        || text_eq (gen_release_key key) other
        || text_eq tmp_user_info_key other)
      ≡ false
    → Apart key other
separate key other e = record {
  temp = ground arith;
  diff = ground arith;
  released = ground arith;
  tmp = ground arith;
}

module _ (D : Type 0) ⦃dbl : Double D⦄ {R M : Type 0} (redis : RedisClient R)
    (value : R → Text → List ℕ) (laws : Strings redis value) (mysql : MysqlClient M)
    (member : Text → Bool → ℕ → Bool) (exact : IsExact mysql member) where
  update_key-others :
      (fuel : ℕ) (key table other : Text) (tag now : ℕ) (r : R) (m : M)
      → Apart key other
      → value (update_key D redis mysql fuel key table tag now r m).0 other ≡ value r other
  update_key-others fuel key table other tag now r m apart =
      let cleared = redis.command (del (gen_temp_key key)) r in
      let w = write_pages redis mysql fuel key table tag 0 cleared.0 m in
      let c = compare_keys D redis mysql key w.0 in
      let kept0 = laws.others (del (gen_temp_key key)) r other apart.temp in
      let kept1 =
        write_pages-others redis value laws mysql member exact fuel 0 key table other tag cleared.0
          m apart.temp
        ∙ kept0 in
      let kept2 = compare_keys-kept D redis value laws mysql key other w.0 apart.diff ∙ kept1 in
      update_key-cases D redis value laws mysql (λ t. value t other ≡ value r other) fuel key table
        tag now r m kept0 kept1 kept2
        (λ reply e d.
          release-others redis value laws mysql member exact key other tag now c.0 w.1 apart.temp
            apart.released apart.tmp
          ∙ kept2)

  update_user_info-KeySteps :
      (fuel tag now : ℕ) (r : R) (m : M)
      → KeySteps value member r (update_user_info D redis mysql fuel tag now r m).0
  unfolding update_user_info gen_temp_key gen_diff_key gen_release_key
  update_user_info-KeySteps fuel zero now r m =
      let kept : (other : Text)
          → Apart fans other
          → value (update_user_info D redis mysql fuel 0 now r m).0 other ≡ value r other =
        λ other a. update_key-others fuel fans _ other 0 now r m a in
      (
        update_user_info-old_or_whole D redis value laws mysql member fuel 0 now fans _ r m exact
            refl refl,
        inl (kept (gen_release_key active) (separate _ _ refl)),
        inl (kept (gen_release_key opened) (separate _ _ refl)),
      )
  update_user_info-KeySteps fuel (suc zero) now r m =
      let kept : (other : Text)
          → Apart active other
          → value (update_user_info D redis mysql fuel 1 now r m).0 other ≡ value r other =
        λ other a. update_key-others fuel active _ other 1 now r m a in
      (
        inl (kept (gen_release_key fans) (separate _ _ refl)),
        update_user_info-old_or_whole D redis value laws mysql member fuel 1 now active _ r m exact
            refl refl,
        inl (kept (gen_release_key opened) (separate _ _ refl)),
      )
  update_user_info-KeySteps fuel (suc (suc zero)) now r m =
      let kept : (other : Text)
          → Apart opened other
          → value (update_user_info D redis mysql fuel 2 now r m).0 other ≡ value r other =
        λ other a. update_key-others fuel opened _ other 2 now r m a in
      (
        inl (kept (gen_release_key fans) (separate _ _ refl)),
        inl (kept (gen_release_key active) (separate _ _ refl)),
        update_user_info-old_or_whole D redis value laws mysql member fuel 2 now opened _ r m exact
            refl refl,
      )
  update_user_info-KeySteps fuel (suc (suc (suc tag))) now r m = (inl refl, inl refl, inl refl)

  check_and_update_user_info-KeySteps :
      (same_day : ℕ → ℕ → Bool) (fuel tag now later : ℕ) (r : R) (m : M)
      → KeySteps value member r
          (check_and_update_user_info D redis mysql same_day fuel tag now later r m).0
  unfolding check_and_update_user_info
  check_and_update_user_info-KeySteps same_day fuel tag now later r m =
      let asked = mysql.command (select_time tag) m in
      elim (Option-cases asked.1) [
        | inl e ↦ rw (e, check_and_update_user_info) (inl refl, inl refl, inl refl)
        | inr ([], e) ↦
            rw (e, check_and_update_user_info) (update_user_info-KeySteps fuel tag later r asked.0)
        | inr (timestamp ∷ rows, e) ↦ elim (Bool-cases (same_day timestamp now)) [
          | inl d ↦ rw (e, check_and_update_user_info) (rw d (inl refl, inl refl, inl refl))
          | inr d ↦
              rw (e, check_and_update_user_info)
                (rw d (update_user_info-KeySteps fuel tag later r asked.0))
        ]
      ]

  and_then-KeySteps :
      (r : R) (w : R × M × Ended) (next : R → M → R × M × Ended)
      → KeySteps value member r w.0
      → ((s : R) (m : M) → KeySteps value member s (next s m).0)
      → KeySteps value member r (and_then w next).0
  unfolding and_then
  and_then-KeySteps r (s, m, done) next a b = KeySteps-trans value member r s _ a (b s m)
  and_then-KeySteps r (s, m, stopped) next a b = KeySteps-trans value member r s _ a (b s m)
  and_then-KeySteps r (s, m, beyond) next a b = a
  and_then-KeySteps r (s, m, running) next a b = a

  module _ (same_day : ℕ → ℕ → Bool) (fuel : ℕ) where
    main_round-KeySteps :
        (clock : ℕ → ℕ × ℕ) (r : R) (m : M)
        → KeySteps value member r (main_round D redis mysql same_day fuel clock r m).0
    unfolding main_round
    main_round-KeySteps clock r m =
        let check : (tag : ℕ) (s : R) (n : M)
            → KeySteps value member s
                (check_and_update_user_info D redis mysql same_day fuel tag (clock tag).0
                  (clock tag).1 s n).0 =
          λ tag s n.
            check_and_update_user_info-KeySteps same_day fuel tag (clock tag).0 (clock tag).1 s n in
        and_then-KeySteps r _ _ (check 0 r m)
          (λ s n. and_then-KeySteps s _ _ (check 1 s n) (check 2))

    pub main_loop-KeySteps :
        (clocks : List (ℕ → ℕ × ℕ)) (r : R) (m : M)
        → KeySteps value member r (main_loop D redis mysql same_day fuel clocks r m).0
    unfolding main_loop
    main_loop-KeySteps [] r m = (inl refl, inl refl, inl refl)
    main_loop-KeySteps (clock ∷ clocks) r m =
        and_then-KeySteps r _ _ (main_round-KeySteps clock r m) (main_loop-KeySteps clocks)
