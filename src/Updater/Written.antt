-- ===== src/Updater/Written.antt =====
-- What the pages and a RENAME leave at TEMP_KEY and at RELEASE_KEY.
use push_system.Common.{
  ℕ, zero, suc, ◌+◌, ◌-◌, ◌*◌, ◌/◌, ◌%◌, ◌≤◌, ◌<◌, ◌≡◌, refl, ap, ◌∙◌, List, [], ◌∷◌, ◌++◌, none,
  some, Bool, false, ◌&&◌, ◌==◌, Text, text_eq, length, ltb, arith, inl, inr, ◌⊎◌, Option, All,
  get_elem?, Bool-cases, Option-cases, codes,
}
use mathlib.Core.Path.{subst}
use push_system.Common.Word.{u64}
use push_system.Producer.Bitmap.Selected.{bit_of}
use push_system.Shared.{
  gen_release_key, gen_temp_key, gen_diff_key, tmp_user_info_key, user_info_key,
}
use push_system.Redis.{RedisClient, setrange, del, rename}
use push_system.Updater.Page.{counts_per_loop, page_bitmap}
use push_system.Updater.Page.Bits.{InPage, listed, page_bitmap-bits}
use push_system.Redis.Strings.{Strings, overwrite, bit_of-overwrite}
use push_system.Updater.{
  end_uid, MysqlClient, gen_sql, select_uids, Ended, done, write_pages, release,
}

-- The tables do not change during the update, and MySQL answers the query of a page with the users
-- of the page whom the WHERE chooses, `member` of them.
abbrev pub IsExact : {M : Type 0} → MysqlClient M → (Text → Bool → ℕ → Bool) → Type 0
IsExact {M} mysql member =
    (table : Text) (opened : Bool) (uid : ℕ) (m : M) (rows : List ℕ)
    → (mysql.command (select_uids table uid (uid + counts_per_loop) opened) m).1 ≡ some rows
    → All (InPage uid (uid + counts_per_loop)) rows
      × ((u : ℕ) → uid ≤ u → u < uid + counts_per_loop → listed u rows ≡ member table opened u)

-- The first uid behind the pages of an update.
abbrev pub pages_end : ℕ
pages_end = (end_uid / counts_per_loop + 1) * counts_per_loop

text_eq-append : (c s t : Text) → text_eq (c ++ s) (c ++ t) ≡ text_eq s t
text_eq-append [] s t = refl
text_eq-append (x ∷ c) s t = ground (arith, text_eq-append c s t)

pub temp_release : (key : Text) → text_eq (gen_temp_key key) (gen_release_key key) ≡ false
unfolding gen_temp_key gen_release_key
temp_release key = text_eq-append key (codes "TEMP") (codes "RELEASE")

pub diff_release : (key : Text) → text_eq (gen_diff_key key) (gen_release_key key) ≡ false
unfolding gen_diff_key gen_release_key
diff_release key = text_eq-append key (codes "DIFF") (codes "RELEASE")

pub diff_temp : (key : Text) → text_eq (gen_diff_key key) (gen_temp_key key) ≡ false
unfolding gen_diff_key gen_temp_key
diff_temp key = text_eq-append key (codes "DIFF") (codes "TEMP")

abbrev pub NotTmp : Option Text → Type 0
NotTmp none = Unit
NotTmp (some key) = text_eq tmp_user_info_key (gen_release_key key) ≡ false

-- No RELEASE_KEY of a tag is the key of the producers.
pub release-NotTmp : (tag : ℕ) → NotTmp (get_elem? user_info_key tag)
unfolding gen_release_key
release-NotTmp zero = refl
release-NotTmp (suc zero) = refl
release-NotTmp (suc (suc zero)) = refl
release-NotTmp (suc (suc (suc tag))) = tt

-- A string has the bits of `member` below `end`, and no other.
abbrev pub HasBits : (member : ℕ → Bool) → (end : ℕ) → List ℕ → Type 0
HasBits member end s = (u : ℕ) → bit_of s u ≡ ltb u end && member u

-- A page more.
HasBits-overwrite :
    (member : ℕ → Bool) (uid : ℕ) (bytes old : List ℕ)
    → uid % 8 ≡ 0
    → length bytes ≡ counts_per_loop / 8
    → ((u : ℕ) → uid ≤ u → u < uid + counts_per_loop → bit_of bytes (u - uid) ≡ member u)
    → HasBits member uid old
    → HasBits member (uid + counts_per_loop) (overwrite (uid / 8) bytes old)
HasBits-overwrite member uid bytes old a l page h u =
    ground (arith, bit_of-overwrite uid u bytes old a, page u, h u)

module _ {R M : Type 0} (redis : RedisClient R) (value : R → Text → List ℕ)
    (laws : Strings redis value) (mysql : MysqlClient M) (member : Text → Bool → ℕ → Bool)
    (exact : IsExact mysql member) where
  -- What a loop over the pages that ends well leaves at TEMP_KEY.
  abbrev pub Filled : (table key : Text) → (tag : ℕ) → R × M × Ended → Type 0
  Filled table key tag w =
      w.2 ≡ done → HasBits (member table (tag == 2)) pages_end (value w.0 (gen_temp_key key))

  pub write_pages-bits :
      (fuel uid : ℕ) (key table : Text) (tag : ℕ) (r : R) (m : M)
      → uid % counts_per_loop ≡ 0
      → uid ≤ pages_end
      → HasBits (member table (tag == 2)) uid (value r (gen_temp_key key))
      → Filled table key tag (write_pages redis mysql fuel key table tag uid r m)
  unfolding write_pages gen_sql
  write_pages-bits zero uid key table tag r m a l h = λ d. absurd cc
  write_pages-bits (suc fuel) uid key table tag r m a l h = elim (Bool-cases (ltb end_uid uid)) [
    | inl over ↦
        let last : uid ≡ pages_end = ground arith in
        rw (over, write_pages)
          (λ d.
            subst (λ end. HasBits (member table (tag == 2)) end (value r (gen_temp_key key))) last
              h)
    | inr le ↦ elim (Option-cases (mysql.command (gen_sql table tag uid) m).1) [
      | inl e ↦ rw (le, write_pages) (rw e (λ d. absurd cc))
      | inr (rows, e) ↦
          let low : uid ≤ end_uid = ground arith in
          let answer = exact table (tag == 2) uid m rows e in
          let page = page_bitmap-bits uid rows answer.0 (omega arith) in
          let c = setrange (gen_temp_key key) (uid / 8) page.0 in
          elim (Option-cases (redis.command c r).1) [
            | inl q ↦ rw (le, write_pages) (rw e (rw (page.1) (rw q (λ d. absurd cc))))
            | inr (reply, q) ↦
                let next = u64 (uid + counts_per_loop) in
                let same : next ≡ uid + counts_per_loop = omega arith in
                let grown : HasBits (member table (tag == 2)) next
                    (value (redis.command c r).0 (gen_temp_key key)) =
                  rw
                    (
                      same,
                      laws.overwritten (gen_temp_key key) (uid / 8) page.0 r reply
                          (omega (arith, page.2)) q,
                    )
                    (HasBits-overwrite (member table (tag == 2)) uid page.0
                      (value r (gen_temp_key key)) (omega arith) page.2
                      (in_page uid table tag rows page.0 page.3 answer.1) h) in
                let rest =
                  write_pages-bits fuel next key table tag (redis.command c r).0
                    (mysql.command (gen_sql table tag uid) m).0 (omega arith) (omega arith) grown in
                rw (le, write_pages) (rw e (rw (page.1) (rw q rest)))
          ]
    ]
  ]
    where
      in_page :
          (uid : ℕ) (table : Text) (tag : ℕ) (rows bytes : List ℕ)
          → ((k : ℕ) → bit_of bytes k ≡ listed (uid + k) rows)
          → ((u : ℕ)
              → uid ≤ u
              → u < uid + counts_per_loop
              → listed u rows ≡ member table (tag == 2) u)
          → (u : ℕ) → uid ≤ u
          → u < uid + counts_per_loop
          → bit_of bytes (u - uid) ≡ member table (tag == 2) u
      in_page uid table tag rows bytes b a u low high =
          let same : uid + (u - uid) ≡ u = omega arith in
          b (u - uid) ∙ ap (λ v. listed v rows) same ∙ a u low high

  pub write_pages-others :
      (fuel uid : ℕ) (key table other : Text) (tag : ℕ) (r : R) (m : M)
      → text_eq (gen_temp_key key) other ≡ false
      → value (write_pages redis mysql fuel key table tag uid r m).0 other ≡ value r other
  unfolding write_pages
  write_pages-others zero uid key table other tag r m d = refl
  write_pages-others (suc fuel) uid key table other tag r m d =
      elim (Option-cases (mysql.command (gen_sql table tag uid) m).1) [
        | inl e ↦ ground arith
        | inr (rows, e) ↦ elim (Option-cases (page_bitmap uid rows)) [
          | inl p ↦ ground arith
          | inr (bitmap, p) ↦
              let c = setrange (gen_temp_key key) (uid / 8) bitmap in
              let sent = redis.command c r in
              let next = u64 (uid + counts_per_loop) in
              ground (
                arith,
                laws.others c r other d,
                write_pages-others fuel next key table other tag sent.0
                    (mysql.command (gen_sql table tag uid) m).0 d,
              )
        ]
      ]

  pub release-others :
      (key other : Text) (tag now : ℕ) (r : R) (m : M)
      → text_eq (gen_temp_key key) other ≡ false
      → text_eq (gen_release_key key) other ≡ false
      → text_eq tmp_user_info_key other ≡ false
      → value (release redis mysql key tag now r m).0 other ≡ value r other
  unfolding release
  release-others key other tag now r m a b c =
      let move = rename (gen_temp_key key) (gen_release_key key) in
      let after = (redis.command move r).0 in
      ground (
        arith,
        laws.others move r other (ground arith),
        laws.others (del tmp_user_info_key) after other c,
      )

  pub release-kept :
      (key : Text) (tag now : ℕ) (r : R) (m : M)
      → text_eq tmp_user_info_key (gen_release_key key) ≡ false
      → let t = (release redis mysql key tag now r m).0 in
        (value t (gen_release_key key) ≡ value r (gen_release_key key))
        ⊎ (value t (gen_release_key key) ≡ value r (gen_temp_key key))
  unfolding release
  release-kept key tag now r m other =
      let after = (redis.command (rename (gen_temp_key key) (gen_release_key key)) r).0 in
      elim (laws.renamed (gen_temp_key key) (gen_release_key key) r) [
        | inl e ↦
            inl (
              ground (arith, laws.others (del tmp_user_info_key) after (gen_release_key key) other))
        | inr e ↦
            inr (
              ground (arith, laws.others (del tmp_user_info_key) after (gen_release_key key) other))
      ]
