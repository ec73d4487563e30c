-- ===== src/Producer/Chosen.antt =====
-- Whom a chunk goes to, by the strings of Redis before `ProduceMsg`.
use push_system.Common.{
  ℕ, ◌+◌, ◌-◌, ◌*◌, ◌/◌, ◌%◌, ◌^◌, ◌≤◌, ◌≡◌, refl, ap, ◌∙◌, List, [], ◌∷◌, some, map, Option-cases,
  Bool, ◌&&◌, leb, if◌then◌else◌, arith, inl, inr, Bool-cases, count, drop, Text, codes,
}
use mathlib.Core.Path.{ap₂}
use push_system.Common.Word.{u64}
use push_system.Common.Int.{is_zero}
use push_system.Shared.{user_info_key, tmp_user_info_key, seconds_per_minute, gen_release_key}
use push_system.Redis.{RedisClient, Reply, exists_key, expire, bitop_and, getrange}
use push_system.Redis.Strings.{Strings, set_in_all}
use push_system.Producer.Bitmap.{uids_to_send}
use push_system.Producer.Bitmap.Selected.{bit_of, get_range, uids_to_send-aligned}
use push_system.Producer.Bitmap.Copied.{take-take}
use push_system.Producer.Prepare.{
  byte_count, loaded, copy_bytes, read_range, expire_key, make_key, load_user_info,
}

abbrev pub fans_key : Text
fans_key = gen_release_key (codes "OFFICIAL_FANS_")

abbrev pub other_keys : List Text
other_keys =
    gen_release_key (codes "MONTH_ACTIVE_USER_")
    ∷ gen_release_key (codes "PUSH_SWITCH_OPENED_")
    ∷ []

-- The bitmap before the call: the one under TMP_USER_INFO_KEY, or else the users that all three
-- release keys have.
abbrev pub chosen : {R : Type 0} → (value : R → Text → List ℕ) → (found : Reply) → R → ℕ → Bool
chosen value found r u =
    if is_zero found.integer
    then set_in_all (value r) fans_key other_keys u
    else bit_of (value r tmp_user_info_key) u

set_in_all_same :
    (a b : Text → List ℕ)
    → ((key : Text) → a key ≡ b key)
    → (first : Text) (keys : List Text) (u : ℕ)
    → set_in_all a first keys u ≡ set_in_all b first keys u
set_in_all_same a b e first [] u = ap (λ s. bit_of s u) (e first)
set_in_all_same a b e first (key ∷ keys) u =
    ap₂ (λ s rest. bit_of s u && rest) (e first) (set_in_all_same a b e key keys u)

module _ {R : Type 0} (redis : RedisClient R) (value : R → Text → List ℕ)
    (laws : Strings redis value) where
  -- The bytes that went on are those of GETRANGE.
  read_range-loaded :
      (start_uid end_uid : ℕ) (r : R) (bytes : List ℕ)
      → start_uid ≤ end_uid
      → end_uid + 16 ≤ 2 ^ 64
      → (read_range redis start_uid end_uid r).1 ≡ loaded bytes
      → bytes ≡ get_range (start_uid / 8) (end_uid / 8) (value r tmp_user_info_key)
  unfolding read_range copy_bytes byte_count
  read_range-loaded start_uid end_uid r bytes order w h =
      let c = getrange tmp_user_info_key (start_uid / 8) (end_uid / 8) in
      elim (Option-cases (redis.command c r).1) [
        | inl e ↦ absurd (ground arith)
        | inr (reply, e) ↦
            let str =
              laws.read tmp_user_info_key (start_uid / 8) (end_uid / 8) r reply (omega arith) e in
            let n : u64 (end_uid / 8 + 2 ^ 64 - start_uid / 8 + 1)
                ≡ end_uid / 8 - start_uid / 8 + 1 =
              omega arith in
            ground (
              arith,
              str,
              n,
              take-take (end_uid / 8 - start_uid / 8 + 1)
                  (drop (start_uid / 8) (value r tmp_user_info_key)),
            )
      ]

  -- Bytes of a chunk out of a string with these bits.
  abbrev Reads : (start_uid end_uid : ℕ) → (ℕ → Bool) → List ℕ → Type 0
  Reads start_uid end_uid bits bytes =
      (s : List ℕ) × (bytes ≡ get_range (start_uid / 8) (end_uid / 8) s)
      × ((u : ℕ) → bit_of s u ≡ bits u)

  expire_key-Reads :
      (start_uid end_uid : ℕ) (r : R) (bytes : List ℕ)
      → start_uid ≤ end_uid
      → end_uid + 16 ≤ 2 ^ 64
      → (expire_key redis start_uid end_uid r).1 ≡ loaded bytes
      → Reads start_uid end_uid (bit_of (value r tmp_user_info_key)) bytes
  unfolding expire_key
  expire_key-Reads start_uid end_uid r bytes order w h =
      let c = expire tmp_user_info_key (30 * seconds_per_minute) in
      let kept = laws.others c r tmp_user_info_key refl in
      elim (Option-cases (redis.command c r).1) [
        | inl e ↦ absurd (ground arith)
        | inr (reply, e) ↦
            let went : (read_range redis start_uid end_uid (redis.command c r).0).1 ≡ loaded bytes =
              ground arith in
            (
              value (redis.command c r).0 tmp_user_info_key,
              read_range-loaded start_uid end_uid (redis.command c r).0 bytes order w went,
              λ u. ap (λ s. bit_of s u) kept,
            )
      ]

  make_key-Reads :
      (start_uid end_uid : ℕ) (r : R) (bytes : List ℕ)
      → start_uid ≤ end_uid
      → end_uid + 16 ≤ 2 ^ 64
      → (make_key redis start_uid end_uid r).1 ≡ loaded bytes
      → Reads start_uid end_uid (set_in_all (value r) fans_key other_keys) bytes
  unfolding make_key
  make_key-Reads start_uid end_uid r bytes order w h =
      let c = bitop_and tmp_user_info_key (map gen_release_key user_info_key) in
      elim (Option-cases (redis.command c r).1) [
        | inl e ↦ absurd (ground arith)
        | inr (reply, e) ↦
            let went : (expire_key redis start_uid end_uid (redis.command c r).0).1 ≡ loaded bytes =
              ground arith in
            let (s, same, bits) =
              expire_key-Reads start_uid end_uid (redis.command c r).0 bytes order w went in
            (s, same, λ u. bits u ∙ laws.anded tmp_user_info_key _ _ r reply u e)
      ]

  load_user_info-Reads :
      (start_uid end_uid : ℕ) (r : R) (found : Reply) (bytes : List ℕ)
      → start_uid ≤ end_uid
      → end_uid + 16 ≤ 2 ^ 64
      → (redis.command (exists_key tmp_user_info_key) r).1 ≡ some found
      → (load_user_info redis start_uid end_uid r).1 ≡ loaded bytes
      → Reads start_uid end_uid (chosen value found r) bytes
  unfolding load_user_info
  load_user_info-Reads start_uid end_uid r found bytes order w e h =
      let c = exists_key tmp_user_info_key in
      let after = (redis.command c r).0 in
      let kept : (key : Text) → value after key ≡ value r key = λ key. laws.others c r key refl in
      elim (Bool-cases (is_zero found.integer)) [
        | inl z ↦
            let went : (make_key redis start_uid end_uid after).1 ≡ loaded bytes = ground arith in
            let (s, same, bits) = make_key-Reads start_uid end_uid after bytes order w went in
            (
              s,
              same,
              λ u.
                  rw z
                    (bits u ∙ set_in_all_same (value after) (value r) kept fans_key other_keys u),
            )
        | inr z ↦
            let went : (read_range redis start_uid end_uid after).1 ≡ loaded bytes = ground arith in
            (
              value after tmp_user_info_key,
              read_range-loaded start_uid end_uid after bytes order w went,
              λ u. rw z (ap (λ s. bit_of s u) (kept tmp_user_info_key)),
            )
      ]

  -- For a chunk from a first to a last bit of a byte, end_uid + 16 ≤ 2⁶⁴, if Redis writes and
  -- reads strings as documented and no key expires between two commands, and if ProduceMsg gets
  -- past its Redis part with some bytes, then they make it send to the users of the chunk, each
  -- once, whose bit is set in the string under TMP_USER_INFO_KEY or, where EXISTS finds none, in
  -- the strings under all three release keys, and to no other.
  pub uids_to_send-chosen :
      (start_uid end_uid u : ℕ) (r : R) (found : Reply) (bytes : List ℕ)
      → start_uid ≤ end_uid
      → end_uid + 16 ≤ 2 ^ 64
      → start_uid % 8 ≡ 0
      → end_uid % 8 ≡ 7
      → (redis.command (exists_key tmp_user_info_key) r).1 ≡ some found
      → (load_user_info redis start_uid end_uid r).1 ≡ loaded bytes
      → count u (uids_to_send start_uid 0 bytes)
        ≡ (if leb start_uid u && (leb u end_uid && chosen value found r u) then 1 else 0)
  uids_to_send-chosen start_uid end_uid u r found bytes order w first last e h =
      let (s, same, bits) = load_user_info-Reads start_uid end_uid r found bytes order w e h in
      rw same (
        uids_to_send-aligned start_uid end_uid u s order w first last
        ∙ ap
            (λ (b : Bool).
              let one : ℕ = 1 in if leb start_uid u && (leb u end_uid && b) then one else 0)
            (bits u))
