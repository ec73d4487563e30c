-- ===== src/Updater/Main/Chosen.antt =====
-- userInfoUpdate/main.cpp and producer/producer.cpp together: whom a chunk goes to after the
-- updater has run.
use push_system.Common.{
  ℕ, ◌+◌, ◌^◌, ◌%◌, ◌≤◌, ◌≡◌, ap, ◌∙◌, List, some, Bool, true, false, ◌&&◌, if◌then◌else◌, leb, ltb,
  inl, inr, count, Text, codes,
}
use mathlib.Core.Path.{ap₂}
use push_system.Common.Int.{is_zero}
use push_system.Double.{Double}
use push_system.Shared.{gen_release_key, tmp_user_info_key}
use push_system.Redis.{RedisClient, Reply, exists_key}
use push_system.Redis.Strings.{Strings, set_in_all}
use push_system.Producer.Bitmap.{uids_to_send}
use push_system.Producer.Bitmap.Selected.{bit_of}
use push_system.Producer.Prepare.{loaded, load_user_info}
use push_system.Producer.Chosen.{chosen, fans_key, other_keys, uids_to_send-chosen}
use push_system.Updater.{MysqlClient}
use push_system.Updater.Written.{IsExact, pages_end}
use push_system.Updater.Main.{main_loop}
use push_system.Updater.Main.Step.{fans, active, opened, KeyStep, KeySteps}
use push_system.Updater.Main.Kept.{main_loop-KeySteps}

-- The users of a table, or those of an old bitmap.
abbrev pub bits_of : (whole : Bool) → (member : ℕ → Bool) → (old : List ℕ) → ℕ → Bool
bits_of true member old u = ltb u pages_end && member u
bits_of false member old u = bit_of old u

-- The users that are in all three of the tables or of the old bitmaps.
abbrev pub in_all_three :
    (fans_whole active_whole opened_whole : Bool)
    → (Text → Bool → ℕ → Bool)
    → (Text → List ℕ)
    → ℕ
    → Bool
in_all_three f a o member old u =
    bits_of f (member (codes "official_fans") false) (old (gen_release_key fans)) u
    && (bits_of a (member (codes "month_active_users") false) (old (gen_release_key active)) u
        && bits_of o (member (codes "push_switch") true) (old (gen_release_key opened)) u)

KeyStep-bits :
    {R : Type 0} (value : R → Text → List ℕ) (member : ℕ → Bool) (key : Text) (r t : R)
    → KeyStep value member key r t
    → (whole : Bool) × ((u : ℕ)
        → bit_of (value t (gen_release_key key)) u
          ≡ bits_of whole member (value r (gen_release_key key)) u)
KeyStep-bits value member key r t (inl e) = (false, λ u. ap (λ s. bit_of s u) e)
KeyStep-bits value member key r t (inr e) = (true, e)

KeySteps-bits :
    {R : Type 0} (value : R → Text → List ℕ) (member : Text → Bool → ℕ → Bool) (r t : R)
    → KeySteps value member r t
    → (f a o : Bool) × ((u : ℕ)
        → set_in_all (value t) fans_key other_keys u ≡ in_all_three f a o member (value r) u)
KeySteps-bits value member r t steps =
    let (f, x) = KeyStep-bits value _ fans r t steps.0 in
    let (a, y) = KeyStep-bits value _ active r t steps.1 in
    let (o, z) = KeyStep-bits value _ opened r t steps.2 in
    (f, a, o, λ u. ap₂ (λ p q. p && q) (x u) (ap₂ (λ p q. p && q) (y u) (z u)))

module _ (D : Type 0) ⦃dbl : Double D⦄ {R M : Type 0} (redis : RedisClient R)
    (value : R → Text → List ℕ) (laws : Strings redis value) (mysql : MysqlClient M)
    (member : Text → Bool → ℕ → Bool) (exact : IsExact mysql member) where
  -- If MySQL answers the query of a page with the users of the page that fixed tables hold, and
  -- Redis writes and reads strings as documented, where a RENAME whose reply is lost may or may
  -- not have been done, and no key expires between two commands, then after any number of turns of
  -- the updater, each of whose updates may be skipped or stop at any error, a ProduceMsg call for
  -- a chunk from a first to a last bit of a byte, end_uid + 16 ≤ 2⁶⁴, which finds no
  -- TMP_USER_INFO_KEY and gets past its Redis part, sends to each user of the chunk once if the
  -- user is in all three of the sets, and otherwise not at all, where each set is, for the whole
  -- chunk, either that of the table below 100003840 or that of the bitmap before the turns: never
  -- a mixture.
  pub main_loop-chosen :
      (same_day : ℕ → ℕ → Bool) (fuel : ℕ) (clocks : List (ℕ → ℕ × ℕ)) (r : R) (m : M)
      (start_uid end_uid : ℕ) (found : Reply) (bytes : List ℕ)
      → start_uid ≤ end_uid
      → end_uid + 16 ≤ 2 ^ 64
      → start_uid % 8 ≡ 0
      → end_uid % 8 ≡ 7
      → (redis.command
          (exists_key tmp_user_info_key)
          (main_loop D redis mysql same_day fuel clocks r m).0).1
        ≡ some found
      → is_zero found.integer ≡ true
      → (load_user_info redis start_uid end_uid
          (main_loop D redis mysql same_day fuel clocks r m).0).1
        ≡ loaded bytes
      → (f a o : Bool) × ((u : ℕ)
          → count u (uids_to_send start_uid 0 bytes) ≡ (
              if leb start_uid u && (leb u end_uid && in_all_three f a o member (value r) u)
              then 1
              else 0))
  main_loop-chosen same_day fuel clocks r m start_uid end_uid found bytes order w first last e z h =
      let t = (main_loop D redis mysql same_day fuel clocks r m).0 in
      let (f, a, o, bits) =
        KeySteps-bits value member r t
          (main_loop-KeySteps D redis value laws mysql member exact same_day fuel clocks r m) in
      let made : (u : ℕ) → chosen value found t u ≡ in_all_three f a o member (value r) u =
        λ u. rw z (bits u) in
      (
        f,
        a,
        o,
        λ u.
            uids_to_send-chosen redis value laws start_uid end_uid u t found bytes order w first
              last e h
            ∙ ap
                (λ (b : Bool).
                  let one : ℕ = 1 in if leb start_uid u && (leb u end_uid && b) then one else 0)
                (made u),
      )
