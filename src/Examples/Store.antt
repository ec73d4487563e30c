-- ===== src/Examples/Store.antt =====
-- A Redis of strings, which does what the programs rely on.
use push_system.Common.{
  ℕ, zero, suc, ◌+◌, ◌*◌, ◌/◌, ◌%◌, ◌≤◌, ◌<◌, ◌≡◌, refl, ap, ◌∙◌, List, [], ◌∷◌, some, Bool, true,
  false, ◌&&◌, ◌||◌, ◌==◌, Bool-cases, if◌then◌else◌, arith, inl, inr, ◌⊎◌, Text, text_eq, length,
}
use push_system.Common.Int.{pos}
use push_system.Producer.Bitmap.{bit_at}
use push_system.Producer.Bitmap.Selected.{bit_in, bit_of, get_range}
use push_system.Redis.{
  ReplyKind, Reply, RedisClient, Command, exists_key, del, rename, expire, bitop_and, bitop_xor,
  bitcount, getrange, setrange,
}
use push_system.Redis.Strings.{Strings, writes, overwrite, set_in_all}

abbrev pub Store : Type 0
Store = Text → List ℕ

abbrev pub put : Text → List ℕ → Store → Store
put key s store other = if text_eq key other then s else store other

abbrev digit : Bool → ℕ
digit false = 0
digit true = 1

-- The byte of eight bits, and the bytes of two strings, bit by bit.
abbrev byte_of : (ℕ → Bool) → ℕ
byte_of b =
    128 * digit (b 0)
    + 64 * digit (b 1)
    + 32 * digit (b 2)
    + 16 * digit (b 3)
    + (8 * digit (b 4) + 4 * digit (b 5) + 2 * digit (b 6) + digit (b 7))

abbrev both : List ℕ → List ℕ → List ℕ
both (a ∷ s) (b ∷ t) = byte_of (λ j. bit_at a j && bit_at b j) ∷ both s t
both _ _ = []

abbrev all_of : Store → Text → List Text → List ℕ
all_of store first [] = store first
all_of store first (key ∷ keys) = both (store first) (all_of store key keys)

abbrev pub after : Command → Store → Store
after (exists_key _) s = s
after (del key) s = put key [] s
after (rename from to) s =
    if text_eq to from || length (s from) == 0 then s else put to (s from) (put from [] s)
after (expire _ _) s = s
after (bitop_and target []) s = s
after (bitop_and target (first ∷ keys)) s = put target (all_of s first keys) s
after (bitop_xor target _) s = put target [] s
after (bitcount _) s = s
after (getrange _ _ _) s = s
after (setrange key offset bytes) s = put key (overwrite offset bytes (s key)) s

abbrev ok : ℕ → List ℕ → Reply
ok n str = record { kind = ReplyKind.other; integer = pos n; str = str }

abbrev pub reply_of : Command → Store → Reply
reply_of (exists_key key) s = ok (if length (s key) == 0 then 0 else 1) []
reply_of (getrange key first last) s = ok 0 (get_range first last (s key))
reply_of _ s = ok 1 []

-- Strings under their keys. BITOP XOR and BITCOUNT are not worked out.
abbrev pub store_redis : RedisClient Store
store_redis = record { command = λ c s. (after c s, some (reply_of c s)) }

pub text_eq_refl : (t : Text) → text_eq t t ≡ true
text_eq_refl [] = refl
text_eq_refl (c ∷ t) = ground (arith, text_eq_refl t)

digit_le : (b : Bool) → digit b ≤ 1
digit_le true = omega arith
digit_le false = omega arith

digit_test : (b : Bool) → (digit b == 1) ≡ b
digit_test true = refl
digit_test false = refl

-- Each digit of a byte.
digits :
    (a b c d e f g h : ℕ)
    → a ≤ 1
    → b ≤ 1
    → c ≤ 1
    → d ≤ 1
    → e ≤ 1
    → f ≤ 1
    → g ≤ 1
    → h ≤ 1
    → let byte = 128 * a + 64 * b + 32 * c + 16 * d + (8 * e + 4 * f + 2 * g + h) in
      (byte / 128 % 2 ≡ a)
      × (byte / 64 % 2 ≡ b)
      × (byte / 32 % 2 ≡ c)
      × (byte / 16 % 2 ≡ d)
      × (byte / 8 % 2 ≡ e)
      × (byte / 4 % 2 ≡ f)
      × (byte / 2 % 2 ≡ g)
      × (byte / 1 % 2 ≡ h)
digits a b c d e f g h la lb lc ld le lf lg lh = (
  omega arith,
  omega arith,
  omega arith,
  omega arith,
  omega arith,
  omega arith,
  omega arith,
  omega arith,
)

digits_of :
    (b : ℕ → Bool)
    → (byte_of b / 128 % 2 ≡ digit (b 0))
      × (byte_of b / 64 % 2 ≡ digit (b 1))
      × (byte_of b / 32 % 2 ≡ digit (b 2))
      × (byte_of b / 16 % 2 ≡ digit (b 3))
      × (byte_of b / 8 % 2 ≡ digit (b 4))
      × (byte_of b / 4 % 2 ≡ digit (b 5))
      × (byte_of b / 2 % 2 ≡ digit (b 6))
      × (byte_of b / 1 % 2 ≡ digit (b 7))
digits_of b =
    digits _ _ _ _ _ _ _ _ (digit_le (b 0)) (digit_le (b 1)) (digit_le (b 2)) (digit_le (b 3))
      (digit_le (b 4)) (digit_le (b 5)) (digit_le (b 6)) (digit_le (b 7))

bit_at-byte_of : (b : ℕ → Bool) (j : ℕ) → j < 8 → bit_at (byte_of b) j ≡ b j
unfolding bit_at
bit_at-byte_of b zero l = ap (λ n. n == 1) (digits_of b).0 ∙ digit_test (b 0)
bit_at-byte_of b (suc zero) l = ap (λ n. n == 1) (digits_of b).1 ∙ digit_test (b 1)
bit_at-byte_of b (suc (suc zero)) l = ap (λ n. n == 1) (digits_of b).2 ∙ digit_test (b 2)
bit_at-byte_of b (suc (suc (suc zero))) l = ap (λ n. n == 1) (digits_of b).3 ∙ digit_test (b 3)
bit_at-byte_of b (suc (suc (suc (suc zero)))) l =
    ap (λ n. n == 1) (digits_of b).4 ∙ digit_test (b 4)
bit_at-byte_of b (suc (suc (suc (suc (suc zero))))) l =
    ap (λ n. n == 1) (digits_of b).5 ∙ digit_test (b 5)
bit_at-byte_of b (suc (suc (suc (suc (suc (suc zero)))))) l =
    ap (λ n. n == 1) (digits_of b).6 ∙ digit_test (b 6)
bit_at-byte_of b (suc (suc (suc (suc (suc (suc (suc zero))))))) l =
    ap (λ n. n == 1) (digits_of b).7 ∙ digit_test (b 7)
bit_at-byte_of b (suc (suc (suc (suc (suc (suc (suc (suc j)))))))) l = absurd (omega arith)

bit_in-both :
    (s t : List ℕ) (i j : ℕ) → j < 8 → bit_in (both s t) i j ≡ bit_in s i j && bit_in t i j
bit_in-both [] t i j l = ground arith
bit_in-both (a ∷ s) [] i j l = ground arith
bit_in-both (a ∷ s) (b ∷ t) zero j l = bit_at-byte_of (λ k. bit_at a k && bit_at b k) j l
bit_in-both (a ∷ s) (b ∷ t) (suc i) j l = bit_in-both s t i j l

pub bit_of-all_of :
    (s : Store) (first : Text) (keys : List Text) (u : ℕ)
    → bit_of (all_of s first keys) u ≡ set_in_all s first keys u
bit_of-all_of s first [] u = refl
bit_of-all_of s first (key ∷ keys) u =
    bit_in-both (s first) (all_of s key keys) (u / 8) (u % 8) (omega arith)
    ∙ ap (λ (b : Bool). bit_of (s first) u && b) (bit_of-all_of s key keys u)

pub kept_others :
    (c : Command) (s : Store) (key : Text) → writes c key ≡ false → after c s key ≡ s key
kept_others (exists_key _) s key h = refl
kept_others (del _) s key h = ground arith
kept_others (rename _ _) s key h = ground arith
kept_others (expire _ _) s key h = refl
kept_others (bitop_and _ []) s key h = refl
kept_others (bitop_and _ (_ ∷ _)) s key h = ground arith
kept_others (bitop_xor _ _) s key h = ground arith
kept_others (bitcount _) s key h = refl
kept_others (getrange _ _ _) s key h = refl
kept_others (setrange _ _ _) s key h = ground arith

-- A RENAME of a key to itself, or of a missing one, does nothing.
pub moved :
    (from to : Text) (s : Store)
    → ((after (rename from to) s to ≡ s to) × (after (rename from to) s from ≡ s from))
      ⊎ ((after (rename from to) s to ≡ s from) × (after (rename from to) s from ≡ []))
moved from to s = elim (Bool-cases (text_eq to from || length (s from) == 0)) [
  | inl e ↦ inl (rw e refl, rw e refl)
  | inr e ↦ inr (ground (arith, text_eq_refl to), ground (arith, text_eq_refl from))
]

pub store-Strings : Strings store_redis (λ s. s)
store-Strings = record {
  others = kept_others;
  cleared = λ key s reply e. ground (arith, text_eq_refl key);
  overwritten = λ key offset bytes s reply l e. ground (arith, text_eq_refl key);
  anded = λ target first keys s reply u e. rw (text_eq_refl target) (bit_of-all_of s first keys u);
  read = λ key first last s reply l e. ground arith;
  renamed = λ from to s. elim (moved from to s) [ inl e ↦ inl e.0 | inr e ↦ inr e.0 ];
}
