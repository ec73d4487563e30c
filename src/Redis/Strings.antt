-- ===== src/Redis/Strings.antt =====
-- What the programs rely on of Redis: the strings that commands write and read, by key.
use push_system.Common.{
  ℕ, zero, suc, ◌≤◌, ◌+◌, ◌-◌, ◌*◌, ◌/◌, ◌%◌, ◌<◌, ◌≡◌, List, [], ◌∷◌, some, Bool, false, ◌||◌,
  ◌&&◌, Text, text_eq, length, leb, ltb, if◌then◌else◌, arith, ◌⊎◌,
}
use push_system.Producer.Bitmap.{bit_at}
use push_system.Producer.Bitmap.Selected.{bit_in, bit_of, get_range}
use push_system.Redis.{
  RedisClient, Reply, Command, exists_key, del, rename, expire, bitop_and, bitop_xor, bitcount,
  getrange, setrange,
}

-- The string after a SETRANGE that is not empty: zero bytes stand up to the offset where the old
-- one is shorter.
abbrev pub overwrite : (offset : ℕ) → (bytes old : List ℕ) → List ℕ
overwrite zero [] old = old
overwrite zero (byte ∷ bytes) [] = byte ∷ overwrite zero bytes []
overwrite zero (byte ∷ bytes) (_ ∷ old) = byte ∷ overwrite zero bytes old
overwrite (suc offset) bytes [] = 0 ∷ overwrite offset bytes []
overwrite (suc offset) bytes (byte ∷ old) = byte ∷ overwrite offset bytes old

-- The keys that a command may write. No key expires between two commands.
abbrev pub writes : Command → Text → Bool
writes (exists_key _) key = false
writes (del target) key = text_eq target key
writes (rename from to) key = text_eq from key || text_eq to key
writes (expire _ _) key = false
writes (bitop_and target _) key = text_eq target key
writes (bitop_xor target _) key = text_eq target key
writes (bitcount _) key = false
writes (getrange _ _ _) key = false
writes (setrange target _ _) key = text_eq target key

-- Whether a bit is set in all strings.
abbrev pub set_in_all : (Text → List ℕ) → Text → List Text → ℕ → Bool
set_in_all value first [] u = bit_of (value first) u
set_in_all value first (key ∷ keys) u = bit_of (value first) u && set_in_all value key keys u

-- `value` is the string at a key, empty where there is none. A RENAME whose reply was lost may
-- have been done.
pub record Strings {R : Type 0} (redis : RedisClient R) (value : R → Text → List ℕ) : Type 0 where
  pub others :
      (c : Command) (r : R) (key : Text)
      → writes c key ≡ false
      → value (redis.command c r).0 key ≡ value r key
  pub cleared :
      (key : Text) (r : R) (reply : Reply)
      → (redis.command (del key) r).1 ≡ some reply
      → value (redis.command (del key) r).0 key ≡ []
  pub overwritten :
      (key : Text) (offset : ℕ) (bytes : List ℕ) (r : R) (reply : Reply)
      → 0 < length bytes
      → (redis.command (setrange key offset bytes) r).1 ≡ some reply
      → value (redis.command (setrange key offset bytes) r).0 key
        ≡ overwrite offset bytes (value r key)
  -- BITOP AND takes shorter strings as filled up with zero bytes.
  pub anded :
      (target first : Text) (keys : List Text) (r : R) (reply : Reply) (u : ℕ)
      → (redis.command (bitop_and target (first ∷ keys)) r).1 ≡ some reply
      → bit_of (value (redis.command (bitop_and target (first ∷ keys)) r).0 target) u
        ≡ set_in_all (value r) first keys u
  pub read :
      (key : Text) (first last : ℕ) (r : R) (reply : Reply)
      → first ≤ last
      → (redis.command (getrange key first last) r).1 ≡ some reply
      → reply.str ≡ get_range first last (value r key)
  pub renamed :
      (from to : Text) (r : R)
      → (value (redis.command (rename from to) r).0 to ≡ value r to)
        ⊎ (value (redis.command (rename from to) r).0 to ≡ value r from)

bit_at-zero : (j : ℕ) → bit_at 0 j ≡ false
unfolding bit_at
bit_at-zero j = ground arith

bit_in-overwrite :
    (offset : ℕ) (bytes old : List ℕ) (i j : ℕ)
    → bit_in (overwrite offset bytes old) i j ≡ (
        if leb offset i && ltb i (offset + length bytes)
        then bit_in bytes (i - offset) j
        else bit_in old i j)
bit_in-overwrite zero [] old i j = ground arith
bit_in-overwrite zero (byte ∷ bytes) [] zero j = ground arith
bit_in-overwrite zero (byte ∷ bytes) [] (suc i) j =
    ground (arith, bit_in-overwrite zero bytes [] i j)
bit_in-overwrite zero (byte ∷ bytes) (b ∷ old) zero j = ground arith
bit_in-overwrite zero (byte ∷ bytes) (b ∷ old) (suc i) j =
    ground (arith, bit_in-overwrite zero bytes old i j)
bit_in-overwrite (suc offset) bytes [] zero j = ground (arith, bit_at-zero j)
bit_in-overwrite (suc offset) bytes [] (suc i) j =
    ground (arith, bit_in-overwrite offset bytes [] i j)
bit_in-overwrite (suc offset) bytes (b ∷ old) zero j = ground arith
bit_in-overwrite (suc offset) bytes (b ∷ old) (suc i) j =
    ground (arith, bit_in-overwrite offset bytes old i j)

-- The bits, for an offset in whole bytes.
pub bit_of-overwrite :
    (uid u : ℕ) (bytes old : List ℕ)
    → uid % 8 ≡ 0
    → bit_of (overwrite (uid / 8) bytes old) u ≡ (
        if leb uid u && ltb u (uid + 8 * length bytes)
        then bit_of bytes (u - uid)
        else bit_of old u)
bit_of-overwrite uid u bytes old h =
    ground (arith, bit_in-overwrite (uid / 8) bytes old (u / 8) (u % 8))
