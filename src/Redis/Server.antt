-- ===== src/Redis/Server.antt =====
-- common/dataHandler/redisHandler.cpp over a server whose replies may be lost: what one attempt of
-- a command does, and a RedisHandler as its users see it.
pub mod Refines
use push_system.Common.{ℕ, ◌<◌, ◌≤◌, ◌≡◌, ◌≢◌, List, [], ◌∷◌, none, some, ◌⊎◌, false, Text, length}
use push_system.Producer.Bitmap.Selected.{bit_of, get_range}
use push_system.Redis.{
  RedisClient, Reply, ReplyKind, Command, del, rename, bitop_and, getrange, setrange,
}
use push_system.Redis.Handler.{Hiredis, RedisHandler, command}
use push_system.Redis.Strings.{writes, overwrite, set_in_all}

-- One attempt of a command. Without a reply, or with an error, it may or may not have been done.
pub record ServerStrings {H : Type 0} (hiredis : Hiredis H) (value : H → Text → List ℕ)
    : Type 0 where
  pub connected : (x : H) (key : Text) → value (hiredis.redis_connect x).0 key ≡ value x key
  pub freed : (x : H) (key : Text) → value (hiredis.redis_free x) key ≡ value x key
  pub others :
      (c : Command) (x : H) (key : Text)
      → writes c key ≡ false
      → value (hiredis.redis_command c x).0 key ≡ value x key
  pub cleared :
      (key : Text) (x : H) (reply : Reply)
      → (hiredis.redis_command (del key) x).1 ≡ some reply
      → reply.kind ≢ ReplyKind.error
      → value (hiredis.redis_command (del key) x).0 key ≡ []
  pub overwritten :
      (key : Text) (offset : ℕ) (bytes : List ℕ) (x : H) (reply : Reply)
      → 0 < length bytes
      → (hiredis.redis_command (setrange key offset bytes) x).1 ≡ some reply
      → reply.kind ≢ ReplyKind.error
      → value (hiredis.redis_command (setrange key offset bytes) x).0 key
        ≡ overwrite offset bytes (value x key)
  pub overwritten_or_not :
      (key : Text) (offset : ℕ) (bytes : List ℕ) (x : H)
      → 0 < length bytes
      → (value (hiredis.redis_command (setrange key offset bytes) x).0 key ≡ value x key)
        ⊎ (value (hiredis.redis_command (setrange key offset bytes) x).0 key
            ≡ overwrite offset bytes (value x key))
  pub anded :
      (target first : Text) (keys : List Text) (x : H) (reply : Reply) (u : ℕ)
      → (hiredis.redis_command (bitop_and target (first ∷ keys)) x).1 ≡ some reply
      → reply.kind ≢ ReplyKind.error
      → bit_of (value (hiredis.redis_command (bitop_and target (first ∷ keys)) x).0 target) u
        ≡ set_in_all (value x) first keys u
  pub anded_or_not :
      (target first : Text) (keys : List Text) (x : H) (u : ℕ)
      → (bit_of (value (hiredis.redis_command (bitop_and target (first ∷ keys)) x).0 target) u
          ≡ bit_of (value x target) u)
        ⊎ (bit_of (value (hiredis.redis_command (bitop_and target (first ∷ keys)) x).0 target) u
            ≡ set_in_all (value x) first keys u)
  pub read :
      (key : Text) (first last : ℕ) (x : H) (reply : Reply)
      → first ≤ last
      → (hiredis.redis_command (getrange key first last) x).1 ≡ some reply
      → reply.kind ≢ ReplyKind.error
      → reply.str ≡ get_range first last (value x key)
  -- RENAME takes the source away, and does nothing where there is no source.
  pub moved :
      (from to : Text) (x : H)
      → ((value (hiredis.redis_command (rename from to) x).0 to ≡ value x to)
          × (value (hiredis.redis_command (rename from to) x).0 from ≡ value x from))
        ⊎ ((value (hiredis.redis_command (rename from to) x).0 to ≡ value x from)
            × (value (hiredis.redis_command (rename from to) x).0 from ≡ []))
  pub not_moved :
      (from to : Text) (x : H)
      → value x from ≡ []
      → value (hiredis.redis_command (rename from to) x).0 to ≡ value x to

-- A RedisHandler as its users see it. Where `command` would use a NULL context there is no reply.
abbrev pub handler_client : {H : Type 0} → Hiredis H → RedisClient (RedisHandler H)
handler_client hiredis = record {
  command = λ c h. elim (command hiredis c h) [ none ↦ (h, none) | some r ↦ r ];
}
