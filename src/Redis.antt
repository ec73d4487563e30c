-- ===== src/Redis.antt =====
-- What the programs say to Redis through hiredis: the commands, as they are written into the
-- command text, and the replies. `RedisHandler` itself is in the children.
pub mod Handler
pub mod Retries
pub mod Strings
pub mod Attempts
pub mod Server
use push_system.Common.{ℕ, List, Option, Text}
use push_system.Common.Int.{ℤ}

-- `redisReply`: `type`, `integer`, and the bytes at `str`.
pub data ReplyKind : Type 0 where
  error nil other : ReplyKind

pub record Reply : Type 0 where
  pub kind : ReplyKind
  pub integer : ℤ
  pub str : List ℕ

pub data Command : Type 0 where
  exists_key : Text → Command
  del : Text → Command
  rename : (from to : Text) → Command
  expire : Text → (seconds : ℕ) → Command
  bitop_and : (target : Text) → List Text → Command
  bitop_xor : (target : Text) → List Text → Command
  bitcount : Text → Command
  getrange : Text → (first last : ℕ) → Command
  setrange : Text → (offset : ℕ) → (bytes : List ℕ) → Command

-- A connection as its users see it: `redisHandler.command`, whose result may be NULL, over a state
-- of the server and of the handler.
pub record RedisClient (R : Type 0) : Type 0 where
  pub command : Command → R → R × Option Reply
