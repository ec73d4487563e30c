-- ===== src/Producer/Prepare.antt =====
-- The Redis part of `ProduceMsgCallData::ProduceMsg`, which runs with `redisMtx` held: the bitmap of
-- the users to push to is made if it is not there, and the bytes of the chunk are read.
use push_system.Common.{
  ℕ, ◌+◌, ◌-◌, ◌*◌, ◌/◌, ◌^◌, List, map, none, some, if◌then◌else◌, length, take, ltb,
}
use push_system.Common.Word.{u64}
use push_system.Common.Int.{is_zero, is_nonpos}
use push_system.Shared.{user_info_key, tmp_user_info_key, seconds_per_minute, gen_release_key}
use push_system.Redis.{exists_key, expire, bitop_and, getrange, RedisClient}

-- The number of bytes of a chunk, a `size_t`.
unfoldable pub byte_count : (start_uid end_uid : ℕ) → ℕ
byte_count start_uid end_uid = u64 (end_uid / 8 + 2 ^ 64 - start_uid / 8 + 1)

-- What `ProduceMsg` has after the Redis part.
pub data Loaded : Type 0 where
  -- It returned `common::ERR`.
  failed : Loaded
  -- It went on with these bytes.
  loaded : List ℕ → Loaded
  -- It copied bytes from beyond the reply.
  overread : Loaded

-- `string(redisReply->str, len)`
unfoldable pub copy_bytes : ℕ → List ℕ → Loaded
copy_bytes len bytes = if ltb (length bytes) len then overread else loaded (take len bytes)

module _ {R : Type 0} (redis : RedisClient R) where
  open redis use {command}

  -- GETRANGE and the copy of the bytes.
  unfoldable pub read_range : (start_uid end_uid : ℕ) → R → R × Loaded
  read_range start_uid end_uid r =
      let (r, reply) = command (getrange tmp_user_info_key (start_uid / 8) (end_uid / 8)) r in
      elim reply [
        | none ↦ (r, failed)
        | some bytes ↦ (r, copy_bytes (byte_count start_uid end_uid) bytes.str)
      ]

  -- EXPIRE; NULL or 0 is an error.
  unfoldable pub expire_key : (start_uid end_uid : ℕ) → R → R × Loaded
  unfolding read_range
  expire_key start_uid end_uid r =
      let (r, reply) = command (expire tmp_user_info_key (30 * seconds_per_minute)) r in
      elim reply [
        | none ↦ (r, failed)
        | some set ↦ if is_zero set.integer then (r, failed) else read_range start_uid end_uid r
      ]

  -- BITOP AND over the three release keys; NULL or a length of 0 is an error.
  unfoldable pub make_key : (start_uid end_uid : ℕ) → R → R × Loaded
  unfolding expire_key
  make_key start_uid end_uid r =
      let (r, reply) =
        command (bitop_and tmp_user_info_key (map gen_release_key user_info_key)) r in
      elim reply [
        | none ↦ (r, failed)
        | some made ↦ if is_nonpos made.integer then (r, failed) else expire_key start_uid end_uid r
      ]

  unfoldable pub load_user_info : (start_uid end_uid : ℕ) → R → R × Loaded
  unfolding make_key
  load_user_info start_uid end_uid r =
      let (r, reply) = command (exists_key tmp_user_info_key) r in
      elim reply [
        | none ↦ (r, failed)
        | some found ↦
            if is_zero found.integer
            then make_key start_uid end_uid r
            else read_range start_uid end_uid r
      ]
