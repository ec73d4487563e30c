-- ===== src/Redis/Handler.antt =====
-- common/dataHandler/redisHandler.cpp: a connection that is made again when a command fails. The
-- two overloads of `command` differ in the command text alone.
use push_system.Common.{ℕ, zero, suc, Option, none, some, Bool, true, false, if◌then◌else◌}
use push_system.Redis.{Reply, error, nil, other, Command}

-- The functions of hiredis, over a state of the network and of the server.
pub record Hiredis (H : Type 0) : Type 0 where
  -- NULL, or a context and whether its `err` is set.
  pub redis_connect : H → H × Option Bool
  pub redis_free : H → H
  -- Needs a context. NULL, or a reply.
  pub redis_command : Command → H → H × Option Reply
  pub free_reply_object : Reply → H → H

pub record RedisHandler (H : Type 0) : Type 0 where
  -- Whether `context` is not NULL.
  pub context : Bool
  pub reply : Option Reply
  pub net : H

module _ {H : Type 0} (hiredis : Hiredis H) where
  open hiredis use {redis_connect, redis_free, redis_command, free_reply_object}

  -- The loop of `connect`, with the attempts that are left.
  unfoldable pub connect_loop : ℕ → RedisHandler H → RedisHandler H × Bool
  connect_loop zero h = (record h { context = false }, false)
  connect_loop (suc left) h =
      let (net, made) = redis_connect h.net in
      elim made [
        | none ↦ connect_loop left (record h { net = net })
        | some failed ↦ elim failed [
          | true ↦ connect_loop left (record h { net = redis_free net })
          | false ↦ (record h { context = true; net = net }, true)
        ]
      ]

  unfoldable pub connect : RedisHandler H → RedisHandler H × Bool
  unfolding connect_loop
  connect h = elim h.context [ true ↦ (h, true) | false ↦ connect_loop 3 h ]

  unfoldable pub free_connection : RedisHandler H → RedisHandler H
  free_connection h = if h.context then record h { context = false; net = redis_free h.net } else h

  unfoldable pub free_reply : RedisHandler H → RedisHandler H
  free_reply h = elim h.reply [
    | none ↦ h
    | some r ↦ record h { reply = none; net = free_reply_object r h.net }
  ]

  -- The loop of `command`, with the attempts that are left; none where NULL is used as a context.
  unfoldable pub command_loop :
      ℕ → Command → RedisHandler H → Option (RedisHandler H × Option Reply)
  unfolding connect free_connection
  command_loop zero cmd h = some (h, none)
  command_loop (suc left) cmd h = elim h.context [
    | false ↦ none
    | true ↦
        let (net, got) = redis_command cmd h.net in
        let tried = record h { net = net; reply = got } in
        elim got [
          | none ↦ command_loop left cmd (connect (free_connection tried)).0
          | some r ↦ elim r.kind [
            | error ↦ command_loop left cmd tried
            | nil ↦ some (tried, some r)
            | other ↦ some (tried, some r)
          ]
        ]
  ]

  unfoldable pub command : Command → RedisHandler H → Option (RedisHandler H × Option Reply)
  unfolding command_loop
  command cmd h =
      let (ready, ok) = connect h in
      elim ok [ true ↦ command_loop 3 cmd ready | false ↦ some (ready, none) ]
