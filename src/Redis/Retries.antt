-- ===== src/Redis/Retries.antt =====
-- What `command` returns, and what it needs of the reconnection.
use push_system.Common.{
  ℕ, zero, suc, ◌≡◌, refl, ◌≢◌, Option, none, some, Option-cases, ◌∙◌, inl, inr, ◌⊎◌, true, false,
  arith,
}
use push_system.Redis.{Reply, ReplyKind, error, nil, other, Command}
use push_system.Redis.Handler.{
  Hiredis, RedisHandler, connect_loop, connect, free_connection, command_loop, command,
}

-- The reply, if there is one, is no error.
abbrev pub NoError : Option Reply → Type 0
NoError none = Unit {0}
NoError (some r) = r.kind ≢ ReplyKind.error

pub kind-cases : (k : ReplyKind) → (k ≡ error) ⊎ ((k ≡ nil) ⊎ (k ≡ other))
kind-cases error = inl refl
kind-cases nil = inr (inl refl)
kind-cases other = inr (inr refl)

module _ {H : Type 0} (hiredis : Hiredis H) where
  open hiredis use {redis_connect, redis_free, redis_command}

  connect-context :
      (h : RedisHandler H)
      → ((x : H) → (redis_connect x).1 ≡ some false)
      → ((connect hiredis h).1 ≡ true) × ((connect hiredis h).0.context ≡ true)
  unfolding connect connect_loop
  connect-context h up = ground (arith, up h.net)

  command_loop-defined :
      (left : ℕ) (cmd : Command) (h : RedisHandler H)
      → ((x : H) → (redis_connect x).1 ≡ some false)
      → h.context ≡ true
      → (r : RedisHandler H × Option Reply) × (command_loop hiredis left cmd h ≡ some r)
        × (r.0.context ≡ true)
        × NoError r.1
  unfolding command_loop
  command_loop-defined zero cmd h up c = ((h, none), refl, c, tt)
  command_loop-defined (suc left) cmd h up c =
      let sent = redis_command cmd h.net in
      let tried : RedisHandler H = record h { net = sent.0; reply = sent.1 } in
      elim (Option-cases sent.1) [
        | inl e ↦
            let again = connect hiredis (free_connection hiredis tried) in
            let rest =
              command_loop-defined left cmd again.0 up
                (connect-context (free_connection hiredis tried) up).1 in
            let step : command_loop hiredis (suc left) cmd h
                ≡ command_loop hiredis left cmd again.0 =
              ground arith in
            (rest.0, step ∙ rest.1, rest.2, rest.3)
        | inr (r, e) ↦ elim (kind-cases r.kind) [
          | inl bad ↦
              let rest = command_loop-defined left cmd tried up c in
              let step : command_loop hiredis (suc left) cmd h
                  ≡ command_loop hiredis left cmd tried =
                ground arith in
              (rest.0, step ∙ rest.1, rest.2, rest.3)
          | inr (inl k) ↦ ((tried, some r), ground arith, c, λ q. absurd cc)
          | inr (inr k) ↦ ((tried, some r), ground arith, c, λ q. absurd cc)
        ]
      ]

  -- If each connection attempt succeeds, RedisHandler::command never uses a NULL context, returns
  -- NULL or a reply that is no error, and leaves the handler connected.
  command-defined :
      (cmd : Command) (h : RedisHandler H)
      → ((x : H) → (redis_connect x).1 ≡ some false)
      → (r : RedisHandler H × Option Reply) × (command hiredis cmd h ≡ some r)
        × (r.0.context ≡ true)
        × NoError r.1
  unfolding command
  command-defined cmd h up =
      let made = connect-context h up in
      let rest = command_loop-defined 3 cmd (connect hiredis h).0 up made.1 in
      (rest.0, ground (arith, made.0) ∙ rest.1, rest.2, rest.3)

  connect_loop-down :
      (left : ℕ) (h : RedisHandler H)
      → ((x : H) → (redis_connect x).1 ≢ some false)
      → (connect_loop hiredis left h).0.context ≡ false
  unfolding connect_loop
  connect_loop-down zero h down = refl
  connect_loop-down (suc left) h down =
      let x = (redis_connect h.net).0 in
      elim (Option-cases (redis_connect h.net).1) [
        | inl e ↦ rw (e, connect_loop) (connect_loop-down left (record h { net = x }) down)
        | inr (true, e) ↦
            rw (e, connect_loop) (connect_loop-down left (record h { net = redis_free x }) down)
        | inr (false, e) ↦ absurd (down h.net e)
      ]

  -- If the server is gone, so that the command gives NULL and no connection attempt succeeds, each
  -- giving NULL or a context with an error, RedisHandler::command on a connected handler uses a
  -- NULL context.
  pub command-null_context :
      (cmd : Command) (h : RedisHandler H)
      → ((x : H) → (redis_connect x).1 ≢ some false)
      → ((x : H) → (redis_command cmd x).1 ≡ none)
      → h.context ≡ true
      → command hiredis cmd h ≡ none
  unfolding command command_loop connect free_connection
  command-null_context cmd h down silent c =
      let sent = redis_command cmd h.net in
      let tried : RedisHandler H = record h { net = sent.0; reply = sent.1 } in
      let lost : RedisHandler H = free_connection hiredis tried in
      let again = connect hiredis lost in
      let gone : again.0.context ≡ false = ground (arith, connect_loop-down 3 lost down) in
      let ready : command hiredis cmd h ≡ command_loop hiredis 3 cmd h = ground arith in
      let second : command_loop hiredis 3 cmd h ≡ command_loop hiredis 2 cmd again.0 =
        ground (arith, silent h.net) in
      let fault : command_loop hiredis 2 cmd again.0 ≡ none = ground arith in ready ∙ second ∙ fault
