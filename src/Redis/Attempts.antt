-- ===== src/Redis/Attempts.antt =====
-- What holds of the server through the attempts of `RedisHandler::command`.
use push_system.Common.{
  ℕ, zero, suc, ◌≡◌, refl, ◌≢◌, Option, none, some, Option-cases, ◌∙◌, inl, inr, true, false,
  Bool-cases,
}
use mathlib.Core.Path.{subst}
use push_system.Redis.{Reply, ReplyKind, Command}
use push_system.Redis.Handler.{
  Hiredis, RedisHandler, connect_loop, connect, free_connection, command_loop, command,
}
use push_system.Redis.Retries.{kind-cases, NoError}

module _ {H : Type 0} (hiredis : Hiredis H) (c : Command) (P : H → Type 0) where
  open hiredis use {redis_connect, redis_free, redis_command}

  -- The predicate survives what the handler does with the connection, and an attempt of the command.
  pub record Survives : Type 0 where
    pub connects : (x : H) → P x → P (redis_connect x).0
    pub frees : (x : H) → P x → P (redis_free x)
    pub tries : (x : H) → P x → P (redis_command c x).0

  -- A reply that the handler returns is that of the last attempt, and no error.
  pub record Last (h : RedisHandler H) (reply : Reply) : Type 0 where
    pub before : H
    pub holds : P before
    pub replied : (redis_command c before).1 ≡ some reply
    pub done : reply.kind ≢ ReplyKind.error
    pub after : (redis_command c before).0 ≡ h.net

  pub record Ends (r : RedisHandler H × Option Reply) : Type 0 where
    pub kept : P r.0.net
    pub last : (reply : Reply) → r.1 ≡ some reply → Last r.0 reply

  module _ (s : Survives) where
    connect_loop-Survives :
        (left : ℕ) (h : RedisHandler H) → P h.net → P (connect_loop hiredis left h).0.net
    unfolding connect_loop
    connect_loop-Survives zero h p = p
    connect_loop-Survives (suc left) h p = elim (Option-cases (redis_connect h.net).1) [
      | inl e ↦
          rw (e, connect_loop)
            (connect_loop-Survives left (record h { net = (redis_connect h.net).0 })
              (s.connects h.net p))
      | inr (true, e) ↦
          rw (e, connect_loop)
            (connect_loop-Survives left (record h { net = redis_free (redis_connect h.net).0 })
              (s.frees _ (s.connects h.net p)))
      | inr (false, e) ↦ rw (e, connect_loop) (s.connects h.net p)
    ]

    connect-Survives : (h : RedisHandler H) → P h.net → P (connect hiredis h).0.net
    unfolding connect
    connect-Survives h p = elim (Bool-cases h.context) [
      | inl e ↦ rw (e, connect) p
      | inr e ↦ rw (e, connect) (connect_loop-Survives 3 h p)
    ]

    free_connection-Survives : (h : RedisHandler H) → P h.net → P (free_connection hiredis h).net
    unfolding free_connection
    free_connection-Survives h p = elim (Bool-cases h.context) [
      | inl e ↦ rw (e, free_connection) (s.frees h.net p)
      | inr e ↦ rw (e, free_connection) p
    ]

    -- Whatever comes out of the loop.
    abbrev pub EndsIf : Option (RedisHandler H × Option Reply) → Type 0
    EndsIf none = Unit
    EndsIf (some r) = Ends r

    pub no_reply : (h : RedisHandler H) → P h.net → Ends (h, none)
    no_reply h p = record { kept = p; last = λ reply e. absurd cc }

    command_loop-Ends :
        (left : ℕ) (h : RedisHandler H) → P h.net → EndsIf (command_loop hiredis left c h)
    unfolding command_loop
    command_loop-Ends zero h p = no_reply h p
    command_loop-Ends (suc left) h p = elim (Bool-cases h.context) [
      | inr e ↦ rw (e, command_loop) tt
      | inl e ↦
          let sent = redis_command c h.net in
          let tried : RedisHandler H = record h { net = sent.0; reply = sent.1 } in
          let held : P sent.0 = s.tries h.net p in
          elim (Option-cases sent.1) [
            | inl q ↦
                rw (e, command_loop)
                  (rw q (
                    command_loop-Ends left (connect hiredis (free_connection hiredis tried)).0 (
                      connect-Survives (free_connection hiredis tried)
                        (free_connection-Survives tried held))))
            | inr (r, q) ↦
                let over : r.kind ≢ ReplyKind.error → Ends (tried, some r) = λ d. record {
                  kept = held;
                  last = λ reply w. record {
                    before = h.net;
                    holds = p;
                    replied = q ∙ w;
                    done = subst (λ (x : Option Reply). NoError x) w d;
                    after = refl;
                  };
                } in
                elim (kind-cases r.kind) [
                  | inl k ↦ rw (e, command_loop) (rw q (rw k (command_loop-Ends left tried held)))
                  | inr (inl k) ↦ rw (e, command_loop) (rw q (rw k (over (λ w. absurd cc))))
                  | inr (inr k) ↦ rw (e, command_loop) (rw q (rw k (over (λ w. absurd cc))))
                ]
          ]
    ]

    pub command-Ends : (h : RedisHandler H) → P h.net → EndsIf (command hiredis c h)
    unfolding command
    command-Ends h p = elim (Bool-cases (connect hiredis h).1) [
      | inl e ↦ rw (e, command) (command_loop-Ends 3 (connect hiredis h).0 (connect-Survives h p))
      | inr e ↦ rw (e, command) (no_reply (connect hiredis h).0 (connect-Survives h p))
    ]
