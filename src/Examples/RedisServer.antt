-- ===== src/Examples/RedisServer.antt =====
-- RedisHandler over a server that loses every other reply.
use push_system.Common.{
  ℕ, ◌≡◌, refl, ap, List, [], ◌∷◌, none, some, Bool, true, false, inr, if◌then◌else◌, arith, Text,
  length,
}
use push_system.Redis.{setrange}
use push_system.Redis.Handler.{
  Hiredis, RedisHandler, connect_loop, connect, free_connection, command_loop, command,
}
use push_system.Redis.Strings.{Strings}
use push_system.Redis.Server.{ServerStrings, handler_client}
use push_system.Redis.Server.Refines.{handler_client-Strings}
use push_system.Examples.Store.{
  Store, after, reply_of, kept_others, bit_of-all_of, text_eq_refl, moved,
}

-- Whether the next reply is lost, and the strings.
abbrev Lossy : Type 0
Lossy = Bool × Store

abbrev lossy_hiredis : Hiredis Lossy
lossy_hiredis = record {
  redis_connect = λ x. (x, some false);
  redis_free = λ x. x;
  redis_command = λ c x.
      ((if x.0 then false else true, after c x.1), if x.0 then none else some (reply_of c x.1));
  free_reply_object = λ r x. x;
}

lossy-ServerStrings : ServerStrings lossy_hiredis (λ x. x.1)
lossy-ServerStrings = record {
  connected = λ x key. refl;
  freed = λ x key. refl;
  others = λ c x key w. kept_others c x.1 key w;
  cleared = λ key x reply e d. ground (arith, text_eq_refl key);
  overwritten = λ key offset bytes x reply l e d. ground (arith, text_eq_refl key);
  overwritten_or_not = λ key offset bytes x l. inr (ground (arith, text_eq_refl key));
  anded =
      λ target first keys x reply u e d. rw (text_eq_refl target) (bit_of-all_of x.1 first keys u);
  anded_or_not =
      λ target first keys x u. inr (rw (text_eq_refl target) (bit_of-all_of x.1 first keys u));
  read = λ key first last x reply l e d. ground arith;
  moved = λ from to x. moved from to x.1;
  not_moved = λ from to x e. ground (arith, ap (λ (s : List ℕ). length s) e);
}

handler_client-Strings_example : Strings (handler_client lossy_hiredis) (λ h. h.net.1)
handler_client-Strings_example = handler_client-Strings lossy_hiredis (λ x. x.1) lossy-ServerStrings

abbrev lossy : RedisHandler Lossy
lossy = record { context = false; reply = none; net = (true, λ key. []) }

abbrev name : Text
name = 107 ∷ []

-- The first reply is lost, and the command is sent again.
written_after_loss :
    ((handler_client lossy_hiredis).command (setrange name 1 (5 ∷ [])) lossy).0.net.1 name
    ≡ 0 ∷ 5 ∷ []
unfolding command command_loop connect connect_loop free_connection
written_after_loss = refl
