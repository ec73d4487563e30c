-- ===== src/Examples/Services.antt =====
-- The theorems on the Redis connection and on the load reports at concrete inputs.
use push_system.Common.{ℕ, ◌≤◌, ◌≡◌, refl, [], ◌∷◌, none, some, true, false, codes, arith}
use push_system.Redis.{bitcount}
use push_system.Redis.Handler.{Hiredis, command}
use push_system.Redis.Retries.{command-null_context}
use push_system.Mysql
use push_system.Mysql.{MysqlApi, MysqlHandler}
use push_system.Mysql.Retries.{command-needs_connection}
use push_system.Client.{Client, new_client, registered, get_server_id}
use push_system.System.{report}
use push_system.System.Safety.{OfProducers}
use push_system.Producer.Report.{
  TpsReportService, new_tps, increment, tps_load, tps_store, load_score, send_load_balance_info,
  TpsReach, start, sent, load, store,
}
use push_system.Producer.Report.Signs.{send_load_balance_info-OfProducers}
use push_system.Examples.Numbers.{nat_double}

-- Every connection is refused.
abbrev gone : Hiredis (Unit {0})
gone = record {
  redis_connect = λ n. (n, some true);
  redis_free = λ n. n;
  redis_command = λ c n. (n, none);
  free_reply_object = λ r n. n;
}

command-null_context_example :
    command gone (bitcount (codes "K")) (record { context = true; reply = none; net = tt }) ≡ none
command-null_context_example =
    command-null_context gone (bitcount (codes "K"))
      (record { context = true; reply = none; net = tt }) (λ x e. cc) (λ x. refl) refl

abbrev counted : TpsReportService ℕ
counted = record { tps_count = 0; total_count = 1; avg_speed = 10000; loaded = none }

counted-TpsReach : TpsReach 1 counted
unfolding new_tps increment tps_load tps_store
counted-TpsReach = store {count = 1} (load (sent start) refl) refl

abbrev connected : Client
connected = record (new_client (codes "50053") (codes "producer") 601) {
  server_id = some 7;
  client_status = registered;
}

send_load_balance_info-OfProducers_example :
    OfProducers ℕ (report 7 5 (load_score 10000 0 ∷ [])) × (1 ≤ 1)
unfolding send_load_balance_info get_server_id new_client
send_load_balance_info-OfProducers_example =
    send_load_balance_info-OfProducers (some connected) 0 7 5 (some 7, load_score 10000 0 ∷ [])
      counted-TpsReach (omega arith) refl

-- A MySQL server that is gone.
abbrev absent : MysqlApi ℕ (Unit {0})
absent = record {
  mysql_init = λ n. (n, true);
  mysql_real_connect = λ n. (n, false);
  mysql_close = λ n. n;
  mysql_query = λ q n. (n, true);
  mysql_use_result = λ n. (n, none);
  mysql_free_result = λ n. n;
}

command-needs_connection_example :
    Mysql.command absent 5 (record { connection = true; result = none; net = tt }) ≡ none
command-needs_connection_example =
    command-needs_connection absent 5 (record { connection = true; result = none; net = tt })
      (λ x. refl) (λ x. refl)
