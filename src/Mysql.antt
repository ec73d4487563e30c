-- ===== src/Mysql.antt =====
-- common/dataHandler/mysqlHandler.cpp: a connection to MySQL that is made again when a query fails.
pub mod Retries
use push_system.Common.{ℕ, zero, suc, List, Option, none, some, Bool, true, false, if◌then◌else◌}

-- The functions of the MySQL client, over a state of the network and of the server; `Q` are the
-- texts of queries.
pub record MysqlApi (Q N : Type 0) : Type 0 where
  -- Whether the result is not NULL.
  pub mysql_init : N → N × Bool
  pub mysql_real_connect : N → N × Bool
  pub mysql_close : N → N
  -- Needs a connection; true is an error.
  pub mysql_query : Q → N → N × Bool
  -- The rows, or NULL.
  pub mysql_use_result : N → N × Option (List ℕ)
  pub mysql_free_result : N → N

pub record MysqlHandler (N : Type 0) : Type 0 where
  -- Whether `connection` is not NULL.
  pub connection : Bool
  pub result : Option (List ℕ)
  pub net : N

module _ {Q N : Type 0} (api : MysqlApi Q N) where
  open api use {
    mysql_init, mysql_real_connect, mysql_close, mysql_query, mysql_use_result, mysql_free_result,
  }

  unfoldable pub connect : MysqlHandler N → MysqlHandler N × Bool
  connect h = elim h.connection [
    | true ↦ (h, true)
    | false ↦
        let (net, made) = mysql_init h.net in
        elim made [
          | false ↦ (record h { net = net }, false)
          | true ↦
              let (net, connected) = mysql_real_connect net in
              (record h { connection = connected; net = net }, connected)
        ]
  ]

  unfoldable pub free_connection : MysqlHandler N → MysqlHandler N
  free_connection h = elim h.connection [
    | false ↦ h
    | true ↦ record h { connection = false; net = mysql_close h.net }
  ]

  unfoldable pub free_result : MysqlHandler N → MysqlHandler N
  free_result h = elim h.result [
    | none ↦ h
    | some _ ↦ record h { result = none; net = mysql_free_result h.net }
  ]

  -- The loop of `command`, with the attempts that are left, and what it returns; `res` is `result`.
  -- none where NULL is used as a connection.
  unfoldable pub command_loop : ℕ → Q → MysqlHandler N → Option (MysqlHandler N × Bool)
  unfolding connect free_connection
  command_loop zero query h = some (h, false)
  command_loop (suc left) query h = elim h.connection [
    | false ↦ none
    | true ↦
        let (net, failed) = mysql_query query h.net in
        elim failed [
          | true ↦ command_loop left query (connect (free_connection (record h { net = net }))).0
          | false ↦
              let (net, rows) = mysql_use_result net in
              some (record h { result = rows; net = net }, true)
        ]
  ]

  unfoldable pub command : Q → MysqlHandler N → Option (MysqlHandler N × Bool)
  unfolding command_loop
  command query h = command_loop 3 query h
