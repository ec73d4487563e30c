-- ===== src/Mysql/Retries.antt =====
-- What `command` needs of the connection.
use push_system.Common.{
  ℕ, zero, suc, ◌≡◌, refl, none, some, Bool, true, false, arith, Bool-cases, inl, inr, ◌∙◌,
}
use push_system.Mysql.{MysqlApi, MysqlHandler, connect, free_connection, command_loop, command}

module _ {Q N : Type 0} (api : MysqlApi Q N) where
  open api use {mysql_init, mysql_real_connect, mysql_query, mysql_use_result}

  command_loop-defined :
      (left : ℕ) (query : Q) (h : MysqlHandler N)
      → ((x : N) → (mysql_init x).1 ≡ true)
      → ((x : N) → (mysql_real_connect x).1 ≡ true)
      → h.connection ≡ true
      → (r : MysqlHandler N × Bool) × (command_loop api left query h ≡ some r)
        × (r.0.connection ≡ true)
  unfolding command_loop connect free_connection
  command_loop-defined zero query h i up c = ((h, false), refl, c)
  command_loop-defined (suc left) query h i up c =
      let sent = mysql_query query h.net in
      let tried : MysqlHandler N = record h { net = sent.0 } in
      elim (Bool-cases sent.1) [
        | inl e ↦
            let closed = free_connection api tried in
            let again = connect api closed in
            let linked : again.0.connection ≡ true =
              ground (arith, i closed.net, up (mysql_init closed.net).0) in
            let rest = command_loop-defined left query again.0 i up linked in
            let step : command_loop api (suc left) query h ≡ command_loop api left query again.0 =
              ground arith in
            (rest.0, step ∙ rest.1, rest.2)
        | inr e ↦
            let used = mysql_use_result sent.0 in
            ((record h { result = used.1; net = used.0 }, true), ground arith, c)
      ]

  -- If each connection attempt succeeds, MysqlHandler::command on a connected handler returns
  -- without using a NULL connection, and leaves the handler connected.
  command-connected :
      (query : Q) (h : MysqlHandler N)
      → ((x : N) → (mysql_init x).1 ≡ true)
      → ((x : N) → (mysql_real_connect x).1 ≡ true)
      → h.connection ≡ true
      → (r : MysqlHandler N × Bool) × (command api query h ≡ some r) × (r.0.connection ≡ true)
  unfolding command
  command-connected query h i up c = command_loop-defined 3 query h i up c

  -- If the query fails and no connection attempt succeeds, MysqlHandler::command uses a NULL
  -- connection, whether the handler was connected or not.
  pub command-needs_connection :
      (query : Q) (h : MysqlHandler N)
      → ((x : N) → (mysql_query query x).1 ≡ true)
      → ((x : N) → (mysql_real_connect x).1 ≡ false)
      → command api query h ≡ none
  unfolding command command_loop connect free_connection
  command-needs_connection query h bad down = elim (Bool-cases h.connection) [
    | inl linked ↦
        let sent = mysql_query query h.net in
        let tried : MysqlHandler N = record h { net = sent.0 } in
        let closed = free_connection api tried in
        let again = connect api closed in
        let lost : again.0.connection ≡ false = ground (arith, down (mysql_init closed.net).0) in
        let step : command_loop api 3 query h ≡ command_loop api 2 query again.0 =
          ground (arith, bad h.net) in
        let fault : command_loop api 2 query again.0 ≡ none = ground arith in step ∙ fault
    | inr bare ↦ ground arith
  ]
