-- ===== src/Daemon/Replies/ReusedId.antt =====
-- A producer that registers after another one was dropped may get the other's id, and is then
-- charged for the other's calls.
use push_system.Common.{
  ℕ, ◌+◌, ◌-◌, ◌<◌, ◌^◌, ◌≡◌, List, [], ◌∷◌, ◌++◌, some, Bool, true, false, arith, Text, text_eq,
  sym, ◌∙◌,
}
use push_system.Common.Word.{dec32}
use push_system.Double.{Double}
use push_system.Shared.{ErrCode, success, err}
use push_system.StdMap.{StdMap, find, touch, erase, last_key, find-touch, find-assign, find-adjust}
use push_system.Daemon.State.{State, ServerInfo, ProducerState, Call, no_producer}
use push_system.Daemon.Balance.{rebalance, rebalance_loop}
use push_system.Daemon.Registry.{
  parse_and_get_ip, Arrival, ClientRegisterRequest, producer_proc, client_register, next_server_id,
  new_producer, admit_producer,
}
use push_system.Daemon.Alive.{is_expired, sweep, drop_server, check_proc_alive}
use push_system.Daemon.Replies.{decrease_producer_task, on_get_response}

module _ {D : Type 0} ⦃dbl : Double D⦄ where
  rebalance_loop-find :
      (m : StdMap (ServerInfo D)) (rank : D) (ranks : List (D × ℕ))
      (producers : StdMap ProducerState) (j : ℕ) (p : ProducerState)
      → find j producers ≡ some p
      → find j (rebalance_loop m rank ranks producers).1 ≡ some p
  unfolding rebalance_loop
  rebalance_loop-find [] rank ranks producers j p e = e
  rebalance_loop-find ((id, info) ∷ rest) rank ranks producers j p e =
      rebalance_loop-find rest _ _ (touch id no_producer producers) j p
        (ground (arith, find-touch j id no_producer producers))

  -- A producer that registers has its stub and no task.
  pub client_register-producer :
      (split : (ℕ → Bool) → Text → List Text) (from : Arrival) (request : ClientRegisterRequest)
      (s : State D)
      → text_eq producer_proc request.proc_name ≡ true
      → let r = client_register split from request s in
        find r.2 r.0.producer_states
        ≡ some (new_producer (parse_and_get_ip split from.peer ++ b':' ∷ request.listening_port))
  unfolding client_register admit_producer rebalance
  client_register-producer split from request s name = rw name (
      rebalance_loop-find _ _ [] _ (next_server_id from.random s.svr_info) _ (
        ground (
          arith,
          find-assign (next_server_id from.random s.svr_info)
              (next_server_id from.random s.svr_info)
              (new_producer (parse_and_get_ip split from.peer ++ b':' ∷ request.listening_port))
              s.producer_states,
        )))

  dropped_last :
      (now a : ℕ) (alive gone : ServerInfo D) (s : State D)
      → s.svr_info ≡ (a, alive) ∷ (a + 1, gone) ∷ []
      → is_expired now alive ≡ false
      → is_expired now gone ≡ true
      → (check_proc_alive now s).svr_info ≡ (a, alive) ∷ []
  unfolding check_proc_alive sweep drop_server rebalance erase
  dropped_last now a alive gone s e up down = rw e (ground arith)

  decrease-find :
      (id : ℕ) (s : State D) (p : ProducerState)
      → find id s.producer_states ≡ some p
      → find id (decrease_producer_task id s).producer_states
        ≡ some (record p { cur_task_count = dec32 p.cur_task_count })
  unfolding decrease_producer_task
  decrease-find id s p e = ground (
    arith,
    find-adjust id id (λ (q : ProducerState). record q { cur_task_count = dec32 p.cur_task_count })
        s.producer_states,
  )

  answered_count :
      (code : ErrCode) (call : Call) (s : State D) (p : ProducerState)
      → find call.svr_id s.producer_states ≡ some p
      → find call.svr_id (on_get_response code call s).0.producer_states
        ≡ some (record p { cur_task_count = dec32 p.cur_task_count })
  unfolding on_get_response
  answered_count success call s p e = decrease-find call.svr_id s p e
  answered_count err call s p e = decrease-find call.svr_id s p e

  registered_id :
      (split : (ℕ → Bool) → Text → List Text) (from : Arrival) (request : ClientRegisterRequest)
      (a : ℕ) (info : ServerInfo D) (s : State D)
      → s.svr_info ≡ (a, info) ∷ []
      → a + 1 < 2 ^ 64
      → (client_register split from request s).2 ≡ a + 1
  unfolding client_register next_server_id last_key
  registered_id split from request a info s e room = rw e (omega arith)

  -- Where two servers are registered, with neighbouring ids below 2⁶⁴, and only the later one has
  -- stopped its heart beats, a producer that registers after the check gets the id of the one that
  -- was dropped, and the answer to a call that the dropped one had takes the task count of the new
  -- one, which has no task, from 0 to 2³² - 1.
  pub client_register-reused_id :
      (split : (ℕ → Bool) → Text → List Text) (from : Arrival) (request : ClientRegisterRequest)
      (now a : ℕ) (alive gone : ServerInfo D) (s : State D) (code : ErrCode) (call : Call)
      → s.svr_info ≡ (a, alive) ∷ (a + 1, gone) ∷ []
      → a + 1 < 2 ^ 64
      → is_expired now alive ≡ false
      → is_expired now gone ≡ true
      → text_eq producer_proc request.proc_name ≡ true
      → call.svr_id ≡ a + 1
      → let r = client_register split from request (check_proc_alive now s) in
        (r.2 ≡ call.svr_id)
        × (find call.svr_id (on_get_response code call r.0).0.producer_states
            ≡ some
                (record (new_producer
                  (parse_and_get_ip split from.peer ++ b':' ∷ request.listening_port)) {
                    cur_task_count = 2 ^ 32 - 1;
                  }))
  unfolding new_producer
  client_register-reused_id split from request now a alive gone s code call e room up down name id =
      let checked = check_proc_alive now s in
      let left = dropped_last now a alive gone s e up down in
      let same = registered_id split from request a alive checked left room ∙ sym id in
      (
        same,
        answered_count code call (client_register split from request checked).0
            (new_producer (parse_and_get_ip split from.peer ++ b':' ∷ request.listening_port))
            (rw (← same) (client_register-producer split from request checked name)),
      )
