-- ===== src/Examples/Rpc.antt =====
-- A request to the producer: its object comes back, makes a successor and serves.
use push_system.Common.{ℕ, ◌+◌, ◌≡◌, refl, [], ◌∷◌, none, some, true, count, total, length, here}
use push_system.Shared.{process}
use push_system.StdMap.{find, assign, adjust}
use push_system.Rpc.{
  Server, Handler, produce_msg_call, no_calls, set_status, request_call, new_call_data, proceed,
  finish_call, start_handlers, producer_handlers, RpcReach, RpcStep, arrive, run, start, next,
}
use push_system.Rpc.Alive.{in_serving}
use push_system.Rpc.Listeners.{listens, RpcReach-listeners}
use push_system.Rpc.Safety.{RpcReach-proceed, RpcReach-finish_call}
use push_system.Common.Leads.{LeadsTo}
use push_system.Rpc.Unlock.{RpcReach-unlock_deleted}

abbrev came : Server
came = record no_calls {
  objects = (0, record { handler = produce_msg_call; status = process }) ∷ [];
  next_address = 1;
  threads = 0 ∷ [];
}

abbrev serves : Server
serves = record no_calls {
  objects =
      (0, record { handler = produce_msg_call; status = process })
      ∷ (1, record { handler = produce_msg_call; status = process })
      ∷ [];
  next_address = 2;
  waiting = 1 ∷ [];
  serving = (0, produce_msg_call) ∷ [];
}

came-RpcReach : RpcReach true producer_handlers came
unfolding start_handlers new_call_data request_call set_status assign adjust
came-RpcReach = next start (arrive here)

serves-RpcReach : RpcReach true producer_handlers serves
unfolding proceed new_call_data request_call set_status find assign adjust
serves-RpcReach = next came-RpcReach (run here refl)

RpcReach-proceed_example :
    (t : Server) × (proceed 0 (record came { threads = [] }) ≡ some t)
    × (count 0 [] + count 0 came.waiting + count 0 came.finishing + in_serving 0 came.serving ≡ 0)
RpcReach-proceed_example = RpcReach-proceed came-RpcReach 0 [] here

RpcReach-finish_call_example :
    (t : Server) × (finish_call 0 (record serves { serving = []; unlocking = [] }) ≡ some t)
    × (in_serving 0 [] + count 0 serves.waiting + count 0 serves.finishing + count 0 serves.threads
        ≡ 0)
RpcReach-finish_call_example = RpcReach-finish_call serves-RpcReach 0 produce_msg_call [] [] here

abbrev one_each : Handler → ℕ
one_each handler = 1

RpcReach-listeners_example :
    (total (listens one_each serves.serving) serves.objects ≡ total one_each producer_handlers)
    × (length serves.objects
        ≡ length serves.waiting
          + length serves.finishing
          + (length serves.threads + length serves.serving))
RpcReach-listeners_example = RpcReach-listeners serves-RpcReach one_each

RpcReach-unlock_deleted_example :
    (answered deleted : Server) × RpcStep true serves answered
    × (answered.serving ≡ [])
    × (answered.finishing ≡ 0 ∷ serves.finishing)
    × (answered.unlocking ≡ 0 ∷ serves.unlocking)
    × LeadsTo (RpcStep true) deleted answered
    × (deleted.unlocking ≡ answered.unlocking)
    × (find 0 deleted.objects ≡ none)
RpcReach-unlock_deleted_example = RpcReach-unlock_deleted serves-RpcReach 0 [] here
