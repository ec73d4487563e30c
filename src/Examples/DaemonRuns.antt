-- ===== src/Examples/DaemonRuns.antt =====
-- A run of the daemon: a producer registers, a push of the uids 0 to 5000 begins, and its first
-- chunk goes out.
use push_system.Common.{ℕ, ◌≡◌, refl, [], ◌∷◌, some, codes, here, arith}
use push_system.StdMap.{find, assign, insert, adjust, touch, last_key}
use push_system.Daemon.State.{State, ServerInfo, ProduceMsgRequest, start_state}
use push_system.Daemon.Registry.{
  Arrival, ClientRegisterRequest, client_register, admit_producer, next_server_id, new_producer,
}
use push_system.Daemon.Balance.{rebalance, rebalance_loop, rank_assign}
use push_system.Daemon.Dispatch.{chunk, dispatch, send_chunk, select_turn}
use push_system.Daemon.Invariant.Sending.{sent_state}
use push_system.System.{
  Section, register, World, start_world, start_sender, begin_push, serve, section, begin, turn,
  Reach, start, next,
}
use push_system.System.Safety.{OfProducers}
use push_system.Examples.Numbers.{nat_double}
use push_system.Examples.Split.{split_at}

abbrev pub arrival : Arrival
arrival = record { peer = codes "ipv4:1.2.3.4:5000"; now = 100; random = 7 }

abbrev pub producer_request : ClientRegisterRequest
producer_request = record {
  listening_port = codes "50053";
  proc_name = codes "producer";
  group_id = 601;
}

abbrev pub push : ProduceMsgRequest
push = record { msg_id = 1; start_uid = 0; end_uid = 5000 }

abbrev registration : Section
registration = register split_at arrival producer_request

abbrev pub one_producer : World ℕ
one_producer = record start_world { state = serve registration start_world.state }

abbrev pub pushing : World ℕ
pushing = begin_push push one_producer

abbrev pub first_sent : State ℕ
first_sent = sent_state 7 (chunk push 0) (record pushing.state { idle_producers = [] })

abbrev pub sending : World ℕ
sending = record pushing {
  state = first_sent;
  senders = record (start_sender push) { cur_uid = 4096 } ∷ [];
}

pub first_turn : select_turn 0 push 0 pushing.state ≡ some (first_sent, 4096)
unfolding select_turn dispatch send_chunk begin_push start_world start_state serve client_register
    admit_producer next_server_id new_producer rebalance rebalance_loop rank_assign find assign
    insert adjust touch last_key chunk
first_turn = refl

unfoldable pub sending-Reach : Reach (OfProducers ℕ) sending
unfolding begin_push start_world start_sender
sending-Reach =
    next (next (next start (section registration refl)) (begin push))
      (turn 0 here refl (omega arith) first_turn)

abbrev pub server : ℕ → ServerInfo ℕ
server timestamp = record {
  address = codes "1.2.3.4:50053";
  proc_name = codes "producer";
  group_id = 601;
  timestamp = timestamp;
  score = 10;
}

abbrev pub two_servers : State ℕ
two_servers = record start_state { svr_info = (7, server 100) ∷ (8, server 85) ∷ [] }
