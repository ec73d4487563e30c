-- ===== src/Daemon/State.antt =====
-- The global state of daemonServer.h, which `gSvrInfoMutex` guards. Each critical section of the
-- source is one function on this state.
use push_system.Common.{ℕ, List, [], Option, none, Text}
use push_system.StdMap.{StdMap}

-- `ProduceMsgRequest` of producer.proto; the words are uint32, uint64 and uint64.
pub record ProduceMsgRequest : Type 0 where
  pub msg_id : ℕ
  pub start_uid : ℕ
  pub end_uid : ℕ

-- The stub of the channel to an address, or null. The queue is always `gCQ`.
pub record ProducerCaller : Type 0 where
  pub stub : Option Text

-- The copies of a `ProducerCaller` move its stub: the new value of the target and of the source.
unfoldable pub move_caller : ProducerCaller → ProducerCaller × ProducerCaller
move_caller other = (other, record { stub = none })

pub record ServerInfo (D : Type 0) : Type 0 where
  pub address : Text
  pub proc_name : Text
  pub group_id : ℕ
  pub timestamp : ℕ
  pub score : D

pub record ProducerState : Type 0 where
  pub producer_caller : ProducerCaller
  pub cur_task_count : ℕ
  pub fail_count : ℕ

-- `ProducerState()`
abbrev pub no_producer : ProducerState
no_producer = record {
  producer_caller = record { stub = none };
  cur_task_count = 0;
  fail_count = 0;
}

-- A `ProduceMsgAsyncCall` that waits for its answer on `gCQ`.
pub record Call : Type 0 where
  pub svr_id : ℕ
  pub request : ProduceMsgRequest

pub record State (D : Type 0) : Type 0 where
  pub svr_info : StdMap (ServerInfo D)
  pub rank_to_svr : List (D × ℕ)
  pub producer_states : StdMap ProducerState
  pub idle_producers : StdMap (Unit {0})
  pub sending_count : ℕ
  pub calls : List Call

-- The globals at the start of the process.
unfoldable pub start_state : {D : Type 0} → State D
start_state = record {
  svr_info = [];
  rank_to_svr = [];
  producer_states = [];
  idle_producers = [];
  sending_count = 0;
  calls = [];
}
