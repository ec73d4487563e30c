-- ===== src/Daemon/Registry.antt =====
-- The handlers that keep `gSvrId2SvrInfo`: ClientRegister, HeartBeat and LoadBalance.
pub mod Fresh
pub mod Entries
pub mod Address
use push_system.Common.{
  ℕ, ◌+◌, List, [], ◌∷◌, ◌++◌, none, some, Bool, ◌==◌, if◌then◌else◌, Text, codes, text_eq,
}
use push_system.Common.Word.{u64}
use push_system.Shared.{ErrCode, success, err, cal_load_balance_score}
use push_system.Double.{Double}
use push_system.StdMap.{StdMap, find, assign, insert, adjust, last_key}
use push_system.Daemon.State.{State, ServerInfo, ProducerState, no_producer, move_caller}
use push_system.Daemon.Balance.{rebalance}

abbrev pub colon : ℕ → Bool
colon c = c == b':'

second_of_three : List Text → Text
second_of_three (a ∷ (x ∷ b) ∷ c ∷ []) = x ∷ b
second_of_three _ = []

-- `parseAndGetIp`; `split` is `boost::split`.
unfoldable pub parse_and_get_ip : ((ℕ → Bool) → Text → List Text) → Text → Text
unfolding second_of_three
parse_and_get_ip split peer = second_of_three (split colon peer)

pub record ClientRegisterRequest : Type 0 where
  pub listening_port : Text
  pub proc_name : Text
  pub group_id : ℕ

-- What a registration takes from outside: `ctx_.peer()`, `time(NULL)` and `dist(rng)`.
pub record Arrival : Type 0 where
  pub peer : Text
  pub now : ℕ
  pub random : ℕ

abbrev pub producer_proc : Text
producer_proc = codes "producer"

-- `ProducerState(ProducerCaller(channel), 0)` assigned to the entry: two moves of one stub.
unfoldable pub new_producer : Text → ProducerState
unfolding move_caller
new_producer address =
    let made = (move_caller (record { stub = some address })).0 in
    record no_producer { producer_caller = (move_caller made).0 }

module _ {D : Type 0} where
  unfoldable pub next_server_id : ℕ → StdMap (ServerInfo D) → ℕ
  next_server_id random m = elim (last_key m) [ none ↦ random | some k ↦ u64 (k + 1) ]

module _ {D : Type 0} ⦃dbl : Double D⦄ where
  unfoldable pub admit_producer : ℕ → Text → State D → State D
  admit_producer id address s = rebalance (record s {
    svr_info =
        adjust id (λ i. record i { score = cal_load_balance_score (dbl.of_nat 0) }) s.svr_info;
    producer_states = assign id (new_producer address) s.producer_states;
    idle_producers = insert id tt s.idle_producers;
  })

  -- ClientRegister: the new state and the id of the reply, whose `err` is SUCCESS.
  unfoldable pub client_register :
      ((ℕ → Bool) → Text → List Text)
      → Arrival
      → ClientRegisterRequest
      → State D
      → State D × ErrCode × ℕ
  client_register split from request s =
      let id = next_server_id from.random s.svr_info in
      let address = parse_and_get_ip split from.peer ++ b':' ∷ request.listening_port in
      let info : ServerInfo D = record {
        address = address;
        proc_name = request.proc_name;
        group_id = request.group_id;
        timestamp = from.now;
        score = dbl.of_nat 0;
      } in
      let entered = record s { svr_info = insert id info s.svr_info } in
      (
        if text_eq producer_proc request.proc_name
            then admit_producer id address entered
            else entered,
        success,
        id,
      )

  -- What the local variable `score` holds, which is not initialised.
  abbrev pub read_score : (use_of_unset : ℕ) → Text → D
  read_score n text = elim (dbl.parse text) [ none ↦ dbl.unset n | some score ↦ score ]

  -- LoadBalance: the score comes as text.
  unfoldable pub load_balance : (id use_of_unset : ℕ) → Text → State D → State D × ErrCode
  load_balance id n text s = elim (find id s.svr_info) [
    | none ↦ (s, err)
    | some _ ↦ (
      record s { svr_info = adjust id (λ i. record i { score = read_score n text }) s.svr_info },
      success,
    )
  ]

module _ {D : Type 0} where
  -- HeartBeat
  unfoldable pub heart_beat : ℕ → ℕ → State D → State D × ErrCode
  heart_beat now id s = elim (find id s.svr_info) [
    | none ↦ (s, err)
    | some _ ↦
        (record s { svr_info = adjust id (λ i. record i { timestamp = now }) s.svr_info }, success)
  ]
