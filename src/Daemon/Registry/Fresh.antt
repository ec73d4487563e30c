-- ===== src/Daemon/Registry/Fresh.antt =====
-- ClientRegister: which id a server gets, and what the registry holds then.
use push_system.Common.{
  ℕ, ◌+◌, ◌<◌, ◌≡◌, refl, List, ◌∷◌, ◌++◌, none, some, Bool, true, false, ◌==◌, if◌then◌else◌,
  arith, inl, inr, Option-cases, Text, text_eq, ◌^◌,
}
use push_system.Common.Word.{u64}
use push_system.Double.{Double}
use push_system.Shared.{cal_load_balance_score}
use push_system.StdMap.{
  StdMap, find, insert, last_key, IsSorted, find-fresh, find-insert, find-adjust, last_key-none,
}
use push_system.Daemon.State.{State, ServerInfo}
use push_system.Daemon.Balance.{rebalance}
use push_system.Daemon.Registry.{
  parse_and_get_ip, Arrival, ClientRegisterRequest, producer_proc, next_server_id, admit_producer,
  client_register,
}

next_server_id-fresh :
    {D : Type 0} (random : ℕ) (m : StdMap (ServerInfo D))
    → IsSorted m
    → ((k : ℕ) → last_key m ≡ some k → k + 1 < 2 ^ 64)
    → find (next_server_id random m) m ≡ none
unfolding next_server_id
next_server_id-fresh random m s room = elim (Option-cases (last_key m)) [
  | inl e ↦ rw (last_key-none m e) (unfold find in refl)
  | inr (k, e) ↦ rw (e, next_server_id) (find-fresh (u64 (k + 1)) k m s e (omega (arith, room k e)))
]

module _ {D : Type 0} ⦃dbl : Double D⦄ where
  -- The entry that a registration makes; a producer starts with the score of an average time of 0.
  abbrev pub new_entry :
      ((ℕ → Bool) → Text → List Text) → Arrival → ClientRegisterRequest → ServerInfo D
  new_entry split from request = record {
    address = parse_and_get_ip split from.peer ++ b':' ∷ request.listening_port;
    proc_name = request.proc_name;
    group_id = request.group_id;
    timestamp = from.now;
    score =
        if text_eq producer_proc request.proc_name
        then cal_load_balance_score (dbl.of_nat 0)
        else dbl.of_nat 0;
  }

  -- In a registry whose keys are in order and below 2⁶⁴ - 1, a registration gets an id that no
  -- server has, makes the entry of the request under it, with the score of an idle producer or 0,
  -- and leaves every other entry.
  pub client_register-fresh :
      (split : (ℕ → Bool) → Text → List Text) (from : Arrival) (request : ClientRegisterRequest)
      (s : State D)
      → IsSorted s.svr_info
      → ((k : ℕ) → last_key s.svr_info ≡ some k → k + 1 < 2 ^ 64)
      → let r = client_register split from request s in
        (find r.2 s.svr_info ≡ none)
        × ((j : ℕ)
            → find j r.0.svr_info
              ≡ (if r.2 == j then some (new_entry split from request) else find j s.svr_info))
  unfolding client_register admit_producer rebalance
  client_register-fresh split from request s sorted room =
      let id = next_server_id from.random s.svr_info in
      let new = next_server_id-fresh from.random s.svr_info sorted room in
      (new, by_name (text_eq producer_proc request.proc_name) id new)
    where
      info : ServerInfo D
      info = record {
        address = parse_and_get_ip split from.peer ++ b':' ∷ request.listening_port;
        proc_name = request.proc_name;
        group_id = request.group_id;
        timestamp = from.now;
        score = dbl.of_nat 0;
      }

      by_name :
          (b : Bool) (id : ℕ)
          → find id s.svr_info ≡ none
          → (j : ℕ)
          → find j
              (if b
                then admit_producer id info.address
                    (record s { svr_info = insert id info s.svr_info })
                else record s { svr_info = insert id info s.svr_info }).svr_info
            ≡ (if id == j
                then some (record info {
                  score = if b then cal_load_balance_score (dbl.of_nat 0) else dbl.of_nat 0;
                })
                else find j s.svr_info)
      by_name true id new j = ground (
        arith,
        find-insert j id info s.svr_info new,
        find-adjust j id
            (λ (i : ServerInfo D). record i { score = cal_load_balance_score (dbl.of_nat 0) })
            (insert id info s.svr_info),
      )
      by_name false id new j = find-insert j id info s.svr_info new
