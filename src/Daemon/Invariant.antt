-- ===== src/Daemon/Invariant.antt =====
-- The well-formedness of the daemon's state while every registered server is a producer, and what
-- keeps it: the parts that more than one handler shares.
pub mod Handlers
pub mod Servers
pub mod Sending
pub mod Shrinks
use push_system.Common.{ℕ, ◌≡◌, [], ◌∷◌, some, true, arith, All, IsSome, text_eq}
use push_system.Double.{Double}
use push_system.StdMap.{StdMap, find, has, IsSorted, Each, All-of_find}
use push_system.Daemon.State.{State, ServerInfo, ProducerState}
use push_system.Daemon.Registry.{producer_proc}
use push_system.Daemon.Balance.{rebalance, rebalance_loop}
use push_system.Daemon.Balance.Ranks.{
  rebalance_loop-states, rebalance_loop-All, rebalance_loop-NonNeg, rebalance_loop-cons-IsFilled,
  NonNeg, IsFilled,
}

abbrev pub HasStub : ProducerState → Type 0
HasStub p = IsSome p.producer_caller.stub

abbrev pub IsProducer : {D : Type 0} → ServerInfo D → Type 0
IsProducer i = text_eq producer_proc i.proc_name ≡ true

module _ {D : Type 0} ⦃dbl : Double D⦄ where
  open dbl use {le, of_nat}

  -- What holds of a state between two critical sections, the rank map left out.
  pub record Inv (s : State D) : Type 0 where
    pub info_sorted : IsSorted s.svr_info
    pub states_sorted : IsSorted s.producer_states
    pub producers : Each IsProducer s.svr_info
    pub scores : Each (λ i. le (of_nat 0) i.score ≡ true) s.svr_info
    pub stubs : Each HasStub s.producer_states
    pub same_keys : (j : ℕ) → has j s.producer_states ≡ has j s.svr_info
    pub idle_known : (j : ℕ) → has j s.idle_producers ≡ true → has j s.producer_states ≡ true

  -- The rank map fits the servers.
  pub record RankInv (s : State D) : Type 0 where
    pub ranked : All (λ e. has e.1 s.svr_info ≡ true) s.rank_to_svr
    pub non_neg : NonNeg s.rank_to_svr
    pub filled : (j : ℕ) → has j s.svr_info ≡ true → IsFilled s.rank_to_svr

  pub rebalance_states : (s : State D) → Inv s → (rebalance s).producer_states ≡ s.producer_states
  unfolding rebalance
  rebalance_states s v = rebalance_loop-states s.svr_info (of_nat 0) [] s.producer_states (
      All-of_find (λ e. has e.0 s.producer_states ≡ true) s.svr_info v.info_sorted
        (λ j i e. ground (arith, v.same_keys j)))

  pub rebalance-Inv : (s : State D) → Inv s → Inv (rebalance s)
  rebalance-Inv s v = record {
    info_sorted = unfold rebalance in v.info_sorted;
    states_sorted = rw (rebalance_states s v) v.states_sorted;
    producers = unfold rebalance in v.producers;
    scores = unfold rebalance in v.scores;
    stubs = rw (rebalance_states s v) v.stubs;
    same_keys = rw (rebalance_states s v) (unfold rebalance in v.same_keys);
    idle_known = rw (rebalance_states s v) (unfold rebalance in v.idle_known);
  }

  IsFilled-of_has :
      (m : StdMap (ServerInfo D)) (producers : StdMap ProducerState) (j : ℕ)
      → has j m ≡ true
      → IsFilled (rebalance_loop m (of_nat 0) [] producers).0
  unfolding find
  IsFilled-of_has [] producers j h = absurd (ground arith)
  IsFilled-of_has (e ∷ m) producers j h = rebalance_loop-cons-IsFilled e m (of_nat 0) producers

  -- `Rebalance` makes the rank map fit, whatever it was.
  pub rebalance-RankInv : (s : State D) → Inv s → RankInv (rebalance s)
  unfolding rebalance
  rebalance-RankInv s v = record {
    ranked =
        rebalance_loop-All (λ j. has j s.svr_info ≡ true) s.svr_info _ [] s.producer_states
          (All-of_find (λ e. has e.0 s.svr_info ≡ true) s.svr_info v.info_sorted
            (λ j i e. ground arith))
          tt;
    non_neg =
        rebalance_loop-NonNeg s.svr_info (of_nat 0) [] s.producer_states
          (All-of_find (λ e. le (of_nat 0) e.1.score ≡ true) s.svr_info v.info_sorted v.scores)
          (ground (arith, dbl.le_total (of_nat 0) (of_nat 0))) tt;
    filled = IsFilled-of_has s.svr_info s.producer_states;
  }

  -- The invariant as the handlers keep it.
  pub record WellFormed (s : State D) : Type 0 where
    pub inv : Inv s
    pub ranks : RankInv s

  pub rebalance-WellFormed : (s : State D) → Inv s → WellFormed (rebalance s)
  rebalance-WellFormed s v = record { inv = rebalance-Inv s v; ranks = rebalance-RankInv s v }
