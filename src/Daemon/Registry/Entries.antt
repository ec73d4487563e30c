-- ===== src/Daemon/Registry/Entries.antt =====
-- HeartBeat writes one field of one entry, and reports an unknown id.
use push_system.Common.{
  ℕ, ◌≡◌, refl, none, some, ◌==◌, if◌then◌else◌, arith, ◌↔◌, inl, inr, Option-cases, ==_iff,
}
use push_system.Shared.{err}
use push_system.StdMap.{find, find-adjust}
use push_system.Daemon.State.{State, ServerInfo}
use push_system.Daemon.Registry.{heart_beat}

module _ {D : Type 0} where
  -- A heart beat answers ERR exactly for an id that is not registered; it sets the time stamp of
  -- the entry of its id, and changes no other entry and nothing else of the state.
  pub heart_beat_lem :
      (now id : ℕ) (s : State D)
      → let r = heart_beat now id s in
        ((r.1 ≡ err) ↔ (find id s.svr_info ≡ none))
        × ((j : ℕ)
            → find j r.0.svr_info ≡ elim (find j s.svr_info) [
              | none ↦ none
              | some i ↦ some (if id == j then record i { timestamp = now } else i)
            ])
        × (r.0 ≡ record s { svr_info = r.0.svr_info })
  unfolding heart_beat
  heart_beat_lem now id s = elim (Option-cases (find id s.svr_info)) [
    | inl e ↦ rw (e, heart_beat) ((λ _. refl, λ _. refl), λ j. ground (arith, ==_iff id j), refl)
    | inr (i, e) ↦
        rw (e, heart_beat)
          (
            (λ q. ground arith, λ q. ground arith),
            λ j. ground (
              arith,
              find-adjust j id (λ (i : ServerInfo D). record i { timestamp = now }) s.svr_info,
            ),
            refl,
          )
  ]
