-- ===== src/StdMap/Defs.antt =====
-- The operations of the maps.
use push_system.Common.{
  ℕ, Bool, List, [], ◌∷◌, Option, none, some, true, false, ltb, ◌==◌, if◌then◌else◌, ◌<◌,
}

abbrev pub StdMap {ℓ} : Type ℓ → Type ℓ
StdMap V = List (ℕ × V)

module _ {ℓ} {V : Type ℓ} where
  -- `find`; the iterator `end()` is `none`.
  unfoldable pub find : ℕ → StdMap V → Option V
  find k [] = none
  find k ((j, v) ∷ m) = if j == k then some v else find k m

  -- `m[k] = v`
  unfoldable pub assign : ℕ → V → StdMap V → StdMap V
  assign k v [] = (k, v) ∷ []
  assign k v ((j, w) ∷ m) =
      if j == k then (k, v) ∷ m else if ltb k j then (k, v) ∷ (j, w) ∷ m else (j, w) ∷ assign k v m

  -- `m.insert(make_pair(k, v))` leaves an entry of the same key alone.
  unfoldable pub insert : ℕ → V → StdMap V → StdMap V
  insert k v m = elim (find k m) [ none ↦ assign k v m | some _ ↦ m ]

  -- `m.erase(k)`
  unfoldable pub erase : ℕ → StdMap V → StdMap V
  erase k [] = []
  erase k ((j, v) ∷ m) = let rest = erase k m in if j == k then rest else (j, v) ∷ rest

  -- A write through the iterator that `find(k)` returned.
  unfoldable pub adjust : ℕ → (V → V) → StdMap V → StdMap V
  adjust k f [] = []
  adjust k f ((j, v) ∷ m) = if j == k then (j, f v) ∷ m else (j, v) ∷ adjust k f m

  -- A use of `m[k]`: a missing entry is made with the default value.
  unfoldable pub touch : ℕ → V → StdMap V → StdMap V
  touch k d m = elim (find k m) [ none ↦ assign k d m | some _ ↦ m ]

  -- `m.rbegin()->first`; none on an empty map.
  unfoldable pub last_key : StdMap V → Option ℕ
  last_key [] = none
  last_key ((k, v) ∷ []) = some k
  last_key (_ ∷ e ∷ m) = last_key (e ∷ m)

  -- Every key is above `k`.
  abbrev pub Above : ℕ → StdMap V → Type 0
  Above k [] = Unit
  Above k ((j, v) ∷ m) = (k < j) × Above k m

  -- The keys ascend, so no key occurs twice.
  abbrev pub IsSorted : StdMap V → Type 0
  IsSorted [] = Unit
  IsSorted ((k, v) ∷ m) = Above k m × IsSorted m

  abbrev pub has : ℕ → StdMap V → Bool
  has k m = elim (find k m) [ none ↦ false | some _ ↦ true ]
