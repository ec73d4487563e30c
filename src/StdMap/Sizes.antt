-- ===== src/StdMap/Sizes.antt =====
-- How many entries the operations leave.
use push_system.Common.{ℕ, ◌≡◌, ◌≤◌, suc, refl, [], ◌∷◌, arith, length}
use push_system.StdMap.Defs.{StdMap, assign, insert, erase, adjust}

module _ {V : Type 0} where
  pub length-assign-le : (k : ℕ) (v : V) (m : StdMap V) → length (assign k v m) ≤ suc (length m)
  unfolding assign
  length-assign-le k v [] = omega arith
  length-assign-le k v ((j, w) ∷ m) = ground (arith, length-assign-le k v m)

  pub length-insert-le : (k : ℕ) (v : V) (m : StdMap V) → length (insert k v m) ≤ suc (length m)
  unfolding insert
  length-insert-le k v m = ground (arith, length-assign-le k v m)

  pub length-erase-le : (k : ℕ) (m : StdMap V) → length (erase k m) ≤ length m
  unfolding erase
  length-erase-le k [] = omega arith
  length-erase-le k ((j, w) ∷ m) = ground (arith, length-erase-le k m)

  pub length-adjust : (k : ℕ) (f : V → V) (m : StdMap V) → length (adjust k f m) ≡ length m
  unfolding adjust
  length-adjust k f [] = refl
  length-adjust k f ((j, w) ∷ m) = ground (arith, length-adjust k f m)
