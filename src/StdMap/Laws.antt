-- ===== src/StdMap/Laws.antt =====
-- What `find` shows of each operation, and that each keeps the keys in order.
use push_system.Common.{
  ℕ, ◌≡◌, refl, [], ◌∷◌, none, some, ◌==◌, if◌then◌else◌, ◌<◌, ◌≤◌, arith, inl, inr, Option-cases,
}
use mathlib.Core.Option
use push_system.StdMap.Defs.{
  StdMap, find, assign, insert, erase, adjust, touch, last_key, Above, IsSorted,
}

module _ {ℓ} {V : Type ℓ} where
  pub find-assign :
      (j k : ℕ) (v : V) (m : StdMap V)
      → find j (assign k v m) ≡ (if k == j then some v else find j m)
  unfolding find assign
  find-assign j k v [] = refl
  find-assign j k v ((i, w) ∷ m) = ground (arith, find-assign j k v m)

  pub find-erase :
      (j k : ℕ) (m : StdMap V) → find j (erase k m) ≡ (if k == j then none else find j m)
  unfolding find erase
  find-erase j k [] = ground arith
  find-erase j k ((i, w) ∷ m) = ground (arith, find-erase j k m)

  pub find-adjust :
      (j k : ℕ) (f : V → V) (m : StdMap V)
      → find j (adjust k f m) ≡ (if k == j then Option.map f (find j m) else find j m)
  unfolding find adjust
  find-adjust j k f [] = ground arith
  find-adjust j k f ((i, w) ∷ m) = ground (arith, find-adjust j k f m)

  pub find-touch :
      (j k : ℕ) (d : V) (m : StdMap V)
      → find j (touch k d m)
        ≡ (if k == j then elim (find j m) [ none ↦ some d | some v ↦ some v ] else find j m)
  unfolding touch
  find-touch j k d m = ground (arith, find-assign j k d m)

  pub find-insert :
      (j k : ℕ) (v : V) (m : StdMap V)
      → find k m ≡ none
      → find j (insert k v m) ≡ (if k == j then some v else find j m)
  unfolding insert
  find-insert j k v m h = ground (arith, find-assign j k v m)

  -- No key of a map is above the last one.
  pub Above-find : (k j : ℕ) (v : V) (m : StdMap V) → Above k m → find j m ≡ some v → k < j
  unfolding find
  Above-find k j v [] a h = ground arith
  Above-find k j v ((i, w) ∷ m) a h = ground (arith, Above-find k j v m a.1)

  last_key-above :
      (k i : ℕ) (w : V) (m : StdMap V)
      → IsSorted ((i, w) ∷ m)
      → last_key ((i, w) ∷ m) ≡ some k
      → i ≤ k
  unfolding last_key
  last_key-above k i w [] s l = ground arith
  last_key-above k i w ((i', w') ∷ m) s l = ground (arith, last_key-above k i' w' m s.1 l)

  pub find-last_key :
      (j k : ℕ) (v : V) (m : StdMap V)
      → IsSorted m
      → last_key m ≡ some k
      → find j m ≡ some v
      → j ≤ k
  unfolding find last_key
  find-last_key j k v [] s l h = ground arith
  find-last_key j k v ((i, w) ∷ []) s l h = ground arith
  find-last_key j k v ((i, w) ∷ (i', w') ∷ m) s l h =
      ground (arith, find-last_key j k v ((i', w') ∷ m) s.1 l, last_key-above k i' w' m s.1 l)

  Above-assign : (i k : ℕ) (v : V) (m : StdMap V) → Above i m → i < k → Above i (assign k v m)
  unfolding assign
  Above-assign i k v [] a h = ground arith
  Above-assign i k v ((j, w) ∷ m) a h = ground (arith, Above-assign i k v m a.1 h)

  Above-trans : (i k : ℕ) (m : StdMap V) → i < k → Above k m → Above i m
  Above-trans i k [] h a = tt
  Above-trans i k ((j, w) ∷ m) h a = (omega arith, Above-trans i k m h a.1)

  pub assign-IsSorted : (k : ℕ) (v : V) (m : StdMap V) → IsSorted m → IsSorted (assign k v m)
  unfolding assign
  assign-IsSorted k v [] s = ground arith
  assign-IsSorted k v ((j, w) ∷ m) s =
      ground (arith, assign-IsSorted k v m s.1, Above-assign j k v m s.0, Above-trans k j m)

  pub insert-IsSorted : (k : ℕ) (v : V) (m : StdMap V) → IsSorted m → IsSorted (insert k v m)
  unfolding insert
  insert-IsSorted k v m s = ground (arith, assign-IsSorted k v m s)

  pub touch-IsSorted : (k : ℕ) (v : V) (m : StdMap V) → IsSorted m → IsSorted (touch k v m)
  unfolding touch
  touch-IsSorted k v m s = ground (arith, assign-IsSorted k v m s)

  Above-erase : (i k : ℕ) (m : StdMap V) → Above i m → Above i (erase k m)
  unfolding erase
  Above-erase i k [] a = tt
  Above-erase i k ((j, w) ∷ m) a = ground (arith, Above-erase i k m a.1)

  pub erase-IsSorted : (k : ℕ) (m : StdMap V) → IsSorted m → IsSorted (erase k m)
  unfolding erase
  erase-IsSorted k [] s = tt
  erase-IsSorted k ((j, w) ∷ m) s = ground (arith, erase-IsSorted k m s.1, Above-erase j k m s.0)

  Above-adjust : (i k : ℕ) (f : V → V) (m : StdMap V) → Above i m → Above i (adjust k f m)
  unfolding adjust
  Above-adjust i k f [] a = tt
  Above-adjust i k f ((j, w) ∷ m) a = ground (arith, Above-adjust i k f m a.1)

  pub adjust-IsSorted : (k : ℕ) (f : V → V) (m : StdMap V) → IsSorted m → IsSorted (adjust k f m)
  unfolding adjust
  adjust-IsSorted k f [] s = tt
  adjust-IsSorted k f ((j, w) ∷ m) s =
      ground (arith, adjust-IsSorted k f m s.1, Above-adjust j k f m s.0)

  -- Of a key above the last one there is no entry.
  pub find-fresh :
      (j k : ℕ) (m : StdMap V) → IsSorted m → last_key m ≡ some k → k < j → find j m ≡ none
  find-fresh j k m s l h = elim (Option-cases (find j m)) [
    | inl e ↦ e
    | inr (v, e) ↦ absurd (omega (arith, find-last_key j k v m s l e))
  ]

  pub last_key-none : (m : StdMap V) → last_key m ≡ none → m ≡ []
  unfolding last_key
  last_key-none [] h = refl
  last_key-none ((k, v) ∷ []) h = ground arith
  last_key-none (e ∷ e' ∷ m) h = ground (arith, last_key-none (e' ∷ m) h)
