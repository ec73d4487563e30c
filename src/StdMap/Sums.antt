-- ===== src/StdMap/Sums.antt =====
-- Sums over the entries of a map.
use push_system.Common.{
  ℕ, ◌+◌, ◌≡◌, refl, sym, [], ◌∷◌, none, some, false, ◌==◌, ==_iff, arith, total, inl, inr,
  Bool-cases, length,
}
use push_system.StdMap.Defs.{StdMap, find, assign, erase, adjust, Above, IsSorted}

module _ {V : Type 0} where
  pub total-assign :
      (g : ℕ × V → ℕ) (k : ℕ) (v : V) (m : StdMap V)
      → find k m ≡ none
      → total g (assign k v m) ≡ g (k, v) + total g m
  unfolding assign find
  total-assign g k v [] h = refl
  total-assign g k v ((j, w) ∷ m) h = elim (Bool-cases (j == k)) [
    | inl same ↦ absurd (ground arith)
    | inr other ↦ ground (arith, total-assign g k v m (ground arith))
  ]

  pub total-adjust :
      (g : ℕ × V → ℕ) (k : ℕ) (f : V → V) (v : V) (m : StdMap V)
      → find k m ≡ some v
      → total g (adjust k f m) + g (k, v) ≡ g (k, f v) + total g m
  unfolding adjust find
  total-adjust g k f v [] h = absurd (ground arith)
  total-adjust g k f v ((j, w) ∷ m) h = elim (Bool-cases (j == k)) [
    | inl same ↦
        let key : j ≡ k = ground (arith, ==_iff j k) in
        let value : w ≡ v = ground arith in rw (same, key, value) (omega arith)
    | inr other ↦ rw other (omega (arith, total-adjust g k f v m (ground arith)))
  ]

  erase-Above : (k : ℕ) (m : StdMap V) → Above k m → erase k m ≡ m
  unfolding erase
  erase-Above k [] a = refl
  erase-Above k ((j, w) ∷ m) a =
      let other : (j == k) ≡ false = ground (arith, a.0) in rw (other, erase-Above k m a.1) refl

  pub total-erase :
      (g : ℕ × V → ℕ) (k : ℕ) (v : V) (m : StdMap V)
      → IsSorted m
      → find k m ≡ some v
      → total g m ≡ g (k, v) + total g (erase k m)
  unfolding erase find
  total-erase g k v [] s h = absurd (ground arith)
  total-erase g k v ((j, w) ∷ m) s h = elim (Bool-cases (j == k)) [
    | inl same ↦
        let key : j ≡ k = ground (arith, ==_iff j k) in
        let value : w ≡ v = ground arith in
        rw (same, key, value) (rw (erase-Above k m (rw (sym key) s.0)) refl)
    | inr other ↦ rw other (omega (arith, total-erase g k v m s.1 (ground arith)))
  ]

  find-Above : (k : ℕ) (m : StdMap V) → Above k m → find k m ≡ none
  unfolding find
  find-Above k [] a = refl
  find-Above k ((j, w) ∷ m) a = ground (arith, find-Above k m a.1)

  total-agree :
      (g h : ℕ × V → ℕ) (k : ℕ) (m : StdMap V)
      → find k m ≡ none
      → ((j : ℕ) (v : V) → (j == k) ≡ false → g (j, v) ≡ h (j, v))
      → total g m ≡ total h m
  unfolding find
  total-agree g h k [] e same = refl
  total-agree g h k ((j, w) ∷ m) e same = elim (Bool-cases (j == k)) [
    | inl this ↦ absurd (ground arith)
    | inr other ↦ omega (arith, total-agree g h k m (ground arith) same, same j w other)
  ]

  -- Two weights that differ at one key alone.
  pub total-change :
      (g h : ℕ × V → ℕ) (k : ℕ) (v : V) (m : StdMap V)
      → IsSorted m
      → find k m ≡ some v
      → ((j : ℕ) (w : V) → (j == k) ≡ false → g (j, w) ≡ h (j, w))
      → total g m + h (k, v) ≡ total h m + g (k, v)
  unfolding find
  total-change g h k v [] s e same = absurd (ground arith)
  total-change g h k v ((j, w) ∷ m) s e same = elim (Bool-cases (j == k)) [
    | inl this ↦
        let key : j ≡ k = ground (arith, ==_iff j k) in
        let value : w ≡ v = ground arith in
        rw (key, value)
          (omega (arith, total-agree g h k m (find-Above k m (rw (sym key) s.0)) same))
    | inr other ↦ omega (arith, total-change g h k v m s.1 (ground arith) same, same j w other)
  ]

  pub length-total : (m : StdMap V) → length m ≡ total (λ _. 1) m
  length-total [] = refl
  length-total (e ∷ m) = omega (arith, length-total m)
