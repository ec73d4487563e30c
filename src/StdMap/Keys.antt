-- ===== src/StdMap/Keys.antt =====
-- Which keys a map has, and statements on all entries.
use mathlib.Core.Path.{subst}
use push_system.Common.{
  inl, inr, Bool-cases, Option-cases, ℕ, ◌≡◌, [], ◌∷◌, none, some, true, not, ◌&&◌, ◌||◌, ◌==◌,
  arith, All, ==_iff,
}
use push_system.StdMap.Defs.{StdMap, find, assign, insert, erase, adjust, touch, IsSorted, has}
use push_system.StdMap.Laws.{find-assign, find-erase, find-adjust, Above-find}

module _ {ℓ} {V : Type ℓ} where
  pub has-assign : (j k : ℕ) (v : V) (m : StdMap V) → has j (assign k v m) ≡ (k == j) || has j m
  has-assign j k v m = ground (arith, find-assign j k v m)

  pub has-insert : (j k : ℕ) (v : V) (m : StdMap V) → has j (insert k v m) ≡ (k == j) || has j m
  unfolding insert
  has-insert j k v m = ground (arith, find-assign j k v m, ==_iff k j)

  pub has-erase : (j k : ℕ) (m : StdMap V) → has j (erase k m) ≡ not (k == j) && has j m
  has-erase j k m = ground (arith, find-erase j k m)

  pub has-adjust : (j k : ℕ) (f : V → V) (m : StdMap V) → has j (adjust k f m) ≡ has j m
  has-adjust j k f m = ground (arith, find-adjust j k f m)

  -- A use of an entry that is there makes none.
  pub touch-has : (k : ℕ) (d : V) (m : StdMap V) → has k m ≡ true → touch k d m ≡ m
  unfolding touch
  touch-has k d m h = ground arith

  pub has-cons : (k : ℕ) (v : V) (m : StdMap V) → has k ((k, v) ∷ m) ≡ true
  unfolding find
  has-cons k v m = ground arith

  -- In a sorted map what holds of all that `find` returns holds of all entries, and conversely.
  pub All-of_find {κ} :
      (P : ℕ × V → Type κ) (m : StdMap V)
      → IsSorted m
      → ((j : ℕ) (v : V) → find j m ≡ some v → P (j, v))
      → All P m
  unfolding find
  All-of_find P [] s h = tt
  All-of_find P ((k, v) ∷ m) s h = (
    h k v (ground arith),
    All-of_find P m s.1 (λ j w e. h j w (ground (arith, Above-find k j w m s.0))),
  )

  pub find-of_All {κ} :
      (P : ℕ × V → Type κ) (j : ℕ) (v : V) (m : StdMap V) → All P m → find j m ≡ some v → P (j, v)
  unfolding find
  find-of_All P j v [] a h = elim (none-ne-some h) [ ]
    where
      none-ne-some : none ≡ some v → ⊥
      none-ne-some e = ground arith
  find-of_All P j v ((k, w) ∷ m) a h = ground (arith, find-of_All P j v m a.1, a.0)

  -- A predicate on every value that `find` returns.
  abbrev pub Each {κ} : (V → Type κ) → StdMap V → Type (ℓ ⊔ κ)
  Each P m = (j : ℕ) (v : V) → find j m ≡ some v → P v

  Each-value {κ} : (P : V → Type κ) {v w : V} → P v → some v ≡ some w → P w
  Each-value P {v} {w} p e = let q : v ≡ w = ground arith in subst P q p

  pub Each-assign {κ} :
      (P : V → Type κ) (k : ℕ) (v : V) (m : StdMap V) → P v → Each P m → Each P (assign k v m)
  Each-assign P k v m p e j w q = elim (Bool-cases (k == j)) [
    | inl t ↦ Each-value P p (ground (arith, find-assign j k v m))
    | inr t ↦ e j w (ground (arith, find-assign j k v m))
  ]

  pub Each-insert {κ} :
      (P : V → Type κ) (k : ℕ) (v : V) (m : StdMap V) → P v → Each P m → Each P (insert k v m)
  unfolding insert
  Each-insert P k v m p e = elim (Option-cases (find k m)) [
    | inl t ↦ rw (t, insert) (Each-assign P k v m p e)
    | inr (w, t) ↦ rw (t, insert) e
  ]

  pub Each-erase {κ} : (P : V → Type κ) (k : ℕ) (m : StdMap V) → Each P m → Each P (erase k m)
  Each-erase P k m e j w q = e j w (ground (arith, find-erase j k m))

  pub Each-adjust {κ} :
      (P : V → Type κ) (k : ℕ) (f : V → V) (m : StdMap V)
      → ((v : V) → P v → P (f v))
      → Each P m
      → Each P (adjust k f m)
  Each-adjust P k f m keep e j w q = elim (Option-cases (find j m)) [
    | inl t ↦ absurd (ground (arith, find-adjust j k f m))
    | inr (v, t) ↦ elim (Bool-cases (k == j)) [
      | inl s ↦ Each-value P (keep v (e j v t)) (ground (arith, find-adjust j k f m))
      | inr s ↦ e j w (ground (arith, find-adjust j k f m))
    ]
  ]
