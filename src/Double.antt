-- ===== src/Double.antt =====
-- `double`: the numbers among the values of the type, without NaN and with one zero. Load-balance
-- scores and ranks are such numbers. The laws are those that IEEE arithmetic with rounding keeps.
use push_system.Common.{ℕ, ◌≤◌, ◌<◌, ◌≡◌, ◌⊎◌, Bool, true, false, Option, some, Text}

pub record Double (D : Type 0) : Type 0 where
  pub plus : D → D → D
  pub times : D → D → D
  pub over : D → D → D
  -- An integral value; `of_nat 0` is 0.0.
  pub of_nat : ℕ → D
  -- a ≤ b
  pub le : D → D → Bool
  -- `stringstream << x` and `stringstream >> x`; none where the text ends before a number begins, so
  -- that the variable keeps what it held.
  pub print : D → Text
  pub parse : Text → Option D
  -- What a variable that was never set holds, which may be another number each time.
  pub unset : ℕ → D
  pub le_trans : (a b c : D) → le a b ≡ true → le b c ≡ true → le a c ≡ true
  pub le_total : (a b : D) → (le a b ≡ true) ⊎ (le b a ≡ true)
  pub le_antisymm : (a b : D) → le a b ≡ true → le b a ≡ true → a ≡ b
  -- Adding a number that is not negative does not go down.
  pub plus_grows : (a b : D) → le (of_nat 0) b ≡ true → le a (plus a b) ≡ true
  -- A fraction of a number that is not negative does not exceed it.
  pub fraction_le :
      (k n : ℕ) (m : D)
      → k ≤ n
      → 0 < n
      → le (of_nat 0) m ≡ true
      → le (times (over (of_nat k) (of_nat n)) m) m ≡ true
  pub plus_comm : (a b : D) → plus a b ≡ plus b a
  pub of_nat_pos : (n : ℕ) → 0 < n → le (of_nat n) (of_nat 0) ≡ false
  pub times_nonneg :
      (a b : D) → le (of_nat 0) a ≡ true → le (of_nat 0) b ≡ true → le (of_nat 0) (times a b) ≡ true
  -- A quotient by a number above 0.
  pub over_nonneg :
      (a b : D) → le (of_nat 0) a ≡ true → le b (of_nat 0) ≡ false → le (of_nat 0) (over a b) ≡ true
  pub plus_zero : (a : D) → plus a (of_nat 0) ≡ a
  -- A number that is not negative is read back as such.
  pub print_nonneg :
      (a : D)
      → le (of_nat 0) a ≡ true
      → (x : D) × (parse (print a) ≡ some x) × (le (of_nat 0) x ≡ true)
