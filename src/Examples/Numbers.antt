-- ===== src/Examples/Numbers.antt =====
-- The laws of `Double` hold of the natural numbers with rounding down.
use push_system.Common.{
  ℕ, ◌+◌, ◌*◌, ◌/◌, ◌<◌, ◌≤◌, ◌≡◌, true, false, ◌⊎◌, Option, none, some, refl, [], ◌∷◌, leb, le→leb,
  zero, suc, ◌%◌, arith, Text,
}
use push_system.Double.{Double}

abbrev pub head : Text → Option ℕ
head [] = none
head (n ∷ _) = some n

factor_le_one : (q r k n : ℕ) → n * q + r ≡ k → k ≤ n → 0 < n → q ≤ 1
factor_le_one zero r k n e h p = omega arith
factor_le_one (suc zero) r k n e h p = omega arith
factor_le_one (suc (suc q)) r k n e h p = absurd (omega arith)

times-le : (q m : ℕ) → q ≤ 1 → q * m ≤ m
times-le zero m h = omega arith
times-le (suc zero) m h = omega arith
times-le (suc (suc q)) m h = absurd (omega arith)

pub fraction : (k n m : ℕ) → k ≤ n → 0 < n → leb 0 m ≡ true → leb (k / n * m) m ≡ true
fraction k n m h p _ =
    le→leb _ _ (times-le (k / n) m (factor_le_one (k / n) (k % n) k n (omega arith) h p))

pub nat_le_trans : (a b c : ℕ) → leb a b ≡ true → leb b c ≡ true → leb a c ≡ true
nat_le_trans a b c p q = ground arith

pub nat_le_total : (a b : ℕ) → (leb a b ≡ true) ⊎ (leb b a ≡ true)
nat_le_total a b = ground arith

pub nat_le_antisymm : (a b : ℕ) → leb a b ≡ true → leb b a ≡ true → a ≡ b
nat_le_antisymm a b p q = ground arith

pub nat_plus_grows : (a b : ℕ) → leb 0 b ≡ true → leb a (a + b) ≡ true
nat_plus_grows a b p = ground arith

pub nat_plus_comm : (a b : ℕ) → a + b ≡ b + a
nat_plus_comm a b = omega arith

pub nat_of_nat_pos : (n : ℕ) → 0 < n → leb n 0 ≡ false
nat_of_nat_pos n p = ground arith

pub nat_times_nonneg : (a b : ℕ) → leb 0 a ≡ true → leb 0 b ≡ true → leb 0 (a * b) ≡ true
nat_times_nonneg a b p q = ground arith

pub nat_over_nonneg : (a b : ℕ) → leb 0 a ≡ true → leb b 0 ≡ false → leb 0 (a / b) ≡ true
nat_over_nonneg a b p q = ground arith

pub nat_plus_zero : (a : ℕ) → a + 0 ≡ a
nat_plus_zero a = omega arith

pub nat_print_nonneg :
    (a : ℕ) → leb 0 a ≡ true → (x : ℕ) × (head (a ∷ []) ≡ some x) × (leb 0 x ≡ true)
nat_print_nonneg a p = (a, refl, p)

instance abbrev pub nat_double : Double ℕ
nat_double = record {
  plus = ◌+◌;
  times = ◌*◌;
  over = ◌/◌;
  of_nat = λ n. n;
  le = leb;
  print = λ n. n ∷ [];
  parse = head;
  unset = λ n. n;
  le_trans = nat_le_trans;
  le_total = nat_le_total;
  le_antisymm = nat_le_antisymm;
  plus_grows = nat_plus_grows;
  fraction_le = fraction;
  plus_comm = nat_plus_comm;
  of_nat_pos = nat_of_nat_pos;
  times_nonneg = nat_times_nonneg;
  over_nonneg = nat_over_nonneg;
  plus_zero = nat_plus_zero;
  print_nonneg = nat_print_nonneg;
}
