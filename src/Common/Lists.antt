-- ===== src/Common/Lists.antt =====
-- Lists measured by native numbers, and texts as lists of bytes.
use Prim.Native.Nat.{ℕ, zero, suc, ◌+◌}
use Prim.Native.Char.{code}
use Prim.Native.String.{String}
use mathlib.Core.Path.{◌≡◌, refl, ap}
use mathlib.Core.Bool.{Bool, true, false, ◌&&◌}
use mathlib.Core.Option.{Option, none, some}
use mathlib.Core.List.{List, [], ◌∷◌, ◌++◌}
use native.Mathlib.Omega.{arith}
use push_system.Common.Tests.{◌==◌, if◌then◌else◌}

module _ {ℓ} {A : Type ℓ} where
  abbrev pub length : List A → ℕ
  length [] = 0
  length (x ∷ xs) = suc (length xs)

  pub length-append : (xs ys : List A) → length (xs ++ ys) ≡ length xs + length ys
  length-append [] ys = omega arith
  length-append (x ∷ xs) ys = omega (arith, length-append xs ys)

  abbrev pub get_elem? : List A → ℕ → Option A
  get_elem? [] i = none
  get_elem? (x ∷ xs) zero = some x
  get_elem? (x ∷ xs) (suc i) = get_elem? xs i

  abbrev pub replicate : ℕ → A → List A
  replicate zero a = []
  replicate (suc n) a = a ∷ replicate n a

  abbrev pub take : ℕ → List A → List A
  take zero xs = []
  take (suc n) [] = []
  take (suc n) (x ∷ xs) = x ∷ take n xs

  abbrev pub drop : ℕ → List A → List A
  drop zero xs = xs
  drop (suc n) [] = []
  drop (suc n) (x ∷ xs) = drop n xs

  -- A predicate on every element.
  abbrev pub All {κ} : (A → Type κ) → List A → Type κ
  All P [] = Unit
  All P (x ∷ xs) = P x × All P xs

  pub All-mono {κ μ} :
      {P : A → Type κ} {Q : A → Type μ}
      → ((x : A) → P x → Q x)
      → (xs : List A) → All P xs
      → All Q xs
  All-mono h [] a = tt
  All-mono h (x ∷ xs) a = (h x a.0, All-mono h xs a.1)

  -- The sum of a weight over a list.
  abbrev pub total : (A → ℕ) → List A → ℕ
  total w [] = 0
  total w (x ∷ xs) = w x + total w xs

  pub total-append : (w : A → ℕ) (xs ys : List A) → total w (xs ++ ys) ≡ total w xs + total w ys
  total-append w [] ys = omega arith
  total-append w (x ∷ xs) ys = omega (arith, total-append w xs ys)

-- `Takes x l r`: the list `l` is `r` with one `x` put in somewhere.
pub data Takes {ℓ} {A : Type ℓ} (x : A) : List A → List A → Type ℓ where
  here : {xs : List A} → Takes x (x ∷ xs) xs
  there : {y : A} {xs ys : List A} → Takes x xs ys → Takes x (y ∷ xs) (y ∷ ys)

module _ {ℓ} {A : Type ℓ} where
  pub total-Takes : (w : A → ℕ) {x : A} {l r : List A} → Takes x l r → total w l ≡ w x + total w r
  total-Takes w here = refl
  total-Takes w (there t) = omega (arith, total-Takes w t)

  pub length-Takes : {x : A} {l r : List A} → Takes x l r → length l ≡ suc (length r)
  length-Takes here = refl
  length-Takes (there t) = ap suc (length-Takes t)

  pub All-Takes {κ} :
      (P : A → Type κ) {x : A} {l r : List A} → Takes x l r → All P l → P x × All P r
  All-Takes P here a = (a.0, a.1)
  All-Takes P (there t) a = let rest = All-Takes P t a.1 in (rest.0, (a.0, rest.1))

-- A `string` is its list of bytes.
abbrev pub Text : Type 0
Text = List ℕ

abbrev pub codes : String → Text
codes String.[] = []
codes (String.◌∷◌ c s) = code c ∷ codes s

abbrev pub text_eq : Text → Text → Bool
text_eq [] [] = true
text_eq (a ∷ s) (b ∷ t) = a == b && text_eq s t
text_eq _ _ = false

-- The option holds a value.
abbrev pub IsSome {ℓ} : {A : Type ℓ} → Option A → Type 0
IsSome none = ⊥
IsSome (some a) = Unit {0}

-- How often a number occurs.
abbrev pub count : ℕ → List ℕ → ℕ
count u = total (λ x. if x == u then 1 else 0)
