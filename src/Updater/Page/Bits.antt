-- ===== src/Updater/Page/Bits.antt =====
-- Which bits a page has set, and what a producer makes of it.
use push_system.Common.{
  ℕ, zero, suc, ◌+◌, ◌-◌, ◌*◌, ◌/◌, ◌%◌, ◌^◌, ◌<◌, ◌≤◌, ◌≡◌, refl, List, [], ◌∷◌, Option, some,
  ◌>>=◌, Bool, true, false, ◌&&◌, ◌||◌, ◌==◌, ltb, leb, ltb→lt, leb→le, if◌then◌else◌, arith,
  length, replicate, count, All, ap, ◌∙◌, sym, inl, inr, Bool-cases, ==_iff,
}
use push_system.Common.Word.{u64}
use push_system.Producer.Bitmap.{bit_at, uids_to_send}
use push_system.Producer.Bitmap.Selected.{bit_in, bit_of, uids_to_send-count}
use push_system.Updater.Page.{counts_per_loop, or_bit, set_bit, fill, page_bitmap}

abbrev all_below : ℕ → (ℕ → Bool) → Bool
all_below zero p = true
all_below (suc n) p = p n && all_below n p

all_below-at : (n : ℕ) (p : ℕ → Bool) (k : ℕ) → all_below n p ≡ true → k < n → p k ≡ true
all_below-at zero p k h l = absurd (omega arith)
all_below-at (suc n) p k h l = elim (Bool-cases (k == n)) [
  | inl e ↦ let same : k ≡ n = ground (arith, ==_iff k n) in rw same (ground arith)
  | inr e ↦ all_below-at n p k (ground arith) (ground arith)
]

abbrev same_bit : Bool → Bool → Bool
same_bit true b = b
same_bit false true = false
same_bit false false = true

same_bit-eq : (a b : Bool) → same_bit a b ≡ true → a ≡ b
same_bit-eq a b h = ground arith

abbrev is_or : (byte j i : ℕ) → Bool
is_or byte j i = same_bit (bit_at (or_bit byte j) i) ((i == j) || bit_at byte i)

all_or : all_below 256 (λ byte. all_below 8 λ j. all_below 8 λ i. is_or byte j i) ≡ true
unfolding or_bit bit_at
all_or = refl

all_bytes : all_below 256 (λ byte. all_below 8 λ j. ltb (or_bit byte j) 256) ≡ true
unfolding or_bit bit_at
all_bytes = refl

abbrev IsByte : ℕ → Type 0
IsByte byte = byte < 256

or_bit-bit :
    (byte j i : ℕ)
    → byte < 256
    → j < 8
    → i < 8
    → bit_at (or_bit byte j) i ≡ ((i == j) || bit_at byte i)
or_bit-bit byte j i b l m = same_bit-eq _ _ (
    all_below-at 8 (is_or byte j) i
      (all_below-at 8 (λ j. all_below 8 λ i. is_or byte j i) j
        (all_below-at 256 (λ byte. all_below 8 λ j. all_below 8 λ i. is_or byte j i) byte all_or b)
        l)
      m)

or_bit-IsByte : (byte j : ℕ) → byte < 256 → j < 8 → or_bit byte j < 256
or_bit-IsByte byte j b l = ltb→lt _ _ (
    all_below-at 8 (λ j. ltb (or_bit byte j) 256) j
      (all_below-at 256 (λ byte. all_below 8 λ j. ltb (or_bit byte j) 256) byte all_bytes b) l)

-- A bitmap `r` of bytes, as long as `m`, with one bit more.
record SetBit (i j : ℕ) (m : List ℕ) (r : List ℕ) : Type 0 where
  size : length r ≡ length m
  bytes : All IsByte r
  bits : (p q : ℕ) → q < 8 → bit_in r p q ≡ (((p == i) && (q == j)) || bit_in m p q)

set_bit-SetBit :
    (i j : ℕ) (m : List ℕ)
    → i < length m
    → j < 8
    → All IsByte m
    → (r : List ℕ) × (set_bit i j m ≡ some r) × SetBit i j m r
unfolding set_bit
set_bit-SetBit i j [] l h a = absurd (omega arith)
set_bit-SetBit zero j (byte ∷ m) l h a = (
  or_bit byte j ∷ m,
  refl,
  record { size = refl; bytes = (or_bit-IsByte byte j a.0 h, a.1); bits = λ p q n. by_place p q n },
)
  where
    by_place :
        (p q : ℕ)
        → q < 8
        → bit_in (or_bit byte j ∷ m) p q ≡ (((p == zero) && (q == j)) || bit_in (byte ∷ m) p q)
    by_place zero q n = or_bit-bit byte j q a.0 h n
    by_place (suc p) q n = ground arith
set_bit-SetBit (suc i) j (byte ∷ m) l h a =
    let made = set_bit-SetBit i j m (omega arith) h a.1 in
    (
      byte ∷ made.0,
      rw made.1 refl,
      record {
        size = ap suc made.2.size;
        bytes = (a.0, made.2.bytes);
        bits = λ p q n. by_place made.0 made.2 p q n;
      },
    )
  where
    by_place :
        (r : List ℕ)
        → SetBit i j m r
        → (p q : ℕ) → q < 8
        → bit_in (byte ∷ r) p q ≡ (((p == suc i) && (q == j)) || bit_in (byte ∷ m) p q)
    by_place r s zero q n = ground arith
    by_place r s (suc p) q n = ground (arith, s.bits p q n)

-- Whether a uid is among the rows.
abbrev pub listed : ℕ → List ℕ → Bool
listed u [] = false
listed u (row ∷ rows) = (row == u) || listed u rows

-- The rows of a query: uids from `uid` on, below `end`.
abbrev pub InPage : (uid end : ℕ) → ℕ → Type 0
InPage uid end row = (uid ≤ row) × (row < end)

record Filled (uid : ℕ) (rows m r : List ℕ) : Type 0 where
  size : length r ≡ length m
  bits : (k : ℕ) → bit_of r k ≡ (listed (uid + k) rows || bit_of m k)

position :
    (row uid k : ℕ)
    → u64 (row + 2 ^ 64 - uid) + uid ≡ row
    → ((k / 8 == u64 (row + 2 ^ 64 - uid) / 8) && (k % 8 == u64 (row + 2 ^ 64 - uid) % 8))
      ≡ (row == uid + k)
position row uid k h = ground arith

fill-Filled :
    (uid n : ℕ) (rows m : List ℕ)
    → length m ≡ n
    → All (InPage uid (uid + 8 * n)) rows
    → uid + 8 * n ≤ 2 ^ 64
    → All IsByte m
    → (r : List ℕ) × (fill uid rows m ≡ some r) × Filled uid rows m r
unfolding fill
fill-Filled uid n [] m l a w b = (m, refl, record { size = refl; bits = λ k. refl })
fill-Filled uid n (row ∷ rows) m l a w b =
    let o = u64 (row + 2 ^ 64 - uid) in
    let made = set_bit-SetBit (o / 8) (o % 8) m (omega (arith, a.0.0, a.0.1)) (omega arith) b in
    let rest = fill-Filled uid n rows made.0 (made.2.size ∙ l) a.1 w made.2.bytes in
    (
      rest.0,
      ap (λ (x : Option (List ℕ)). x >>= λ next. fill uid rows next) made.1 ∙ rest.1,
      record {
        size = rest.2.size ∙ made.2.size;
        bits = λ k. ground (
          arith,
          rest.2.bits k,
          made.2.bits (k / 8) (k % 8) (omega arith),
          position row uid k (omega (arith, a.0.0, a.0.1)),
        );
      },
    )

zeros-IsByte : (n : ℕ) → All IsByte (replicate n 0)
zeros-IsByte zero = tt
zeros-IsByte (suc n) = (omega arith, zeros-IsByte n)

zeros-length : (n : ℕ) → length {A = ℕ} (replicate n 0) ≡ n
zeros-length zero = refl
zeros-length (suc n) = ap suc (zeros-length n)

zeros-bit : (n i j : ℕ) → bit_in (replicate n 0) i j ≡ false
unfolding bit_at
zeros-bit zero i j = refl
zeros-bit (suc n) zero j = ground arith
zeros-bit (suc n) (suc i) j = ground (arith, zeros-bit n i j)

chosen :
    (uid u : ℕ) (rows m r : List ℕ)
    → Filled uid rows m r
    → (u < uid → listed u rows ≡ false)
    → ((k : ℕ) → bit_of m k ≡ false)
    → (leb (uid + 8 * 0) u && bit_of r (u - (uid + 8 * 0))) ≡ listed u rows
chosen uid u rows m r f below clear = elim (Bool-cases (leb uid u)) [
  | inl le ↦
      let base : uid + 8 * 0 ≡ uid = omega arith in
      let order = leb→le _ _ le in
      let same : uid + (u - uid) ≡ u = omega arith in
      rw (base, le)
        (f.bits (u - uid)
          ∙ ap (λ (b : Bool). listed (uid + (u - uid)) rows || b) (clear (u - uid))
          ∙ or_false (listed (uid + (u - uid)) rows)
          ∙ ap (λ v. listed v rows) same)
  | inr gt ↦
      let base : uid + 8 * 0 ≡ uid = omega arith in rw (base, gt) (sym (below (ground arith)))
]
  where
    or_false : (b : Bool) → (b || false) ≡ b
    or_false true = refl
    or_false false = refl

listed-below :
    (uid end u : ℕ) (rows : List ℕ) → All (InPage uid end) rows → u < uid → listed u rows ≡ false
listed-below uid end u [] a l = refl
listed-below uid end u (row ∷ rows) a l = ground (arith, listed-below uid end u rows a.1 l, a.0.0)

-- The bitmap that UpdateUserInfo makes of the rows of a page, uids from its start on and less than
-- 10240 further, is made without a write beyond its 1280 bytes, and a producer that sends by these
-- bytes, from the start of the page, sends to the uids among the rows, each once however often it
-- is there, and to no other.
pub uids_to_send-page_bitmap :
    (uid u : ℕ) (rows : List ℕ)
    → All (InPage uid (uid + counts_per_loop)) rows
    → uid + counts_per_loop ≤ 2 ^ 64
    → (bytes : List ℕ) × (page_bitmap uid rows ≡ some bytes)
      × (length bytes ≡ counts_per_loop / 8)
      × (count u (uids_to_send uid 0 bytes) ≡ (if listed u rows then 1 else 0))
unfolding page_bitmap
uids_to_send-page_bitmap uid u rows a w =
    let n : ℕ = counts_per_loop / 8 in
    let made = fill-Filled uid n rows (replicate n 0) (zeros-length n) a w (zeros-IsByte n) in
    let size = made.2.size ∙ zeros-length n in
    (
      made.0,
      made.1,
      size,
      uids_to_send-count uid 0 made.0 u (omega (arith, size))
          ∙ ap (λ (b : Bool). let one : ℕ = 1 in if b then one else 0)
              (chosen uid u rows (replicate n 0) made.0 made.2 (listed-below uid _ u rows a)
                (λ k. zeros-bit n (k / 8) (k % 8))),
    )

-- The bits of the bitmap of a page.
pub page_bitmap-bits :
    (uid : ℕ) (rows : List ℕ)
    → All (InPage uid (uid + counts_per_loop)) rows
    → uid + counts_per_loop ≤ 2 ^ 64
    → (bytes : List ℕ) × (page_bitmap uid rows ≡ some bytes)
      × (length bytes ≡ counts_per_loop / 8)
      × ((k : ℕ) → bit_of bytes k ≡ listed (uid + k) rows)
unfolding page_bitmap
page_bitmap-bits uid rows a w =
    let n : ℕ = counts_per_loop / 8 in
    let made = fill-Filled uid n rows (replicate n 0) (zeros-length n) a w (zeros-IsByte n) in
    (
      made.0,
      made.1,
      made.2.size ∙ zeros-length n,
      λ k. ground (arith, made.2.bits k, zeros-bit n (k / 8) (k % 8)),
    )
