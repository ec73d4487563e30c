-- ===== src/Producer/Bitmap/Selected.antt =====
-- Which uids a chunk is sent to, against the bitmap.
use push_system.Common.{
  ℕ, zero, suc, ◌+◌, ◌-◌, ◌*◌, ◌/◌, ◌%◌, ◌^◌, ◌≤◌, ◌≡◌, List, [], ◌∷◌, none, some, Bool, false,
  ◌&&◌, ◌==◌, ltb, leb, if◌then◌else◌, arith, length, get_elem?, take, drop, count, total-append,
  inl, inr, Bool-cases, leb→le, ap, ◌∙◌,
}
use mathlib.Core.Path.{ap₂}
use native.Mathlib.Nat.{zero-add}
use push_system.Producer.Bitmap.{bit_at, byte_uids, uids_to_send}

-- Bit `j` of byte `i`.
abbrev pub bit_in : List ℕ → (i j : ℕ) → Bool
bit_in bytes i j = elim (get_elem? bytes i) [ none ↦ false | some byte ↦ bit_at byte j ]

-- Bit `k` of a string of bytes, the high end of each byte first; 0 beyond the string.
abbrev pub bit_of : List ℕ → ℕ → Bool
bit_of bytes k = bit_in bytes (k / 8) (k % 8)

byte_uids-count :
    (left start_uid i byte u : ℕ)
    → left ≤ 8
    → start_uid + 8 * i + 8 ≤ 2 ^ 64
    → count u (byte_uids left start_uid i byte) ≡ (
        if leb (start_uid + 8 * i + (8 - left)) u
          && (ltb u (start_uid + 8 * i + 8) && bit_at byte (u - (start_uid + 8 * i)))
        then 1
        else 0)
unfolding byte_uids
byte_uids-count zero start_uid i byte u l w = ground arith
byte_uids-count (suc left) start_uid i byte u l w =
    ground (arith, byte_uids-count left start_uid i byte u (omega arith) w)

bit_of-cons :
    (byte : ℕ) (bytes : List ℕ) (k : ℕ)
    → bit_of (byte ∷ bytes) k ≡ (if ltb k 8 then bit_at byte k else bit_of bytes (k - 8))
bit_of-cons byte bytes k = elim (Bool-cases (ltb k 8)) [
  | inl low ↦
      let first : k / 8 ≡ 0 = ground arith in
      let same : k % 8 ≡ k = ground arith in rw low (ap₂ (bit_in (byte ∷ bytes)) first same)
  | inr high ↦
      let later : k / 8 ≡ suc ((k - 8) / 8) = ground arith in
      let same : k % 8 ≡ (k - 8) % 8 = ground arith in
      rw high (ap₂ (bit_in (byte ∷ bytes)) later same)
]

-- The uids to send to are those whose bit is set in the bytes, each once: the uid `u` has the bit
-- number `u - start_uid`.
pub uids_to_send-count :
    (start_uid i : ℕ) (bytes : List ℕ) (u : ℕ)
    → start_uid + 8 * i + 8 * length bytes ≤ 2 ^ 64
    → count u (uids_to_send start_uid i bytes)
      ≡ (if leb (start_uid + 8 * i) u && bit_of bytes (u - (start_uid + 8 * i)) then 1 else 0)
unfolding uids_to_send
uids_to_send-count start_uid i [] u w = ground arith
uids_to_send-count start_uid i (byte ∷ bytes) u w = ground (
  arith,
  total-append (λ (x : ℕ). if x == u then 1 else 0) (byte_uids 8 start_uid i byte)
      (uids_to_send start_uid (i + 1) bytes),
  byte_uids-count 8 start_uid i byte u (omega arith) (omega arith),
  uids_to_send-count start_uid (i + 1) bytes u (omega arith),
  bit_of-cons byte bytes (u - (start_uid + 8 * i)),
)

-- GETRANGE: the bytes from number `first` to number `last`, as far as the string goes.
abbrev pub get_range : (first last : ℕ) → List ℕ → List ℕ
get_range first last bytes = take (last - first + 1) (drop first bytes)

get_elem?-take :
    (n i : ℕ) (bytes : List ℕ)
    → get_elem? (take n bytes) i ≡ (if ltb i n then get_elem? bytes i else none)
get_elem?-take zero i bytes = ground arith
get_elem?-take (suc n) i [] = ground arith
get_elem?-take (suc n) zero (b ∷ bytes) = ground arith
get_elem?-take (suc n) (suc i) (b ∷ bytes) = ground (arith, get_elem?-take n i bytes)

get_elem?-drop : (n i : ℕ) (bytes : List ℕ) → get_elem? (drop n bytes) i ≡ get_elem? bytes (n + i)
get_elem?-drop zero i bytes = rw zero-add
get_elem?-drop (suc n) i [] = ground arith
get_elem?-drop (suc n) i (b ∷ bytes) =
    let e : suc n + i ≡ suc (n + i) = omega arith in rw e (get_elem?-drop n i bytes)

bit_of-get_range :
    (first last k : ℕ) (bytes : List ℕ)
    → bit_of (get_range first last bytes) k
      ≡ ltb k (8 * (last - first + 1)) && bit_of bytes (8 * first + k)
bit_of-get_range first last k bytes =
    let row : (8 * first + k) / 8 ≡ first + k / 8 = omega arith in
    let column : (8 * first + k) % 8 ≡ k % 8 = omega arith in
    rw (ap₂ (bit_in bytes) row column) (
      ground (
        arith,
        get_elem?-take (last - first + 1) (k / 8) (drop first bytes),
        get_elem?-drop first (k / 8) bytes,
      ))

length-take-le : (n : ℕ) (bytes : List ℕ) → length (take n bytes) ≤ n
length-take-le zero bytes = omega arith
length-take-le (suc n) [] = omega arith
length-take-le (suc n) (b ∷ bytes) = omega (arith, length-take-le n bytes)

ltb_shift : (u low n : ℕ) → low ≤ u → ltb (u - low) n ≡ ltb u (low + n)
ltb_shift u low n h = ground arith

ltb-suc : (u n : ℕ) → ltb u (suc n) ≡ leb u n
ltb-suc u n = ground arith

shifted :
    (start_uid end_uid u : ℕ) (bitmap : List ℕ)
    → (leb (start_uid + 8 * 0) u
        && bit_of (get_range (start_uid / 8) (end_uid / 8) bitmap) (u - (start_uid + 8 * 0)))
      ≡ (leb start_uid u
          && (ltb u (start_uid + 8 * (end_uid / 8 - start_uid / 8 + 1))
              && bit_of bitmap (u - start_uid % 8)))
shifted start_uid end_uid u bitmap = elim (Bool-cases (leb start_uid u)) [
  | inl above ↦
      let base : start_uid + 8 * 0 ≡ start_uid = omega arith in
      let order : start_uid ≤ u = leb→le _ _ above in
      let position : 8 * (start_uid / 8) + (u - start_uid) ≡ u - start_uid % 8 = omega arith in
      rw (base, above, bit_of-get_range (start_uid / 8) (end_uid / 8) (u - start_uid) bitmap)
        (rw (ap (bit_of bitmap) position) (
          ap (λ (c : Bool). c && bit_of bitmap (u - start_uid % 8))
            (ltb_shift u start_uid (8 * (end_uid / 8 - start_uid / 8 + 1)) order)))
  | inr below ↦ let base : start_uid + 8 * 0 ≡ start_uid = omega arith in rw (base, below)
]

-- The uids out of the bytes that GETRANGE gives out of a bitmap.
pub uids_to_send-range :
    (start_uid end_uid u : ℕ) (bitmap : List ℕ)
    → start_uid ≤ end_uid
    → end_uid + 16 ≤ 2 ^ 64
    → count u (uids_to_send start_uid 0 (get_range (start_uid / 8) (end_uid / 8) bitmap)) ≡ (
        if leb start_uid u
          && (ltb u (start_uid + 8 * (end_uid / 8 - start_uid / 8 + 1))
              && bit_of bitmap (u - start_uid % 8))
        then 1
        else 0)
uids_to_send-range start_uid end_uid u bitmap order w =
    let bytes = get_range (start_uid / 8) (end_uid / 8) bitmap in
    let few = length-take-le (end_uid / 8 - start_uid / 8 + 1) (drop (start_uid / 8) bitmap) in
    uids_to_send-count start_uid 0 bytes u (omega arith)
    ∙ ap (λ (b : Bool). let one : ℕ = 1 in if b then one else 0)
        (shifted start_uid end_uid u bitmap)

-- A chunk that starts at the first bit of a byte and ends at the last one of a byte goes to exactly
-- the users of the range whose bit is set, each once.
pub uids_to_send-aligned :
    (start_uid end_uid u : ℕ) (bitmap : List ℕ)
    → start_uid ≤ end_uid
    → end_uid + 16 ≤ 2 ^ 64
    → start_uid % 8 ≡ 0
    → end_uid % 8 ≡ 7
    → count u (uids_to_send start_uid 0 (get_range (start_uid / 8) (end_uid / 8) bitmap))
      ≡ (if leb start_uid u && (leb u end_uid && bit_of bitmap u) then 1 else 0)
uids_to_send-aligned start_uid end_uid u bitmap order w first last =
    let base : u - start_uid % 8 ≡ u = omega arith in
    let top : start_uid + 8 * (end_uid / 8 - start_uid / 8 + 1) ≡ suc end_uid = omega arith in
    let range : ltb u (start_uid + 8 * (end_uid / 8 - start_uid / 8 + 1)) ≡ leb u end_uid =
      rw top (ltb-suc u end_uid) in
    uids_to_send-range start_uid end_uid u bitmap order w
    ∙ ap₂
        (λ (inside b : Bool).
          let one : ℕ = 1 in if leb start_uid u && (inside && b) then one else 0)
        range (ap (bit_of bitmap) base)
