-- ===== src/Producer/Bitmap/Copied.antt =====
-- The uids of a chunk out of the bytes that `ProduceMsg` copies from the reply of GETRANGE.
use push_system.Common.{
  ℕ, zero, suc, ◌+◌, ◌-◌, ◌*◌, ◌/◌, ◌%◌, ◌^◌, ◌<◌, ◌≤◌, ◌≡◌, refl, ap, ◌∙◌, List, [], ◌∷◌, ◌&&◌,
  leb, ltb, if◌then◌else◌, arith, count, length, take, drop,
}
use push_system.Common.Word.{u64}
use push_system.Producer.Bitmap.{uids_to_send}
use push_system.Producer.Bitmap.Selected.{bit_of, get_range, uids_to_send-range}
use push_system.Producer.Prepare.{byte_count, loaded, copy_bytes}

pub take-take : (n : ℕ) (xs : List ℕ) → take n (take n xs) ≡ take n xs
take-take zero xs = refl
take-take (suc n) [] = refl
take-take (suc n) (x ∷ xs) = ap (λ rest. x ∷ rest) (take-take n xs)

length-take : (n : ℕ) (xs : List ℕ) → n ≤ length xs → length (take n xs) ≡ n
length-take zero xs l = refl
length-take (suc n) [] l = absurd (omega arith)
length-take (suc n) (x ∷ xs) l = ap suc (length-take n xs (omega arith))

length-drop : (n : ℕ) (xs : List ℕ) → length (drop n xs) ≡ length xs - n
length-drop zero xs = omega arith
length-drop (suc n) [] = omega arith
length-drop (suc n) (x ∷ xs) = length-drop n xs ∙ omega arith

-- Where the bitmap reaches to the end of the chunk, nothing beyond the reply is copied.
pub copy_bytes-get_range :
    (start_uid end_uid : ℕ) (bitmap : List ℕ)
    → start_uid ≤ end_uid
    → end_uid + 16 ≤ 2 ^ 64
    → end_uid / 8 < length bitmap
    → copy_bytes (byte_count start_uid end_uid) (get_range (start_uid / 8) (end_uid / 8) bitmap)
      ≡ loaded (get_range (start_uid / 8) (end_uid / 8) bitmap)
unfolding copy_bytes byte_count
copy_bytes-get_range start_uid end_uid bitmap order w inside =
    let first = start_uid / 8 in
    let n : u64 (end_uid / 8 + 2 ^ 64 - first + 1) ≡ end_uid / 8 - first + 1 = omega arith in
    let whole : length (get_range first (end_uid / 8) bitmap) ≡ end_uid / 8 - first + 1 =
      length-take (end_uid / 8 - first + 1) (drop first bitmap)
        (omega (arith, length-drop first bitmap)) in
    ground (arith, n, whole, take-take (end_uid / 8 - first + 1) (drop first bitmap))

-- If start_uid ≤ end_uid, end_uid + 16 ≤ 2⁶⁴ and the bitmap reaches to the byte of end_uid, then
-- the copy of the reply of GETRANGE stays inside it, and with the copied bytes, with n = end_uid /
-- 8 - start_uid / 8 + 1 of them, the chunk goes to the uid u once if u is one of the 8 * n uids
-- from start_uid on and the bit u - start_uid % 8 of the bitmap is set, and to no other uid: where
-- start_uid is no multiple of 8, each user is start_uid % 8 above its bit.
pub copy_bytes-uids_to_send :
    (start_uid end_uid : ℕ) (bitmap : List ℕ)
    → start_uid ≤ end_uid
    → end_uid + 16 ≤ 2 ^ 64
    → end_uid / 8 < length bitmap
    → (bytes : List ℕ) × (copy_bytes
          (byte_count start_uid end_uid)
          (get_range (start_uid / 8) (end_uid / 8) bitmap)
        ≡ loaded bytes)
      × ((u : ℕ)
          → count u (uids_to_send start_uid 0 bytes) ≡ (
              if leb start_uid u
                && (ltb u (start_uid + 8 * (end_uid / 8 - start_uid / 8 + 1))
                    && bit_of bitmap (u - start_uid % 8))
              then 1
              else 0))
copy_bytes-uids_to_send start_uid end_uid bitmap order w inside = (
  get_range (start_uid / 8) (end_uid / 8) bitmap,
  copy_bytes-get_range start_uid end_uid bitmap order w inside,
  λ u. uids_to_send-range start_uid end_uid u bitmap order w,
)
