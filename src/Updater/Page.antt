-- ===== src/Updater/Page.antt =====
-- The (sub)bitmap of the uids of one query (`UpdateUserInfo`).
pub mod Bits
use push_system.Common.{
  ℕ, zero, suc, ◌+◌, ◌-◌, ◌/◌, ◌%◌, ◌^◌, List, [], ◌∷◌, Option, none, some, ◌>>=◌, if◌then◌else◌,
  replicate,
}
use push_system.Common.Word.{u64}
use push_system.Producer.Bitmap.{bit_at}

abbrev pub counts_per_loop : ℕ
counts_per_loop = 10240

-- `byte |= 1 << (7 - j)`
unfoldable pub or_bit : ℕ → ℕ → ℕ
or_bit byte j = if bit_at byte j then byte else byte + 2 ^ (7 - j)

-- `bitmap[i] |= 1 << (7 - j)`; none beyond the end.
unfoldable pub set_bit : (i j : ℕ) → List ℕ → Option (List ℕ)
set_bit i j [] = none
set_bit zero j (byte ∷ bytes) = some (or_bit byte j ∷ bytes)
set_bit (suc i) j (byte ∷ bytes) = set_bit i j bytes >>= λ rest. some (byte ∷ rest)

-- The loop over the rows.
unfoldable pub fill : (uid : ℕ) → (rows bitmap : List ℕ) → Option (List ℕ)
fill uid [] bitmap = some bitmap
fill uid (row ∷ rows) bitmap =
    let offset = u64 (row + 2 ^ 64 - uid) in
    set_bit (offset / 8) (offset % 8) bitmap >>= λ next. fill uid rows next

unfoldable pub page_bitmap : (uid : ℕ) → (rows : List ℕ) → Option (List ℕ)
page_bitmap uid rows = fill uid rows (replicate (counts_per_loop / 8) 0)
