-- ===== src/Producer/Bitmap.antt =====
-- The uids of a chunk, out of the bytes that Redis returned (`ProduceMsgCallData::ProduceMsg`).
pub mod Selected
pub mod Copied
use push_system.Common.{
  ℕ, zero, suc, ◌+◌, ◌-◌, ◌*◌, ◌/◌, ◌%◌, ◌^◌, List, [], ◌∷◌, ◌++◌, Bool, ◌==◌, if◌then◌else◌,
}
use push_system.Common.Word.{u64}

abbrev pub bits_per_byte : ℕ
bits_per_byte = 8

-- `byte & (1 << (7 - j))`: the bits of a byte count from its high end.
unfoldable pub bit_at : ℕ → ℕ → Bool
bit_at byte j = byte / 2 ^ (7 - j) % 2 == 1

-- The inner loop, with `left` bits to go.
unfoldable pub byte_uids : (left : ℕ) → (start_uid i byte : ℕ) → List ℕ
byte_uids zero start_uid i byte = []
byte_uids (suc left) start_uid i byte =
    let j = bits_per_byte - suc left in
    let rest = byte_uids left start_uid i byte in
    if bit_at byte j then u64 (start_uid + bits_per_byte * i + j) ∷ rest else rest

-- The outer loop, from the byte number `i` on.
unfoldable pub uids_to_send : (start_uid i : ℕ) → List ℕ → List ℕ
uids_to_send start_uid i [] = []
uids_to_send start_uid i (byte ∷ bytes) =
    byte_uids bits_per_byte start_uid i byte ++ uids_to_send start_uid (i + 1) bytes
