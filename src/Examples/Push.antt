-- ===== src/Examples/Push.antt =====
-- The push of startPush, and one of two chunks over a bitmap that holds uid 1.
use push_system.Common.{
  ℕ, suc, ◌+◌, ◌*◌, ◌/◌, ◌≡◌, refl, List, ◌∷◌, some, ◌&&◌, leb, ltb, if◌then◌else◌, arith, count,
  replicate,
}
use push_system.Daemon.State.{ProduceMsgRequest}
use push_system.Daemon.Dispatch.Rounds.{rounds, chunk_count}
use push_system.Producer.Bitmap.Selected.{bit_of}
use push_system.StartPush.{begin_push_request}
use push_system.StartPush.Users.{push_uids, rounds-users}

-- The push of startPush is cut into 48829 chunks.
begin_push_request-chunk_count : chunk_count begin_push_request 0 ≡ 48829
begin_push_request-chunk_count = refl

abbrev two_chunks : ProduceMsgRequest
two_chunks = record { msg_id = 123456; start_uid = 0; end_uid = 4100 }

-- 513 bytes, up to the one of the end of the push.
abbrev long_bitmap : List ℕ
long_bitmap = 64 ∷ replicate 512 0

rounds-users_example :
    (chunks : List ProduceMsgRequest) × (uids : List ℕ) × (rounds
        (suc (chunk_count two_chunks 0))
        two_chunks
        0
      ≡ some chunks)
    × (push_uids long_bitmap chunks ≡ some uids)
    × ((u : ℕ)
        → count u uids
          ≡ (if leb 0 u && (ltb u (8 * (4100 / 8) + 8) && bit_of long_bitmap u) then 1 else 0))
rounds-users_example = rounds-users long_bitmap two_chunks (omega arith) refl (omega arith)
