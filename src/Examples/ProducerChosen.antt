-- ===== src/Examples/ProducerChosen.antt =====
-- A chunk of eight uids over three release keys.
use push_system.Common.{◌≡◌, refl, [], ◌∷◌, ◌&&◌, leb, if◌then◌else◌, arith, count, codes}
use push_system.Common.Int.{pos}
use push_system.Shared.{gen_release_key}
use push_system.Redis.{ReplyKind, Reply}
use push_system.Producer.Bitmap.{bit_at, uids_to_send}
use push_system.Producer.Prepare.{load_user_info, copy_bytes, byte_count}
use push_system.Producer.Chosen.{chosen, fans_key, uids_to_send-chosen}
use push_system.Examples.Store.{Store, put, store_redis, store-Strings}

-- Uid 1 is in all three, uid 0 in one.
abbrev pub three : Store
three = put fans_key (64 ∷ []) (
    put (gen_release_key (codes "MONTH_ACTIVE_USER_")) (64 ∷ [])
      (put (gen_release_key (codes "PUSH_SWITCH_OPENED_")) (192 ∷ []) (λ key. [])))

abbrev pub not_found : Reply
not_found = record { kind = ReplyKind.other; integer = pos 0; str = [] }

uids_to_send-chosen_example :
    count 1 (uids_to_send 0 0 (64 ∷ []))
    ≡ (if leb 0 1 && (leb 1 7 && chosen {R = Store} (λ s. s) not_found three 1) then 1 else 0)
unfolding load_user_info copy_bytes byte_count gen_release_key bit_at
uids_to_send-chosen_example =
    uids_to_send-chosen store_redis (λ s. s) store-Strings 0 7 1 three not_found (64 ∷ [])
      (omega arith) (omega arith) refl refl refl refl
