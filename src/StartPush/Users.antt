-- ===== src/StartPush/Users.antt =====
-- The users of a whole push: the chunks of the daemon, each with the bytes that its producer copies
-- from the reply of GETRANGE.
use push_system.Common.{
  ℕ, zero, suc, ◌+◌, ◌-◌, ◌*◌, ◌/◌, ◌%◌, ◌^◌, ◌<◌, ◌≤◌, ◌≡◌, refl, List, [], ◌∷◌, ◌++◌, Option,
  none, some, ◌>>=◌, ◌&&◌, ◌==◌, leb, ltb, if◌then◌else◌, arith, total-append, length, count, inl,
  inr, Bool-cases, ◌∙◌,
}
use mathlib.Core.Path.{ap₂}
use push_system.Daemon.State.{ProduceMsgRequest}
use push_system.Daemon.Dispatch.Rounds.{rounds, plan, chunk_count, rounds-plan}
use push_system.Producer.Prepare.{byte_count, failed, loaded, overread, copy_bytes}
use push_system.Producer.Bitmap.{uids_to_send}
use push_system.Producer.Bitmap.Selected.{bit_of, get_range}
use push_system.Producer.Bitmap.Copied.{copy_bytes-uids_to_send}

-- The uids of a chunk; none where bytes beyond the reply are copied.
abbrev pub chunk_uids : (bitmap : List ℕ) → ProduceMsgRequest → Option (List ℕ)
chunk_uids bitmap c =
    elim (copy_bytes (byte_count c.start_uid c.end_uid)
      (get_range (c.start_uid / 8) (c.end_uid / 8) bitmap)) [
        | failed ↦ none
        | loaded bytes ↦ some (uids_to_send c.start_uid 0 bytes)
        | overread ↦ none
      ]

abbrev pub push_uids : (bitmap : List ℕ) → List ProduceMsgRequest → Option (List ℕ)
push_uids bitmap [] = some []
push_uids bitmap (c ∷ chunks) =
    chunk_uids bitmap c >>= λ uids. push_uids bitmap chunks >>= λ rest. some (uids ++ rest)

-- A chunk that starts with a byte.
chunk_uids_lem :
    (bitmap : List ℕ) (c : ProduceMsgRequest)
    → c.start_uid ≤ c.end_uid
    → c.end_uid + 16 ≤ 2 ^ 64
    → c.start_uid % 8 ≡ 0
    → c.end_uid / 8 < length bitmap
    → (uids : List ℕ) × (chunk_uids bitmap c ≡ some uids)
      × ((u : ℕ)
          → count u uids ≡ (
              if leb c.start_uid u && (ltb u (8 * (c.end_uid / 8) + 8) && bit_of bitmap u)
              then 1
              else 0))
chunk_uids_lem bitmap c order w first inside =
    let (bytes, copied, counts) =
      copy_bytes-uids_to_send c.start_uid c.end_uid bitmap order w inside in
    let top : c.start_uid + 8 * (c.end_uid / 8 - c.start_uid / 8 + 1) ≡ 8 * (c.end_uid / 8) + 8 =
      omega arith in
    (
      uids_to_send c.start_uid 0 bytes,
      rw (copied, chunk_uids) refl,
      λ u.
          let base : u - c.start_uid % 8 ≡ u = omega arith in
          counts u
          ∙ ap₂
              (λ (end v : ℕ).
                let one : ℕ = 1 in
                if leb c.start_uid u && (ltb u end && bit_of bitmap v) then one else 0)
              top base,
    )

plan-uids :
    (bitmap : List ℕ) (n cur : ℕ) (request : ProduceMsgRequest)
    → n ≡ chunk_count request cur
    → request.end_uid + 4096 < 2 ^ 64
    → cur % 8 ≡ 0
    → request.end_uid / 8 < length bitmap
    → (uids : List ℕ) × (push_uids bitmap (plan n request cur) ≡ some uids)
      × ((u : ℕ)
          → count u uids ≡ (
              if leb cur u && (ltb u (8 * (request.end_uid / 8) + 8) && bit_of bitmap u)
              then 1
              else 0))
plan-uids bitmap zero cur request e w a inside = ([], refl, λ u. ground arith)
plan-uids bitmap (suc n) cur request e w a inside =
    let (rest, said, others) =
      plan-uids bitmap n (cur + 4096) request (omega (arith, e)) w (omega arith) inside in
    elim (Bool-cases (leb (cur + 4095) request.end_uid)) [
      | inl full ↦
          let (uids, got, counts) =
            chunk_uids_lem bitmap (record request { start_uid = cur; end_uid = cur + 4095 })
              (omega arith) (ground arith) a (ground arith) in
          (
            uids ++ rest,
            rw full (rw got (rw said refl)),
            λ u. ground (
              arith,
              counts u,
              others u,
              total-append (λ (x : ℕ). if x == u then 1 else 0) uids rest,
            ),
          )
      | inr short ↦
          let (uids, got, counts) =
            chunk_uids_lem bitmap (record request { start_uid = cur }) (ground arith) (omega arith)
              a inside in
          (
            uids ++ rest,
            rw short (rw got (rw said refl)),
            λ u. ground (
              arith,
              counts u,
              others u,
              total-append (λ (x : ℕ). if x == u then 1 else 0) uids rest,
            ),
          )
    ]

-- For a push whose start is a multiple of 8 and whose end is more than 4096 below 2⁶⁴, and a
-- bitmap that reaches to the byte that the end stands in, the loop of SelectProducerAndSend, when
-- no round has to wait, ends, no chunk copies bytes beyond the reply of GETRANGE out of the
-- bitmap, and all chunks together go to the user u once if u is not below the start of the push,
-- not beyond the byte that its end stands in, and has its bit set, and otherwise not at all.
pub rounds-users :
    (bitmap : List ℕ) (request : ProduceMsgRequest)
    → request.end_uid + 4096 < 2 ^ 64
    → request.start_uid % 8 ≡ 0
    → request.end_uid / 8 < length bitmap
    → (chunks : List ProduceMsgRequest) × (uids : List ℕ) × (rounds
          (suc (chunk_count request request.start_uid))
          request
          request.start_uid
        ≡ some chunks)
      × (push_uids bitmap chunks ≡ some uids)
      × ((u : ℕ)
          → count u uids ≡ (
              if leb request.start_uid u
                && (ltb u (8 * (request.end_uid / 8) + 8) && bit_of bitmap u)
              then 1
              else 0))
rounds-users bitmap request w a inside =
    let (uids, said, counts) =
      plan-uids bitmap (chunk_count request request.start_uid) request.start_uid request refl w a
        inside in
    (
      plan (chunk_count request request.start_uid) request request.start_uid,
      uids,
      rounds-plan _ request request.start_uid w (omega arith),
      said,
      counts,
    )
