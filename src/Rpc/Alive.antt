-- ===== src/Rpc/Alive.antt =====
-- The objects of the calls and their tags: each object's tag is in one place.
use push_system.Common.{
  ℕ, suc, ◌+◌, ◌≡◌, ◌<◌, refl, List, [], ◌∷◌, none, some, true, ◌==◌, arith, inl, inr, ◌⊎◌,
  if◌then◌else◌, count, total, Takes, total-Takes, Option-cases, Bool-cases,
}
use push_system.Shared.{create, process, finish}
use push_system.StdMap.{
  find, has, assign, IsSorted, assign-IsSorted, adjust-IsSorted, find-assign, find-adjust,
}
use push_system.Rpc.{
  Handler, CallData, Server, no_calls, set_status, request_call, new_call_data, start_handlers,
}

-- How often a tag is with the queue or a thread.
abbrev pub in_serving : ℕ → List (ℕ × Handler) → ℕ
in_serving tag = total (λ e. if e.0 == tag then 1 else 0)

abbrev pub held : ℕ → Server → ℕ
held tag s =
    count tag s.waiting + count tag s.finishing + (count tag s.threads + in_serving tag s.serving)

pub count-Takes :
    (j : ℕ) {tag : ℕ} {tags rest : List ℕ}
    → Takes tag tags rest
    → count j tags ≡ (if tag == j then 1 else 0) + count j rest
count-Takes j taken = total-Takes (λ (x : ℕ). if x == j then 1 else 0) taken

pub serving-Takes :
    (j : ℕ) {tag : ℕ} {handler : Handler} {calls rest : List (ℕ × Handler)}
    → Takes (tag, handler) calls rest
    → in_serving j calls ≡ (if tag == j then 1 else 0) + in_serving j rest
serving-Takes j taken = total-Takes (λ (e : ℕ × Handler). if e.0 == j then 1 else 0) taken

pub record Lives (s : Server) : Type 0 where
  pub sorted : IsSorted s.objects
  pub fresh : (tag : ℕ) (c : CallData) → find tag s.objects ≡ some c → tag < s.next_address
  pub once : (tag : ℕ) → held tag s ≡ (if has tag s.objects then 1 else 0)
  pub by_status :
      (tag : ℕ) (c : CallData)
      → find tag s.objects ≡ some c
      → ((c.status ≡ process) × (count tag s.finishing ≡ 0))
        ⊎ ((c.status ≡ finish) × (count tag s.waiting ≡ 0) × (in_serving tag s.serving ≡ 0))

no_calls-Lives : Lives no_calls
unfolding find
no_calls-Lives = record {
  sorted = tt;
  fresh = λ tag c e. absurd (ground arith);
  once = λ tag. refl;
  by_status = λ tag c e. absurd (ground arith);
}

pub find-new_call_data :
    (j : ℕ) (handler : Handler) (s : Server)
    → find j (new_call_data handler s).objects ≡ (
        if s.next_address == j
        then some (record { handler = handler; status = process })
        else find j s.objects)
unfolding new_call_data request_call set_status
find-new_call_data j handler s =
    let this = s.next_address in
    let made : CallData = record { handler = handler; status = create } in
    ground (
      arith,
      find-adjust j this (λ (c : CallData). record c { status = process })
          (assign this made s.objects),
      find-assign j this made s.objects,
    )

pub new_call_data-IsSorted :
    (handler : Handler) (s : Server)
    → IsSorted s.objects
    → IsSorted (new_call_data handler s).objects
unfolding new_call_data request_call set_status
new_call_data-IsSorted handler s h =
    adjust-IsSorted s.next_address _ _ (assign-IsSorted s.next_address _ s.objects h)

-- What `new` adds besides the object.
pub record NewTag (s t : Server) : Type 0 where
  pub waiting : t.waiting ≡ s.next_address ∷ s.waiting
  pub finishing : t.finishing ≡ s.finishing
  pub threads : t.threads ≡ s.threads
  pub serving : t.serving ≡ s.serving
  pub next_address : t.next_address ≡ suc s.next_address

pub new_call_data-NewTag : (handler : Handler) (s : Server) → NewTag s (new_call_data handler s)
unfolding new_call_data request_call set_status
new_call_data-NewTag handler s = record {
  waiting = refl;
  finishing = refl;
  threads = refl;
  serving = refl;
  next_address = refl;
}

pub unused_address :
    (tag : ℕ) (s : Server) → Lives s → (s.next_address == tag) ≡ true → find tag s.objects ≡ none
unused_address tag s l h = elim (Option-cases (find tag s.objects)) [
  | inl e ↦ e
  | inr (c, e) ↦ absurd (ground (arith, l.fresh tag c e))
]

pub new_call_data-Lives :
    (handler : Handler) (s : Server) → Lives s → Lives (new_call_data handler s)
new_call_data-Lives handler s l =
    let n = new_call_data-NewTag handler s in
    record {
      sorted = new_call_data-IsSorted handler s l.sorted;
      fresh = λ tag c e. elim (Option-cases (find tag s.objects)) [
        | inl q ↦ ground (arith, find-new_call_data tag handler s, n.next_address)
        | inr (d, q) ↦ ground (arith, l.fresh tag d q, n.next_address)
      ];
      once = λ tag. elim (Option-cases (find tag s.objects)) [
        | inl q ↦
            rw (n.waiting, n.finishing, n.threads, n.serving)
              (ground (arith, find-new_call_data tag handler s, l.once tag))
        | inr (d, q) ↦
            rw (n.waiting, n.finishing, n.threads, n.serving)
              (ground (arith, find-new_call_data tag handler s, l.once tag, l.fresh tag d q))
      ];
      by_status = λ tag c e. elim (Bool-cases (s.next_address == tag)) [
        | inl this ↦
            let unused = unused_address tag s l this in
            inl (
              ground (arith, find-new_call_data tag handler s),
              rw n.finishing (ground (arith, l.once tag, unused)),
            )
        | inr other ↦
            let old : find tag s.objects ≡ some c =
              ground (arith, find-new_call_data tag handler s) in
            rw (n.waiting, n.finishing, n.serving) (ground (arith, l.by_status tag c old))
      ];
    }

pub start_handlers-Lives : (handlers : List Handler) → Lives (start_handlers handlers)
unfolding start_handlers
start_handlers-Lives [] = no_calls-Lives
start_handlers-Lives (handler ∷ handlers) =
    new_call_data-Lives handler (start_handlers handlers) (start_handlers-Lives handlers)
