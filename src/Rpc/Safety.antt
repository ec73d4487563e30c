-- ===== src/Rpc/Safety.antt =====
-- Each step keeps the objects alive that somebody holds.
use push_system.Common.{
  ℕ, ◌+◌, ◌≡◌, ◌<◌, refl, List, ◌∷◌, some, Bool, ◌==◌, arith, inl, inr, count, Takes, Option-cases,
  Bool-cases, ==_iff, Option,
}
use mathlib.Core.Path.{subst}
use push_system.Shared.{process, finish}
use push_system.StdMap.{
  find, adjust, erase, adjust-IsSorted, erase-IsSorted, find-adjust, find-erase,
}
use push_system.Rpc.{
  Handler, produce_msg_call, CallData, Server, set_status, request_call, new_call_data, proceed,
  finish_call, RpcStep, arrive, sent, gone, run, reply, notify, unlock, RpcReach, start, next,
}
use push_system.Rpc.Alive.{
  in_serving, held, Lives, count-Takes, serving-Takes, new_call_data-Lives, start_handlers-Lives,
}

-- The tags move on.
pub arrive-Lives :
    (tag : ℕ) (rest : List ℕ) (s : Server)
    → Takes tag s.waiting rest
    → Lives s
    → Lives (record s { waiting = rest; threads = tag ∷ s.threads })
arrive-Lives tag rest s taken l = record {
  sorted = l.sorted;
  fresh = l.fresh;
  once = λ j. omega (arith, l.once j, count-Takes j taken);
  by_status = λ j c e. ground (arith, l.by_status j c e, count-Takes j taken);
}

pub sent-Lives :
    (tag : ℕ) (rest : List ℕ) (s : Server)
    → Takes tag s.finishing rest
    → Lives s
    → Lives (record s { finishing = rest; threads = tag ∷ s.threads })
sent-Lives tag rest s taken l = record {
  sorted = l.sorted;
  fresh = l.fresh;
  once = λ j. omega (arith, l.once j, count-Takes j taken);
  by_status = λ j c e. ground (arith, l.by_status j c e, count-Takes j taken);
}

pub gone-Lives :
    (tag : ℕ) (rest : List ℕ) (s : Server)
    → Takes tag s.finishing rest
    → Lives s
    → Lives (record s { finishing = rest; objects = erase tag s.objects })
gone-Lives tag rest s taken l = record {
  sorted = erase-IsSorted tag s.objects l.sorted;
  fresh = λ j c e. l.fresh j c (ground (arith, find-erase j tag s.objects));
  once = λ j. ground (arith, l.once j, l.once tag, count-Takes j taken, find-erase j tag s.objects);
  by_status = λ j c e.
      let old : find j s.objects ≡ some c = ground (arith, find-erase j tag s.objects) in
      ground (arith, l.by_status j c old, count-Takes j taken);
}

-- A tag that is held is the address of an object.
pub held-alive :
    (tag : ℕ) (s : Server)
    → Lives s
    → 0 < held tag s
    → (c : CallData) × (find tag s.objects ≡ some c)
held-alive tag s l h = elim (Option-cases (find tag s.objects)) [
  | inl e ↦ absurd (ground (arith, l.once tag))
  | inr found ↦ found
]

-- An outcome that is defined and keeps the invariant.
abbrev pub Goes : Option Server → Type 0
Goes r = (t : Server) × (r ≡ some t) × Lives t

pub serving-Lives :
    (tag : ℕ) (c : CallData) (rest : List ℕ) (s : Server)
    → Takes tag s.threads rest
    → find tag s.objects ≡ some c
    → c.status ≡ process
    → Lives s
    → Lives (record s { threads = rest; serving = (tag, c.handler) ∷ s.serving })
serving-Lives tag c rest s taken e p l = record {
  sorted = l.sorted;
  fresh = l.fresh;
  once = λ j. omega (arith, l.once j, count-Takes j taken);
  by_status = λ j d q. elim (Bool-cases (tag == j)) [
    | inl this ↦
        let same : d.status ≡ process = ground (arith, ==_iff tag j) in
        ground (arith, l.by_status j d q)
    | inr other ↦ ground (arith, l.by_status j d q)
  ];
}

pub run-Goes :
    (tag : ℕ) (rest : List ℕ) (s : Server)
    → Takes tag s.threads rest
    → Lives s
    → Goes (proceed tag (record s { threads = rest }))
unfolding proceed
run-Goes tag rest s taken l =
    let counted = count-Takes tag taken in
    let (c, e) = held-alive tag s l (ground (arith, counted)) in
    elim (l.by_status tag c e) [
      | inl a ↦
          let next = record s { threads = rest; serving = (tag, c.handler) ∷ s.serving } in
          (
            new_call_data c.handler next,
            rw (e, proceed) (rw a.0 (unfold new_call_data request_call set_status in refl)),
            new_call_data-Lives c.handler next (serving-Lives tag c rest s taken e a.0 l),
          )
      | inr a ↦ (
        record s { threads = rest; objects = erase tag s.objects },
        rw (e, proceed) (rw a.0 refl),
        ended tag rest s taken l,
      )
    ]
  where
    ended :
        (tag : ℕ) (rest : List ℕ) (s : Server)
        → Takes tag s.threads rest
        → Lives s
        → Lives (record s { threads = rest; objects = erase tag s.objects })
    ended tag rest s taken l = record {
      sorted = erase-IsSorted tag s.objects l.sorted;
      fresh = λ j c e. l.fresh j c (ground (arith, find-erase j tag s.objects));
      once = λ j.
          ground (arith, l.once j, l.once tag, count-Takes j taken, find-erase j tag s.objects);
      by_status = λ j c e.
          let old : find j s.objects ≡ some c = ground (arith, find-erase j tag s.objects) in
          l.by_status j c old;
    }

-- The end of a handler; `unlocking` is free.
pub finish_call-Goes :
    (tag : ℕ) (handler : Handler) (rest : List (ℕ × Handler)) (locked : List ℕ) (s : Server)
    → Takes (tag, handler) s.serving rest
    → Lives s
    → Goes (finish_call tag (record s { serving = rest; unlocking = locked }))
unfolding finish_call set_status
finish_call-Goes tag handler rest locked s taken l =
    let counted = serving-Takes tag taken in
    let (c, e) = held-alive tag s l (ground (arith, counted)) in
    (
      record s {
        objects = adjust tag (λ c. record c { status = finish }) s.objects;
        serving = rest;
        unlocking = locked;
        finishing = tag ∷ s.finishing;
      },
      rw (e, finish_call) refl,
      record {
        sorted = adjust-IsSorted tag _ s.objects l.sorted;
        fresh = λ j d q. elim (Option-cases (find j s.objects)) [
          | inl out ↦ absurd (ground (arith, find-adjust j tag ends s.objects))
          | inr (o, found) ↦ l.fresh j o found
        ];
        once =
            λ j. ground (arith, l.once j, serving-Takes j taken, find-adjust j tag ends s.objects);
        by_status = λ j d q. elim (Option-cases (find j s.objects)) [
          | inl out ↦ absurd (ground (arith, find-adjust j tag ends s.objects))
          | inr (o, found) ↦ ground (
            arith,
            l.by_status j o found,
            l.once j,
            serving-Takes j taken,
            find-adjust j tag ends s.objects,
          )
        ];
      },
    )
  where
    ends : CallData → CallData
    ends c = record c { status = finish }

-- The steps, as far as they go, keep it.
pub RpcStep-Lives : {deletes : Bool} {s t : Server} → RpcStep deletes s t → Lives s → Lives t
RpcStep-Lives {s} (arrive {tag} {rest} taken) l = arrive-Lives tag rest s taken l
RpcStep-Lives {s} (sent {tag} {rest} taken) l = sent-Lives tag rest s taken l
RpcStep-Lives {s} (gone {tag} {rest} _ taken) l = gone-Lives tag rest s taken l
RpcStep-Lives {s} (run {tag} {rest} {t} taken e) l =
    let made = run-Goes tag rest s taken l in
    let same : made.0 ≡ t = ground (arith, made.1) in subst Lives same made.2
RpcStep-Lives {s} (reply {tag} {handler} {rest} {t} taken e) l =
    let made = finish_call-Goes tag handler rest s.unlocking s taken l in
    let same : made.0 ≡ t = ground (arith, made.1) in subst Lives same made.2
RpcStep-Lives {s} (notify {tag} {rest} {t} taken e) l =
    let made = finish_call-Goes tag produce_msg_call rest (tag ∷ s.unlocking) s taken l in
    let same : made.0 ≡ t = ground (arith, made.1) in subst Lives same made.2
RpcStep-Lives {s} (unlock taken) l = record {
  sorted = l.sorted;
  fresh = l.fresh;
  once = l.once;
  by_status = l.by_status;
}

pub RpcReach-Lives :
    {deletes : Bool} {handlers : List Handler} {s : Server} → RpcReach deletes handlers s → Lives s
RpcReach-Lives {handlers = handlers} start = start_handlers-Lives handlers
RpcReach-Lives (next r st) = RpcStep-Lives st (RpcReach-Lives r)

-- In every state that the gRPC part of the daemon, the consumer or the producer can reach, with
-- requests, replies, handlers and the ends of NotifyOne in any order, and in the producer with
-- clients that go away, a thread in front of Proceed finds its object alive, so that Proceed is
-- defined, and neither the completion queue nor another thread has the tag.
pub RpcReach-proceed :
    {deletes : Bool} {handlers : List Handler} {s : Server}
    → RpcReach deletes handlers s
    → (tag : ℕ) (rest : List ℕ) → Takes tag s.threads rest
    → (t : Server) × (proceed tag (record s { threads = rest }) ≡ some t)
      × (count tag rest + count tag s.waiting + count tag s.finishing + in_serving tag s.serving
          ≡ 0)
RpcReach-proceed {s} r tag rest taken =
    let l = RpcReach-Lives r in
    let made = run-Goes tag rest s taken l in
    (made.0, made.1, ground (arith, l.once tag, count-Takes tag taken))

-- In every such state a handler that has made its successor, and may still have to answer, finds
-- its object alive when it calls responder_.Finish, and neither the completion queue nor another
-- thread has the tag: no object is deleted before its answer, and none is answered twice.
pub RpcReach-finish_call :
    {deletes : Bool} {handlers : List Handler} {s : Server}
    → RpcReach deletes handlers s
    → (tag : ℕ) (handler : Handler) (rest : List (ℕ × Handler)) (locked : List ℕ)
    → Takes (tag, handler) s.serving rest
    → (t : Server) × (finish_call tag (record s { serving = rest; unlocking = locked }) ≡ some t)
      × (in_serving tag rest + count tag s.waiting + count tag s.finishing + count tag s.threads
          ≡ 0)
RpcReach-finish_call {s} r tag handler rest locked taken =
    let l = RpcReach-Lives r in
    let made = finish_call-Goes tag handler rest locked s taken l in
    (made.0, made.1, ground (arith, l.once tag, serving-Takes tag taken))
