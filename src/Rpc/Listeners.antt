-- ===== src/Rpc/Listeners.antt =====
-- Each handler always has one object that listens, and no object is forgotten.
use push_system.Common.{
  ℕ, suc, ◌+◌, ◌≡◌, refl, sym, ◌∙◌, List, [], ◌∷◌, some, Bool, ◌==◌, arith, inl, inr, if◌then◌else◌,
  total, length, Takes, length-Takes,
}
use mathlib.Core.Path.{subst}
use push_system.Shared.{create, process, finish}
use push_system.StdMap.{
  find, assign, adjust, erase, find-assign, total-assign, total-adjust, total-erase, total-change,
  length-total,
}
use push_system.Rpc.{
  Handler, produce_msg_call, CallData, Server, set_status, request_call, new_call_data, proceed,
  finish_call, start_handlers, RpcStep, arrive, sent, gone, run, reply, notify, unlock, RpcReach,
  start, next,
}
use push_system.Rpc.Alive.{
  in_serving, Lives, count-Takes, serving-Takes, unused_address, start_handlers-Lives,
  new_call_data-NewTag,
}
use push_system.Rpc.Safety.{held-alive, RpcReach-Lives, serving-Lives}

some-injective : {A : Type 0} {a b : A} → some a ≡ some b → a ≡ b
some-injective e = ground arith

-- What an object counts: the weight of its handler while it waits for a request, or has one and has
-- not made its successor.
abbrev pub listens : (Handler → ℕ) → List (ℕ × Handler) → ℕ × CallData → ℕ
listens w serving e = elim e.1.status [
  | create ↦ 0
  | process ↦ if in_serving e.0 serving == 0 then w e.1.handler else 0
  | finish ↦ 0
]

record Listens (w : Handler → ℕ) (base : ℕ) (s : Server) : Type 0 where
  listening : total (listens w s.serving) s.objects ≡ base
  counted :
      total (λ _. 1) s.objects
      ≡ length s.waiting + length s.finishing + (length s.threads + length s.serving)

new_call_data-total :
    (g : ℕ × CallData → ℕ) (handler : Handler) (s : Server)
    → Lives s
    → total g (new_call_data handler s).objects
      ≡ g (s.next_address, record { handler = handler; status = process }) + total g s.objects
unfolding new_call_data request_call set_status
new_call_data-total g handler s l =
    let this = s.next_address in
    let made : CallData = record { handler = handler; status = create } in
    let out = unused_address this s l (ground arith) in
    omega (
      arith,
      total-assign g this made s.objects out,
      total-adjust g this (λ (c : CallData). record c { status = process }) made
          (assign this made s.objects) (ground (arith, find-assign this this made s.objects)),
    )

new_call_data-Listens :
    (w : Handler → ℕ) (base : ℕ) (handler : Handler) (s : Server)
    → Lives s
    → Listens w base s
    → Listens w (w handler + base) (new_call_data handler s)
new_call_data-Listens w base handler s l h =
    let n = new_call_data-NewTag handler s in
    let out = unused_address s.next_address s l (ground arith) in
    record {
      listening = rw n.serving (
          ground (
            arith,
            new_call_data-total (listens w s.serving) handler s l,
            h.listening,
            l.once s.next_address,
            out,
          ));
      counted =
          rw (n.waiting, n.finishing, n.threads, n.serving)
            (omega (arith, new_call_data-total (λ _. 1) handler s l, h.counted));
    }

start_handlers-Listens :
    (w : Handler → ℕ) (handlers : List Handler)
    → Listens w (total w handlers) (start_handlers handlers)
unfolding start_handlers
start_handlers-Listens w [] = record { listening = refl; counted = refl }
start_handlers-Listens w (handler ∷ handlers) =
    new_call_data-Listens w (total w handlers) handler (start_handlers handlers)
      (start_handlers-Lives handlers) (start_handlers-Listens w handlers)

-- An object in FINISH goes.
erase-Listens :
    (w : Handler → ℕ) (tag : ℕ) (s : Server)
    → Lives s
    → (c : CallData) → find tag s.objects ≡ some c
    → c.status ≡ finish
    → (total (listens w s.serving) (erase tag s.objects) ≡ total (listens w s.serving) s.objects)
      × (suc (total (λ _. 1) (erase tag s.objects)) ≡ total (λ _. 1) s.objects)
erase-Listens w tag s l c e f = (
  ground (arith, total-erase (listens w s.serving) tag c s.objects l.sorted e),
  omega (arith, total-erase (λ (_ : ℕ × CallData). 1) tag c s.objects l.sorted e),
)

-- A thread begins to serve.
serving-Listens :
    (w : Handler → ℕ) (base tag : ℕ) (c : CallData) (rest : List ℕ) (s : Server)
    → Takes tag s.threads rest
    → find tag s.objects ≡ some c
    → c.status ≡ process
    → Lives s
    → Listens w base s
    → (b : ℕ) × (w c.handler + b ≡ base)
      × Listens w b (record s { threads = rest; serving = (tag, c.handler) ∷ s.serving })
serving-Listens w base tag c rest s taken e p l h =
    let moved =
      total-change (listens w s.serving) (listens w ((tag, c.handler) ∷ s.serving)) tag c s.objects
        l.sorted e (λ j d other. ground arith) in
    let idle : in_serving tag s.serving ≡ 0 = ground (arith, l.once tag, count-Takes tag taken) in
    (
      total (listens w ((tag, c.handler) ∷ s.serving)) s.objects,
      ground (arith, moved, idle, h.listening),
      record { listening = refl; counted = omega (arith, h.counted, length-Takes taken) },
    )

runs-process :
    (tag : ℕ) (c : CallData) (rest : List ℕ) (s : Server)
    → find tag s.objects ≡ some c
    → c.status ≡ process
    → proceed tag (record s { threads = rest })
      ≡ some (
          new_call_data c.handler
            (record s { threads = rest; serving = (tag, c.handler) ∷ s.serving }))
unfolding proceed new_call_data request_call set_status
runs-process tag c rest s e p = rw (e, proceed) (rw p refl)

pub runs-finish :
    (tag : ℕ) (c : CallData) (rest : List ℕ) (s : Server)
    → find tag s.objects ≡ some c
    → c.status ≡ finish
    → proceed tag (record s { threads = rest })
      ≡ some (record s { threads = rest; objects = erase tag s.objects })
unfolding proceed
runs-finish tag c rest s e p = rw (e, proceed) (rw p refl)

run-Listens :
    (w : Handler → ℕ) (base tag : ℕ) (rest : List ℕ) (s t : Server)
    → Takes tag s.threads rest
    → proceed tag (record s { threads = rest }) ≡ some t
    → Lives s
    → Listens w base s
    → Listens w base t
run-Listens w base tag rest s t taken e l h =
    let (c, found) = held-alive tag s l (ground (arith, count-Takes tag taken)) in
    elim (l.by_status tag c found) [
      | inl a ↦
          let next = record s { threads = rest; serving = (tag, c.handler) ∷ s.serving } in
          let served = serving-Listens w base tag c rest s taken found a.0 l h in
          let made =
            new_call_data-Listens w served.0 c.handler next
              (serving-Lives tag c rest s taken found a.0 l) served.2 in
          let same : new_call_data c.handler next ≡ t =
            some-injective (sym (runs-process tag c rest s found a.0) ∙ e) in
          subst (Listens w base) same
            (subst (λ b. Listens w b (new_call_data c.handler next)) served.1 made)
      | inr a ↦
          let ended = erase-Listens w tag s l c found a.0 in
          let same : record s { threads = rest; objects = erase tag s.objects } ≡ t =
            some-injective (sym (runs-finish tag c rest s found a.0) ∙ e) in
          subst (Listens w base) same (record {
            listening = ended.0 ∙ h.listening;
            counted = omega (arith, ended.1, h.counted, length-Takes taken);
          })
    ]

finish_call-Listens :
    (w : Handler → ℕ) (base tag : ℕ) (handler : Handler) (rest : List (ℕ × Handler))
    (locked : List ℕ) (s t : Server)
    → Takes (tag, handler) s.serving rest
    → finish_call tag (record s { serving = rest; unlocking = locked }) ≡ some t
    → Lives s
    → Listens w base s
    → Listens w base t
unfolding finish_call set_status
finish_call-Listens w base tag handler rest locked s t taken e l h =
    let (c, found) = held-alive tag s l (ground (arith, serving-Takes tag taken)) in
    let ends : CallData → CallData = λ c. record c { status = finish } in
    let same : record s {
      objects = adjust tag ends s.objects;
      serving = rest;
      unlocking = locked;
      finishing = tag ∷ s.finishing;
    }
        ≡ t =
      ground arith in
    let moved =
      total-change (listens w s.serving) (listens w rest) tag c s.objects l.sorted found
        (λ j d other. ground (arith, serving-Takes j taken)) in
    subst (Listens w base) same (record {
      listening = ground (
        arith,
        moved,
        total-adjust (listens w rest) tag ends c s.objects found,
        h.listening,
        serving-Takes tag taken,
        l.by_status tag c found,
      );
      counted = omega (
        arith,
        h.counted,
        length-Takes taken,
        total-adjust (λ (_ : ℕ × CallData). 1) tag ends c s.objects found,
      );
    })

RpcStep-Listens :
    (w : Handler → ℕ) (base : ℕ) {deletes : Bool} {s t : Server}
    → RpcStep deletes s t
    → Lives s
    → Listens w base s
    → Listens w base t
RpcStep-Listens w base (arrive taken) l h = record {
  listening = h.listening;
  counted = omega (arith, h.counted, length-Takes taken);
}
RpcStep-Listens w base (sent taken) l h = record {
  listening = h.listening;
  counted = omega (arith, h.counted, length-Takes taken);
}
RpcStep-Listens w base {s = s} (gone {tag} _ taken) l h =
    let counted = count-Takes tag taken in
    let (c, found) = held-alive tag s l (ground (arith, counted)) in
    let ended =
      erase-Listens w tag s l c found (ground (arith, counted, l.by_status tag c found)) in
    record {
      listening = ended.0 ∙ h.listening;
      counted = omega (arith, ended.1, h.counted, length-Takes taken);
    }
RpcStep-Listens w base {s = s} (run {tag} {rest} {t} taken e) l h =
    run-Listens w base tag rest s t taken e l h
RpcStep-Listens w base {s = s} (reply {tag} {handler} {rest} {t} taken e) l h =
    finish_call-Listens w base tag handler rest s.unlocking s t taken e l h
RpcStep-Listens w base {s = s} (notify {tag} {rest} {t} taken e) l h =
    finish_call-Listens w base tag produce_msg_call rest (tag ∷ s.unlocking) s t taken e l h
RpcStep-Listens w base (unlock taken) l h = record { listening = h.listening; counted = h.counted }

RpcReach-Listens :
    (w : Handler → ℕ) {deletes : Bool} {handlers : List Handler} {s : Server}
    → RpcReach deletes handlers s
    → Listens w (total w handlers) s
RpcReach-Listens w {handlers = handlers} start = start_handlers-Listens w handlers
RpcReach-Listens w (next r st) = RpcStep-Listens w _ st (RpcReach-Lives r) (RpcReach-Listens w r)

-- In every such state each handler that HandleRpcs made has, as often as at the start, an object
-- that waits for a request or has one and has not made its successor, counted under any weight of
-- the handlers; and there are as many objects as there are tags with the queue and with threads,
-- so none is forgotten.
pub RpcReach-listeners :
    {deletes : Bool} {handlers : List Handler} {s : Server}
    → RpcReach deletes handlers s
    → (w : Handler → ℕ)
    → (total (listens w s.serving) s.objects ≡ total w handlers)
      × (length s.objects
          ≡ length s.waiting + length s.finishing + (length s.threads + length s.serving))
RpcReach-listeners {s = s} r w =
    let h = RpcReach-Listens w r in (h.listening, length-total s.objects ∙ h.counted)
