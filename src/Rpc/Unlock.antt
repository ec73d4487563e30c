-- ===== src/Rpc/Unlock.antt =====
-- The end of `NotifyOne` of producer/producer.cpp, after `responder_.Finish`.
use push_system.Common.{ℕ, ◌≡◌, refl, List, ◌∷◌, none, some, Bool, arith, Takes, here}
use mathlib.Core.Path.{subst}
use push_system.Common.Leads.{LeadsTo, stop, more}
use push_system.Shared.{finish}
use push_system.StdMap.{find, erase, adjust, find-erase, find-adjust}
use push_system.Rpc.{
  Handler, produce_msg_call, CallData, Server, set_status, finish_call, sent, run, notify, RpcReach,
  RpcStep,
}
use push_system.Rpc.Alive.{serving-Takes}
use push_system.Rpc.Safety.{held-alive, RpcReach-Lives, RpcReach-finish_call}
use push_system.Rpc.Listeners.{runs-finish}

-- The object ends in FINISH, and its tag is in the queue.
abbrev IsNotified : ℕ → List (ℕ × Handler) → Server → Server → Type 0
IsNotified tag rest s t =
    (t.finishing ≡ tag ∷ s.finishing)
    × (t.unlocking ≡ tag ∷ s.unlocking)
    × (t.serving ≡ rest)
    × ((c : CallData) × (find tag t.objects ≡ some c) × (c.status ≡ finish))

notified :
    (tag : ℕ) (c : CallData) (rest : List (ℕ × Handler)) (s t : Server)
    → find tag s.objects ≡ some c
    → finish_call tag (record s { serving = rest; unlocking = tag ∷ s.unlocking }) ≡ some t
    → IsNotified tag rest s t
unfolding finish_call set_status
notified tag c rest s t found e =
    let ends : CallData → CallData = λ d. record d { status = finish } in
    let same : record s {
      objects = adjust tag ends s.objects;
      serving = rest;
      unlocking = tag ∷ s.unlocking;
      finishing = tag ∷ s.finishing;
    }
        ≡ t =
      ground arith in
    subst (IsNotified tag rest s) same
      (refl, refl, refl, (ends c, ground (arith, find-adjust tag tag ends s.objects), refl))

-- From every such state in which a ProduceMsg call is still to be answered, NotifyOne can answer
-- it, which takes one step, takes the call from those that are served and gives its tag to the
-- queue, and from there steps lead to a state in which the object of the call is deleted while
-- NotifyOne still holds the mutex that is a member of it and is to be unlocked.
pub RpcReach-unlock_deleted :
    {deletes : Bool} {handlers : List Handler} {s : Server}
    → RpcReach deletes handlers s
    → (tag : ℕ) (rest : List (ℕ × Handler)) → Takes (tag, produce_msg_call) s.serving rest
    → (answered deleted : Server) × RpcStep deletes s answered
      × (answered.serving ≡ rest)
      × (answered.finishing ≡ tag ∷ s.finishing)
      × (answered.unlocking ≡ tag ∷ s.unlocking)
      × LeadsTo (RpcStep deletes) deleted answered
      × (deleted.unlocking ≡ answered.unlocking)
      × (find tag deleted.objects ≡ none)
RpcReach-unlock_deleted {deletes} {handlers} {s} r tag rest taken =
    let (held, found) =
      held-alive tag s (RpcReach-Lives r) (ground (arith, serving-Takes tag taken)) in
    let made = RpcReach-finish_call r tag produce_msg_call rest (tag ∷ s.unlocking) taken in
    let t = made.0 in
    let (queue, locked, answered, (c, alive, over)) = notified tag held rest s t found made.1 in
    let in_queue : Takes tag t.finishing s.finishing = rw queue here in
    let came = record t { finishing = s.finishing; threads = tag ∷ t.threads } in
    let gone = runs-finish tag c t.threads came alive over in
    (
      t,
      record came { threads = t.threads; objects = erase tag t.objects },
      notify taken made.1,
      answered,
      queue,
      locked,
      more (sent in_queue) (more (run here gone) stop),
      refl,
      ground (arith, find-erase tag tag t.objects),
    )
