-- ===== src/Rpc.antt =====
-- The life of the `CallData` objects of common/handler_interface.h, and the loops `HandleRpcs` of the
-- daemon, the consumer and the producer, which get them back as tags from the completion queue. What
-- the handlers do with a request is modelled elsewhere: here is only when they may touch their object.
pub mod Alive
pub mod Safety
pub mod Listeners
pub mod Unlock
use push_system.Common.{ℕ, suc, ◌+◌, ◌≡◌, List, [], ◌∷◌, Option, none, some, Bool, true, Takes}
use push_system.Shared.{CallStatus, create, process, finish}
use push_system.StdMap.{StdMap, find, assign, adjust, erase}

-- The subclasses of `CallData`.
pub data Handler : Type 0 where
  client_register_call heart_beat_call load_balance_call begin_push_call consume_msg_call
        produce_msg_call :
      Handler

pub record CallData : Type 0 where
  pub handler : Handler
  pub status : CallStatus

pub record Server : Type 0 where
  -- The objects that live, by their addresses, and the address of the next one. An address is not
  -- used again.
  pub objects : StdMap CallData
  pub next_address : ℕ
  -- The tags that the queue has: of a `Request`, and of a `responder_.Finish`.
  pub waiting : List ℕ
  pub finishing : List ℕ
  -- The threads in front of `Proceed`, and those that have made a successor and have not called
  -- `responder_.Finish`.
  pub threads : List ℕ
  pub serving : List (ℕ × Handler)
  -- The threads in `NotifyOne` that have called it and still hold `waitForSndCntMtx`.
  pub unlocking : List ℕ

abbrev pub no_calls : Server
no_calls = record {
  objects = [];
  next_address = 0;
  waiting = [];
  finishing = [];
  threads = [];
  serving = [];
  unlocking = [];
}

unfoldable pub set_status : CallStatus → ℕ → Server → Server
set_status status tag s = record s {
  objects = adjust tag (λ c. record c { status = status }) s.objects;
}

-- `Proceed` in CREATE.
unfoldable pub request_call : ℕ → Server → Server
unfolding set_status
request_call tag s = record (set_status process tag s) { waiting = tag ∷ s.waiting }

-- `new` of a handler: its constructor calls `Proceed`.
unfoldable pub new_call_data : Handler → Server → Server
unfolding request_call
new_call_data handler s =
    let this = s.next_address in
    request_call this (record s {
      objects = assign this (record { handler = handler; status = create }) s.objects;
      next_address = suc this;
    })

-- `Proceed`, in PROCESS up to the request itself; none on an object that was deleted.
unfoldable pub proceed : ℕ → Server → Option Server
unfolding request_call new_call_data
proceed tag s = elim (find tag s.objects) [
  | none ↦ none
  | some c ↦ elim c.status [
    | create ↦ some (request_call tag s)
    | process ↦
        let made = new_call_data c.handler s in
        some (record made { serving = (tag, c.handler) ∷ made.serving })
    | finish ↦ some (record s { objects = erase tag s.objects })
  ]
]

-- `status_ = FINISH` and `responder_.Finish(reply_, Status::OK, this)`.
unfoldable pub finish_call : ℕ → Server → Option Server
unfolding set_status
finish_call tag s = elim (find tag s.objects) [
  | none ↦ none
  | some _ ↦ some (record (set_status finish tag s) { finishing = tag ∷ s.finishing })
]

-- The start of `HandleRpcs`.
unfoldable pub start_handlers : List Handler → Server
start_handlers [] = no_calls
start_handlers (handler ∷ handlers) = new_call_data handler (start_handlers handlers)

-- The objects that the daemon makes, the last one first, and those of the other two.
abbrev pub daemon_handlers : List Handler
daemon_handlers = load_balance_call ∷ begin_push_call ∷ heart_beat_call ∷ client_register_call ∷ []

abbrev pub consumer_handlers : List Handler
consumer_handlers = consume_msg_call ∷ []

abbrev pub producer_handlers : List Handler
producer_handlers = produce_msg_call ∷ []

-- What may come next. `deletes` says what `HandleRpcs` does with a tag that is not ok: the producer
-- deletes the object, the daemon and the consumer abort, and have no such step. The queue gives back
-- a `Request` that is not ok only after a shutdown, which no program calls while it runs.
pub data RpcStep (deletes : Bool) (s : Server) : Server → Type 0 where
  -- A request has come.
  arrive :
      {tag : ℕ} {rest : List ℕ}
      → Takes tag s.waiting rest
      → RpcStep deletes s (record s { waiting = rest; threads = tag ∷ s.threads })
  -- A reply is on its way.
  sent :
      {tag : ℕ} {rest : List ℕ}
      → Takes tag s.finishing rest
      → RpcStep deletes s (record s { finishing = rest; threads = tag ∷ s.threads })
  -- The client of a reply has gone.
  gone :
      {tag : ℕ} {rest : List ℕ}
      → deletes ≡ true
      → Takes tag s.finishing rest
      → RpcStep deletes s (record s { finishing = rest; objects = erase tag s.objects })
  run :
      {tag : ℕ} {rest : List ℕ} {t : Server}
      → Takes tag s.threads rest
      → proceed tag (record s { threads = rest }) ≡ some t
      → RpcStep deletes s t
  -- The end of a handler.
  reply :
      {tag : ℕ} {handler : Handler} {rest : List (ℕ × Handler)} {t : Server}
      → Takes (tag, handler) s.serving rest
      → finish_call tag (record s { serving = rest }) ≡ some t
      → RpcStep deletes s t
  -- `NotifyOne` at the last message, with the mutex held, and its end.
  notify :
      {tag : ℕ} {rest : List (ℕ × Handler)} {t : Server}
      → Takes (tag, produce_msg_call) s.serving rest
      → finish_call tag (record s { serving = rest; unlocking = tag ∷ s.unlocking }) ≡ some t
      → RpcStep deletes s t
  unlock :
      {tag : ℕ} {rest : List ℕ}
      → Takes tag s.unlocking rest
      → RpcStep deletes s (record s { unlocking = rest })

pub data RpcReach (deletes : Bool) (handlers : List Handler) : Server → Type 0 where
  start : RpcReach deletes handlers (start_handlers handlers)
  next :
      {s t : Server}
      → RpcReach deletes handlers s
      → RpcStep deletes s t
      → RpcReach deletes handlers t
