-- ===== src/System.antt =====
-- The running daemon: its state, the threads that are inside `SelectProducerAndSend`, and the order
-- in which critical sections, answers and client requests come, which is left open.
pub mod Bound
pub mod Counter
pub mod Drain
pub mod Coverage
pub mod Progress
pub mod Safety
pub mod Tasks
use push_system.Common.{ℕ, ◌≡◌, ◌≤◌, Bool, List, [], ◌∷◌, none, some, true, false, leb, Takes, Text}
use push_system.Shared.{ErrCode}
use push_system.Double.{Double}
use push_system.Daemon.State.{State, ProduceMsgRequest, Call, start_state}
use push_system.Daemon.Registry.{
  Arrival, ClientRegisterRequest, client_register, heart_beat, load_balance,
}
use push_system.Daemon.Balance.{rebalance}
use push_system.Daemon.Alive.{check_proc_alive}
use push_system.Daemon.Dispatch.{factor, select_turn}
use push_system.Daemon.Replies.{on_get_response, break_circuit, decrease_producer_task}

-- The critical sections other than those of a push: the handlers ClientRegister, HeartBeat and
-- LoadBalance, and a round of each timer thread.
pub data Section : Type 0 where
  register : ((ℕ → Bool) → Text → List Text) → Arrival → ClientRegisterRequest → Section
  beat : (now id : ℕ) → Section
  report : (id use_of_unset : ℕ) → (score : Text) → Section
  alive : (now : ℕ) → Section
  timer : Section

-- A thread in the loop of `SelectProducerAndSend`, before it takes the lock.
pub record Sender : Type 0 where
  pub request : ProduceMsgRequest
  pub cur_uid : ℕ

-- The entry of `SelectProducerAndSend`; `BeginPush` copies its three fields into the request.
unfoldable pub start_sender : ProduceMsgRequest → Sender
start_sender request = record { request = request; cur_uid = request.start_uid }

pub record World (D : Type 0) : Type 0 where
  pub state : State D
  pub senders : List Sender
  -- The failed calls whose `OnResponseFail` is between its two critical sections.
  pub failing : List Call
  -- The requests of BeginPush so far, and those that a producer answered with SUCCESS.
  pub asked : List ProduceMsgRequest
  pub answered : List ProduceMsgRequest

unfoldable pub start_world : {D : Type 0} → World D
start_world = record { state = start_state; senders = []; failing = []; asked = []; answered = [] }

module _ {D : Type 0} where
  unfoldable pub begin_push : ProduceMsgRequest → World D → World D
  begin_push request w = record w {
    senders = start_sender request ∷ w.senders;
    asked = request ∷ w.asked;
  }

  -- What `HandleAsyncCall` does with a call that came back in good order; `rest` is the queue
  -- without it.
  unfoldable pub answer : ErrCode → Call → List Call → World D → World D
  answer code call rest w =
      let (state, again) = on_get_response code call (record w.state { calls = rest }) in
      elim again [
        | none ↦ record w { state = state; answered = call.request ∷ w.answered }
        | some request ↦ record w { state = state; senders = start_sender request ∷ w.senders }
      ]

module _ {D : Type 0} ⦃dbl : Double D⦄ where
  -- The same for a call whose status is an error: `OnResponseFail` up to the end of its circuit
  -- breaker.
  unfoldable pub fail : Call → List Call → World D → World D
  fail call rest w = record w {
    state = break_circuit call.svr_id (record w.state { calls = rest });
    failing = call ∷ w.failing;
  }

  -- The rest of `OnResponseFail`, in which the request is sent again; `rest` is `failing` without
  -- the call.
  unfoldable pub retry : Call → List Call → World D → World D
  retry call rest w = record w {
    state = decrease_producer_task call.svr_id w.state;
    failing = rest;
    senders = start_sender call.request ∷ w.senders;
  }

  unfoldable pub serve : Section → State D → State D
  serve (register split from request) s = (client_register split from request s).0
  serve (beat now id) s = (heart_beat now id s).0
  serve (report id n score) s = (load_balance id n score s).0
  serve (alive now) s = check_proc_alive now s
  serve timer s = rebalance s

  -- One step; `A` says which sections may come.
  pub data Step (A : Section → Type 0) (w : World D) : World D → Type 0 where
    section : (e : Section) → A e → Step A w (record w { state = serve e w.state })
    begin : (request : ProduceMsgRequest) → Step A w (begin_push request w)
    turn :
        {t : Sender} {rest : List Sender} {s : State D} {cur : ℕ} (draw : ℕ)
        → Takes t w.senders rest
        → leb t.cur_uid t.request.end_uid ≡ true
        → draw ≤ factor
        → select_turn draw t.request t.cur_uid w.state ≡ some (s, cur)
        → Step A w (record w { state = s; senders = record t { cur_uid = cur } ∷ rest })
    finish :
        {t : Sender} {rest : List Sender}
        → Takes t w.senders rest
        → leb t.cur_uid t.request.end_uid ≡ false
        → Step A w (record w { senders = rest })
    answers :
        {call : Call} {rest : List Call} (code : ErrCode)
        → Takes call w.state.calls rest
        → Step A w (answer code call rest w)
    fails :
        {call : Call} {rest : List Call}
        → Takes call w.state.calls rest
        → Step A w (fail call rest w)
    retries :
        {call : Call} {rest : List Call} → Takes call w.failing rest → Step A w (retry call rest w)

  pub data Reach (A : Section → Type 0) : World D → Type 0 where
    start : Reach A start_world
    next : {v w : World D} → Reach A v → Step A v w → Reach A w
