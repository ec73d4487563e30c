-- ===== src/System/Coverage.antt =====
-- No part of a push is lost or doubled: who has each uid of the ranges that were asked for.
use mathlib.Core.Path.{subst}
use push_system.Common.{
  sym, leb→le, ℕ, ◌+◌, ◌<◌, ◌≤◌, ◌≡◌, refl, List, ◌∷◌, false, ◌&&◌, ◌==◌, leb, if◌then◌else◌, arith,
  inl, inr, ◌⊎◌, All, total, Takes, total-Takes, All-Takes, ◌^◌,
}
use push_system.Common.Word.{u64}
use push_system.Double.{Double}
use push_system.Shared.{success, err}
use push_system.Daemon.State.{State, ProduceMsgRequest, Call, start_state}
use push_system.Daemon.Replies.{on_get_response}
use push_system.Daemon.Dispatch.{uid_count_per_time, chunk}
use push_system.Daemon.Queue.{break_circuit-SameQueue, decrease-calls, Sent, select_turn_cases}
use push_system.System.{
  Section, World, Sender, start_world, start_sender, begin_push, answer, fail, retry, serve, Step,
  section, begin, turn, finish, answers, fails, retries, Reach, start, next,
}
use push_system.System.Counter.{serve-SameQueue}

-- The range [low, high] of the message `of` has the uid: 1 or 0.
abbrev covers : (msg uid of low high : ℕ) → ℕ
covers msg uid of low high = if of == msg && (leb low uid && leb uid high) then 1 else 0

module _ (msg uid : ℕ) where
  abbrev pub in_request : ProduceMsgRequest → ℕ
  in_request r = covers msg uid r.msg_id r.start_uid r.end_uid

  abbrev pub in_sender : Sender → ℕ
  in_sender t = covers msg uid t.request.msg_id t.cur_uid t.request.end_uid

  abbrev pub in_call : Call → ℕ
  in_call c = in_request c.request

  -- How often the uid was asked for, and how often it is still with a thread of the daemon, on
  -- its way to a producer, or answered with SUCCESS.
  abbrev pub times_asked : {D : Type 0} → World D → ℕ
  times_asked w = total in_request w.asked

  abbrev pub times_held : {D : Type 0} → World D → ℕ
  times_held w =
      total in_sender w.senders
      + total in_call w.state.calls
      + total in_call w.failing
      + total in_request w.answered

-- The loop's arithmetic on the range does not wrap.
abbrev pub IsSmall : ProduceMsgRequest → Type 0
IsSmall r = r.end_uid + 4096 < 2 ^ 64

chunk-IsSmall : (r : ProduceMsgRequest) (cur : ℕ) → IsSmall r → IsSmall (chunk r cur)
unfolding chunk
chunk-IsSmall r cur h = ground arith

-- A chunk and what the loop still has to send make up what it had before.
covers-chunk :
    (msg uid cur : ℕ) (r : ProduceMsgRequest)
    → IsSmall r
    → cur ≤ r.end_uid
    → covers msg uid r.msg_id cur r.end_uid
      ≡ in_request msg uid (chunk r cur)
        + covers msg uid r.msg_id (u64 (cur + uid_count_per_time)) r.end_uid
unfolding chunk
covers-chunk msg uid cur r h l = ground arith

-- The invariant of a run.
pub record Held {D : Type 0} (w : World D) : Type 0 where
  pub small_senders : All (λ t. IsSmall t.request) w.senders
  pub small_calls : All (λ c. IsSmall c.request) w.state.calls
  pub small_failing : All (λ c. IsSmall c.request) w.failing
  pub whole : (msg uid : ℕ) → times_held msg uid w ≡ times_asked msg uid w

module _ {D : Type 0} ⦃dbl : Double D⦄ where
  Sent-Held :
      (t : Sender) (rest : List Sender) (p : State D × ℕ) (w : World D)
      → Takes t w.senders rest
      → t.cur_uid ≤ t.request.end_uid
      → Held w
      → (p ≡ (w.state, t.cur_uid)) ⊎ Sent t.request t.cur_uid w.state p
      → Held (record w { state = p.0; senders = record t { cur_uid = p.1 } ∷ rest })
  Sent-Held t rest p w taken l h (inl e) =
      subst (λ q. Held (record w { state = q.0; senders = record t { cur_uid = q.1 } ∷ rest }))
        (sym e)
        (record {
          small_senders = All-Takes (λ t. IsSmall t.request) taken h.small_senders;
          small_calls = h.small_calls;
          small_failing = h.small_failing;
          whole = λ m u. omega (arith, h.whole m u, total-Takes (in_sender m u) taken);
        })
  Sent-Held t rest p w taken l h (inr sent) =
      let small = All-Takes (λ t. IsSmall t.request) taken h.small_senders in
      record {
        small_senders = small;
        small_calls = rw sent.calls (chunk-IsSmall t.request t.cur_uid small.0, h.small_calls);
        small_failing = h.small_failing;
        whole = λ m u.
            rw (sent.calls, sent.moved)
              (omega (
                arith,
                h.whole m u,
                total-Takes (in_sender m u) taken,
                covers-chunk m u t.cur_uid t.request small.0 l,
              ));
      }

  section-Held : (e : Section) (w : World D) → Held w → Held (record w { state = serve e w.state })
  section-Held e w h =
      let same = serve-SameQueue e w.state in
      record {
        small_senders = h.small_senders;
        small_calls = rw same.calls h.small_calls;
        small_failing = h.small_failing;
        whole = λ m u. rw same.calls (h.whole m u);
      }

  finish-Held :
      (t : Sender) (rest : List Sender) (w : World D)
      → Takes t w.senders rest
      → leb t.cur_uid t.request.end_uid ≡ false
      → Held w
      → Held (record w { senders = rest })
  finish-Held t rest w taken over h = record {
    small_senders = (All-Takes (λ t. IsSmall t.request) taken h.small_senders).1;
    small_calls = h.small_calls;
    small_failing = h.small_failing;
    whole = λ m u. omega (arith, h.whole m u, total-Takes (in_sender m u) taken, covers-none m u);
  }
    where
      covers-none : (m u : ℕ) → covers m u t.request.msg_id t.cur_uid t.request.end_uid ≡ 0
      covers-none m u = ground arith

  -- A call leaves the queue; its request was answered, or is in a new thread.
  answered-Held :
      (call : Call) (rest : List Call) (s : State D) (w : World D)
      → Takes call w.state.calls rest
      → s.calls ≡ rest
      → Held w
      → Held (record w { state = s; answered = call.request ∷ w.answered })
  answered-Held call rest s w taken e h = record {
    small_senders = h.small_senders;
    small_calls = rw e (All-Takes (λ c. IsSmall c.request) taken h.small_calls).1;
    small_failing = h.small_failing;
    whole = λ m u. rw e (omega (arith, h.whole m u, total-Takes (in_call m u) taken));
  }

  resent-Held :
      (call : Call) (rest : List Call) (s : State D) (w : World D)
      → Takes call w.state.calls rest
      → s.calls ≡ rest
      → Held w
      → Held (record w { state = s; senders = start_sender call.request ∷ w.senders })
  unfolding start_sender
  resent-Held call rest s w taken e h =
      let small = All-Takes (λ c. IsSmall c.request) taken h.small_calls in
      record {
        small_senders = (small.0, h.small_senders);
        small_calls = rw e small.1;
        small_failing = h.small_failing;
        whole = λ m u. rw e (omega (arith, h.whole m u, total-Takes (in_call m u) taken));
      }

  -- A call that failed is between the two sections of its handler, and then in a new thread.
  failed-Held :
      (call : Call) (rest : List Call) (s : State D) (w : World D)
      → Takes call w.state.calls rest
      → s.calls ≡ rest
      → Held w
      → Held (record w { state = s; failing = call ∷ w.failing })
  failed-Held call rest s w taken e h =
      let small = All-Takes (λ c. IsSmall c.request) taken h.small_calls in
      record {
        small_senders = h.small_senders;
        small_calls = rw e small.1;
        small_failing = (small.0, h.small_failing);
        whole = λ m u. rw e (omega (arith, h.whole m u, total-Takes (in_call m u) taken));
      }

  retry-Held :
      (call : Call) (rest : List Call) (s : State D) (w : World D)
      → Takes call w.failing rest
      → s.calls ≡ w.state.calls
      → Held w
      → Held
          (record w { state = s; failing = rest; senders = start_sender call.request ∷ w.senders })
  unfolding start_sender
  retry-Held call rest s w taken e h =
      let small = All-Takes (λ c. IsSmall c.request) taken h.small_failing in
      record {
        small_senders = (small.0, h.small_senders);
        small_calls = rw e h.small_calls;
        small_failing = small.1;
        whole = λ m u. rw e (omega (arith, h.whole m u, total-Takes (in_call m u) taken));
      }

  begin-Held :
      (request : ProduceMsgRequest) (w : World D)
      → IsSmall request
      → Held w
      → Held (begin_push request w)
  unfolding begin_push start_sender
  begin-Held request w small h = record {
    small_senders = (small, h.small_senders);
    small_calls = h.small_calls;
    small_failing = h.small_failing;
    whole = λ m u. omega (arith, h.whole m u);
  }

  Step-Held :
      {A : Section → Type 0} {v w : World D}
      → Step A v w
      → All IsSmall w.asked
      → (All IsSmall v.asked → Held v)
      → Held w
  Step-Held {v} (section e _) a h = section-Held e v (h a)
  Step-Held {v} (begin request) a h = (unfold begin_push in begin-Held request v a.0 (h a.1))
  Step-Held {v} (turn {t} {rest} {s} {cur} draw taken go d e) a h =
      Sent-Held t rest (s, cur) v taken (leb→le _ _ go) (h a)
        (select_turn_cases draw t.request t.cur_uid v.state (s, cur) e)
  Step-Held {v} (finish {t} {rest} taken over) a h = finish-Held t rest v taken over (h a)
  Step-Held {v} (answers {call} {rest} success taken) a h =
      unfold answer on_get_response in
      answered-Held call rest _ v taken (decrease-calls call.svr_id _) (h a)
  Step-Held {v} (answers {call} {rest} err taken) a h =
      unfold answer on_get_response in
      resent-Held call rest _ v taken (decrease-calls call.svr_id _) (h a)
  Step-Held {v} (fails {call} {rest} taken) a h =
      let same = break_circuit-SameQueue call.svr_id (record v.state { calls = rest }) in
      unfold fail in failed-Held call rest _ v taken same.calls (h a)
  Step-Held {v} (retries {call} {rest} taken) a h =
      unfold retry in retry-Held call rest _ v taken (decrease-calls call.svr_id v.state) (h a)

  pub Reach-Held : {A : Section → Type 0} {w : World D} → Reach A w → All IsSmall w.asked → Held w
  Reach-Held start a =
      unfold start_world start_state in
      record { small_senders = tt; small_calls = tt; small_failing = tt; whole = λ m u. refl }
  Reach-Held (next r s) a = Step-Held s a (Reach-Held r)

  -- In every reachable state of the daemon, whatever the order of requests, answers, failures and
  -- draws, and if no range that was asked for ends within 4096 of 2⁶⁴, each uid of each message is
  -- held, by a thread in the loop of SelectProducerAndSend, by a call without an answer, by one
  -- whose failure is being handled, or by an answered request, exactly as often as BeginPush asked
  -- for it: no part of a push is lost or doubled.
  pub times_held-eq-times_asked :
      {A : Section → Type 0} {w : World D}
      → Reach A w
      → All IsSmall w.asked
      → (msg uid : ℕ) → times_held msg uid w ≡ times_asked msg uid w
  times_held-eq-times_asked r a = (Reach-Held r a).whole
