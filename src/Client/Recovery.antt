-- ===== src/Client/Recovery.antt =====
-- A client and the daemon, when every answer is there before the client looks at its status again.
use push_system.Common.{
  ℕ, ◌+◌, ◌<◌, ◌≡◌, refl, List, Option, none, some, ◌>>=◌, Bool, Text, arith, inl, inr, ◌⊎◌,
  Option-cases, ap, ◌∙◌, ◌^◌,
}
use push_system.Shared.{success, err}
use push_system.Double.{Double}
use push_system.StdMap.{find, IsSorted, last_key, find-adjust, adjust}
use push_system.Daemon.State.{State, ServerInfo}
use push_system.Daemon.Registry.{Arrival, ClientRegisterRequest, client_register, heart_beat}
use push_system.Daemon.Registry.Fresh.{new_entry, client_register-fresh}
use push_system.Client.{
  ClientStatus, no_server, registered, Outgoing, register_call, beat_call, Answer, register_reply,
  beat_reply, Client, request_of, on_get_response, set_client_status,
}

-- The status that the handler of the answer sets under the lock.
unfoldable pub settle : Client → Client
settle c = elim c.to_set [ none ↦ c | some status ↦ set_client_status status c ]

request_of-registered :
    (c : Client) (id : ℕ)
    → c.client_status ≡ registered
    → c.server_id ≡ some id
    → request_of c.client_status c ≡ some (beat_call id)
unfolding request_of
request_of-registered c id e k = rw (e, k) refl

request_of-no_server :
    (c : Client)
    → c.client_status ≡ no_server
    → request_of c.client_status c
      ≡ some (
          register_call (record {
            listening_port = c.listening_port;
            proc_name = c.proc_name;
            group_id = c.group_id;
          }))
unfolding request_of
request_of-no_server c e = rw e refl

status-cases : (s : ClientStatus) → (s ≡ no_server) ⊎ (s ≡ registered)
status-cases no_server = inl refl
status-cases registered = inr refl

module _ {D : Type 0} ⦃dbl : Double D⦄ where
  -- What the daemon does with a call of the client.
  unfoldable pub daemon_answer :
      ((ℕ → Bool) → Text → List Text) → Arrival → Outgoing → State D → State D × Answer
  daemon_answer split from (register_call request) s =
      let (t, code, id) = client_register split from request s in (t, register_reply code id)
  daemon_answer split from (beat_call id) s =
      let (t, code) = heart_beat from.now id s in (t, beat_reply code)

  -- One turn of `ClientStatusHandler`, with the answer; none where `serverId_` is not set.
  unfoldable pub round :
      ((ℕ → Bool) → Text → List Text) → Arrival → Client × State D → Option (Client × State D)
  round split from (c, s) = request_of c.client_status c >>= λ call.
      let (t, answer) = daemon_answer split from call s in
      some (settle (on_get_response answer c), t)

  -- The client has the id of an entry whose time stamp is `now`.
  pub record Known (now : ℕ) (w : Client × State D) : Type 0 where
    pub status : w.0.client_status ≡ registered
    pub settled : w.0.to_set ≡ none
    pub id : ℕ
    pub its : w.0.server_id ≡ some id
    pub info : ServerInfo D
    pub entry : find id w.1.svr_info ≡ some info
    pub time : info.timestamp ≡ now

  round_of :
      (split : (ℕ → Bool) → Text → List Text) (from : Arrival) (c : Client) (s : State D)
      {call : Outgoing} {t : State D} {answer : Answer}
      → request_of c.client_status c ≡ some call
      → daemon_answer split from call s ≡ (t, answer)
      → round split from (c, s) ≡ some (settle (on_get_response answer c), t)
  unfolding round
  round_of split from c s {call} q a =
      ap
        (λ r. r >>= λ call.
          let (t, answer) = daemon_answer split from call s in
          some (settle (on_get_response answer c), t))
        q
      ∙ ap (λ r. some (settle (on_get_response r.1 c), r.0)) a

  beat-known :
      (split : (ℕ → Bool) → Text → List Text) (from : Arrival) (s : State D) (id : ℕ)
      (info : ServerInfo D)
      → find id s.svr_info ≡ some info
      → daemon_answer split from (beat_call id) s ≡ (
        record s { svr_info = adjust id (λ i. record i { timestamp = from.now }) s.svr_info },
        beat_reply success,
      )
  unfolding daemon_answer heart_beat
  beat-known split from s id info f = ap (λ r. (r.0, beat_reply r.1)) (beaten from.now id s info f)
    where
      beaten :
          (now id : ℕ) (s : State D) (info : ServerInfo D)
          → find id s.svr_info ≡ some info
          → heart_beat now id s ≡ (
            record s { svr_info = adjust id (λ i. record i { timestamp = now }) s.svr_info },
            success,
          )
      beaten now id s info f = rw (f, heart_beat) refl

  beat-unknown :
      (split : (ℕ → Bool) → Text → List Text) (from : Arrival) (s : State D) (id : ℕ)
      → find id s.svr_info ≡ none
      → daemon_answer split from (beat_call id) s ≡ (s, beat_reply err)
  unfolding daemon_answer heart_beat
  beat-unknown split from s id f = ap (λ r. (r.0, beat_reply r.1)) (missed from.now id s f)
    where
      missed :
          (now id : ℕ) (s : State D) → find id s.svr_info ≡ none → heart_beat now id s ≡ (s, err)
      missed now id s f = rw (f, heart_beat) refl

  -- A client without a server is known after the round.
  round-registers :
      (split : (ℕ → Bool) → Text → List Text) (from : Arrival) (c : Client) (s : State D)
      → IsSorted s.svr_info
      → ((k : ℕ) → last_key s.svr_info ≡ some k → k + 1 < 2 ^ 64)
      → c.client_status ≡ no_server
      → (w : Client × State D) × (round split from (c, s) ≡ some w) × Known from.now w
  unfolding daemon_answer on_get_response settle set_client_status client_register
  round-registers split from c s sorted room e =
      let r : ClientRegisterRequest = record {
        listening_port = c.listening_port;
        proc_name = c.proc_name;
        group_id = c.group_id;
      } in
      let fresh = client_register-fresh split from r s sorted room in
      let id = (client_register split from r s).2 in
      (
        _,
        round_of split from c s (request_of-no_server c e) refl,
        record {
          status = refl;
          settled = refl;
          id = id;
          its = refl;
          info = new_entry split from r;
          entry = ground (arith, fresh.1 id);
          time = refl;
        },
      )

  -- So is one that the daemon knows.
  round-beats :
      (split : (ℕ → Bool) → Text → List Text) (from : Arrival) (c : Client) (s : State D) (id : ℕ)
      (info : ServerInfo D)
      → c.client_status ≡ registered
      → c.to_set ≡ none
      → c.server_id ≡ some id
      → find id s.svr_info ≡ some info
      → (w : Client × State D) × (round split from (c, s) ≡ some w) × Known from.now w
  unfolding on_get_response settle
  round-beats split from c s id info e q k f = (
    (c, record s { svr_info = adjust id (λ i. record i { timestamp = from.now }) s.svr_info }),
    round_of split from c s (request_of-registered c id e k) (beat-known split from s id info f)
        ∙ rw q refl,
    record {
      status = e;
      settled = q;
      id = id;
      its = k;
      info = record info { timestamp = from.now };
      entry = ground (
        arith,
        find-adjust id id (λ (i : ServerInfo D). record i { timestamp = from.now }) s.svr_info,
      );
      time = refl;
    },
  )

  -- A client that the daemon does not know learns so.
  round-forgotten :
      (split : (ℕ → Bool) → Text → List Text) (from : Arrival) (c : Client) (s : State D) (id : ℕ)
      → c.client_status ≡ registered
      → c.server_id ≡ some id
      → find id s.svr_info ≡ none
      → round split from (c, s) ≡ some (set_client_status no_server c, s)
  unfolding on_get_response settle set_client_status
  round-forgotten split from c s id e k f =
      round_of split from c s (request_of-registered c id e k) (beat-unknown split from s id f)

  -- If every answer comes before the next look at the status, the keys of the registry are in
  -- order and below 2⁶⁴ - 1, and the client is in NO_SERVER or has an id, then two rounds of
  -- ClientStatusHandler, whatever the daemon has forgotten, leave the client REGISTERED, with the
  -- id of an entry of the daemon whose time stamp is that of the second round.
  pub round-recovers :
      (split : (ℕ → Bool) → Text → List Text) (from again : Arrival) (c : Client) (s : State D)
      (id : ℕ)
      → IsSorted s.svr_info
      → ((k : ℕ) → last_key s.svr_info ≡ some k → k + 1 < 2 ^ 64)
      → (c.client_status ≡ no_server) ⊎ (c.server_id ≡ some id)
      → c.to_set ≡ none
      → (w : Client × State D) × ((round split from (c, s) >>= round split again) ≡ some w)
        × Known again.now w
  round-recovers split from again c s id sorted room known q =
      let first = one_round (status-cases c.client_status) known in
      let second = two_rounds first.0 first.2 in
      (second.0, ap (λ r. r >>= round split again) first.1 ∙ second.1, second.2)
    where
      one_round :
          (c.client_status ≡ no_server) ⊎ (c.client_status ≡ registered)
          → (c.client_status ≡ no_server) ⊎ (c.server_id ≡ some id)
          → (w : Client × State D) × (round split from (c, s) ≡ some w)
            × (Known from.now w ⊎ (w ≡ (set_client_status no_server c, s)))
      one_round (inl e) k =
          let r = round-registers split from c s sorted room e in (r.0, r.1, inl r.2)
      one_round (inr e) (inl k) =
          let r = round-registers split from c s sorted room k in (r.0, r.1, inl r.2)
      one_round (inr e) (inr k) = elim (Option-cases (find id s.svr_info)) [
        | inl f ↦ (_, round-forgotten split from c s id e k f, inr refl)
        | inr (info, f) ↦ let r = round-beats split from c s id info e q k f in (r.0, r.1, inl r.2)
      ]

      two_rounds :
          (v : Client × State D)
          → Known from.now v ⊎ (v ≡ (set_client_status no_server c, s))
          → (w : Client × State D) × (round split again v ≡ some w) × Known again.now w
      two_rounds (d, t) (inl k) =
          round-beats split again d t k.id k.info k.status k.settled k.its k.entry
      two_rounds v (inr e) =
          unfold set_client_status in
          let r = round-registers split again (set_client_status no_server c) s sorted room refl in
          (r.0, ap (round split again) e ∙ r.1, r.2)
