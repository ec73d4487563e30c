-- ===== src/Client/Granted.antt =====
-- The ids that a client sends, over every run of the client.
use push_system.Common.{
  ℕ, ◌≡◌, refl, ◌∷◌, Option, Option-cases, none, some, All, All-Takes, Text, arith, inl, inr, ap,
  ◌⊎◌,
}
use mathlib.Core.Path.{subst}
use push_system.Shared.{success, err}
use push_system.Client.{
  ClientStatus, no_server, registered, Outgoing, register_call, beat_call, Answer, Client,
  new_client, look, request_of, send, on_get_response, set_client_status, get_server_id, Answers,
  failed, granted, refused, beaten, ClientStep, looks, sends, gets, sets, ClientReach, here, next,
}

module _ (G : ℕ → Type 0) where
  -- The id of a heart beat is one of `G`.
  abbrev pub OfGranted : Outgoing → Type 0
  OfGranted (register_call _) = Unit {0}
  OfGranted (beat_call id) = G id

  abbrev HasId : Option ℕ → Type 0
  HasId none = ⊥
  HasId (some id) = G id

  -- Where a status is REGISTERED, the id is set.
  abbrev Backs : Option ℕ → Option ClientStatus → Type 0
  Backs id (some registered) = HasId id
  Backs id _ = Unit {0}

  record Inv (c : Client) : Type 0 where
    status : Backs c.server_id (some c.client_status)
    looked : Backs c.server_id c.looked
    to_set : Backs c.server_id c.to_set
    beats : All OfGranted c.calls

  raise : (o : Option ℕ) (id : ℕ) (s : Option ClientStatus) → G id → Backs o s → Backs (some id) s
  raise o id none g b = tt
  raise o id (some no_server) g b = tt
  raise o id (some registered) g b = g

  of_registered :
      (o : Option ℕ) (s : Option ClientStatus)
      → s ≡ some registered
      → Backs o s
      → (id : ℕ) × (o ≡ some id) × G id
  of_registered o none e b = absurd cc
  of_registered o (some no_server) e b = absurd cc
  of_registered none (some registered) e b = absurd b
  of_registered (some id) (some registered) e b = (id, refl, b)

  -- The thread that saw the status sends a request with an id that is set.
  send-Inv :
      (status : ClientStatus) (c : Client)
      → Inv c
      → c.looked ≡ some status
      → (d : Client) × (send status c ≡ some d) × Inv d
  unfolding send request_of
  send-Inv no_server c i e =
      (_, refl, record { status = i.status; looked = tt; to_set = i.to_set; beats = (tt, i.beats) })
  send-Inv registered c i e =
      let (id, known, g) = of_registered c.server_id c.looked e i.looked in
      (
        record c { looked = none; calls = beat_call id ∷ c.calls },
        rw known refl,
        record { status = i.status; looked = tt; to_set = i.to_set; beats = (g, i.beats) },
      )

  get-Inv :
      {call : Outgoing} {answer : Answer} (c : Client)
      → c.to_set ≡ none
      → Answers G call answer
      → Inv c
      → Inv (on_get_response answer c)
  unfolding on_get_response
  get-Inv c e failed i = i
  get-Inv c e (granted {id = id} g) i = record {
    status = raise c.server_id id (some c.client_status) g i.status;
    looked = raise c.server_id id c.looked g i.looked;
    to_set = g;
    beats = i.beats;
  }
  get-Inv c e refused i = record {
    status = i.status;
    looked = i.looked;
    to_set = tt;
    beats = i.beats;
  }
  get-Inv c e (beaten {code = success}) i = i
  get-Inv c e (beaten {code = err}) i = record {
    status = i.status;
    looked = i.looked;
    to_set = tt;
    beats = i.beats;
  }

  set-Inv :
      (status : ClientStatus) (c : Client)
      → c.to_set ≡ some status
      → Inv c
      → Inv (set_client_status status c)
  unfolding set_client_status
  set-Inv no_server c e i = record { status = tt; looked = i.looked; to_set = tt; beats = i.beats }
  set-Inv registered c e i =
      let (id, known, g) = of_registered c.server_id c.to_set e i.to_set in
      record { status = rw known g; looked = i.looked; to_set = tt; beats = i.beats }

  step-Inv : {c d : Client} → ClientStep G c d → Inv c → Inv d
  step-Inv {c} (looks e) i =
      unfold look in
      record { status = i.status; looked = i.status; to_set = i.to_set; beats = i.beats }
  step-Inv {c} {d} (sends {status} e r) i =
      let made = send-Inv status c i e in
      let same : made.0 ≡ d = ground (arith, made.1, r) in subst Inv same made.2
  step-Inv {c} (gets {call} {rest} e t a) i =
      get-Inv (record c { calls = rest }) e a
        (record {
          status = i.status;
          looked = i.looked;
          to_set = i.to_set;
          beats = (All-Takes OfGranted t i.beats).1;
        })
  step-Inv {c} (sets {status} e) i = set-Inv status c e i

  reach-Inv :
      (port proc : Text) (group : ℕ) {c : Client}
      → ClientReach G (new_client port proc group) c
      → Inv c
  reach-Inv port proc group here =
      unfold new_client in record { status = tt; looked = tt; to_set = tt; beats = tt }
  reach-Inv port proc group (next r s) = step-Inv s (reach-Inv port proc group r)

  -- In every state that a client can reach, with its two threads interleaved at each lock, if the
  -- daemon gives out only ids of G: every heart beat on its way has an id of G, GetServerId
  -- returns false or an id of G, and if the status thread has read a status, the request that it
  -- is about to send does not read an id that is not set and leaves only heart beats with ids of G
  -- on their way.
  pub ClientReach-granted :
      (port proc : Text) (group : ℕ) {c : Client}
      → ClientReach G (new_client port proc group) c
      → All OfGranted c.calls
        × ((get_server_id c ≡ none) ⊎ ((id : ℕ) × (get_server_id c ≡ some (some id)) × G id))
        × ((c.looked ≡ none)
            ⊎ ((status : ClientStatus) × (d : Client) × (c.looked ≡ some status)
                × (send status c ≡ some d)
                × All OfGranted d.calls))
  unfolding get_server_id
  ClientReach-granted port proc group {c} r =
      let i = reach-Inv port proc group r in
      (
        i.beats,
        by_status c.client_status i.status,
        elim (Option-cases c.looked) [
          | inl e ↦ inl e
          | inr (status, e) ↦
              let (d, s, j) = send-Inv status c i e in inr (status, d, e, s, j.beats)
        ],
      )
    where
      by_status :
          (s : ClientStatus)
          → Backs c.server_id (some s)
          → (elim s [ no_server ↦ none | registered ↦ some c.server_id ] ≡ none)
            ⊎ ((id : ℕ) × (elim s [ no_server ↦ none | registered ↦ some c.server_id ]
                  ≡ some (some id))
                × G id)
      by_status no_server b = inl refl
      by_status registered b =
          let (id, known, g) = of_registered c.server_id (some registered) refl b in
          inr (id, ap some known, g)
