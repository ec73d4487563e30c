-- ===== src/Client.antt =====
-- common/daemonClient/daemonClient.cpp: how a server registers with the daemon and keeps itself
-- known. The thread of `ClientStatusHandler` and the one that handles the answers are interleaved
-- at every lock of `clientStatusMtx_`.
pub mod Granted
pub mod Recovery
use push_system.Common.{ℕ, ◌≡◌, List, [], ◌∷◌, Option, none, some, ◌>>=◌, Takes, Text}
use push_system.Shared.{ErrCode, success, err}
use push_system.Daemon.Registry.{ClientRegisterRequest}

pub data ClientStatus : Type 0 where
  no_server registered : ClientStatus

-- A call that waits for its answer on `cq_`.
pub data Outgoing : Type 0 where
  register_call : ClientRegisterRequest → Outgoing
  beat_call : (server_id : ℕ) → Outgoing

-- How a call ends: its status is not `ok`, or the reply.
pub data Answer : Type 0 where
  rpc_failed : Answer
  register_reply : ErrCode → (server_id : ℕ) → Answer
  beat_reply : ErrCode → Answer

pub record Client : Type 0 where
  -- none: not initialised
  pub server_id : Option ℕ
  pub listening_port : Text
  pub proc_name : Text
  pub group_id : ℕ
  pub client_status : ClientStatus
  -- What `ClientStatusHandler` read under the lock, until it has sent its request.
  pub looked : Option ClientStatus
  -- The status that a handler of an answer is about to set under the lock.
  pub to_set : Option ClientStatus
  pub calls : List Outgoing

-- The constructor of `DaemonClientImpl`.
unfoldable pub new_client : (listening_port proc_name : Text) → (group_id : ℕ) → Client
new_client listening_port proc_name group_id = record {
  server_id = none;
  listening_port = listening_port;
  proc_name = proc_name;
  group_id = group_id;
  client_status = no_server;
  looked = none;
  to_set = none;
  calls = [];
}

unfoldable pub look : Client → Client
look c = record c { looked = some c.client_status }

-- The request for the status that was read; none where `serverId_` is read before it is set.
unfoldable pub request_of : ClientStatus → Client → Option Outgoing
request_of no_server c = some (
    register_call (record {
      listening_port = c.listening_port;
      proc_name = c.proc_name;
      group_id = c.group_id;
    }))
request_of registered c = elim c.server_id [ none ↦ none | some id ↦ some (beat_call id) ]

-- `ClientRegister` or `HeartBeat`: the request is on its way.
unfoldable pub send : ClientStatus → Client → Option Client
send status c =
    request_of status c >>= λ call. some (record c { looked = none; calls = call ∷ c.calls })

-- `OnGetResponse` of both calls, up to the lock.
unfoldable pub on_get_response : Answer → Client → Client
on_get_response rpc_failed c = c
on_get_response (register_reply success id) c = record c {
  server_id = some id;
  to_set = some registered;
}
on_get_response (register_reply err id) c = record c { to_set = some no_server }
on_get_response (beat_reply success) c = c
on_get_response (beat_reply err) c = record c { to_set = some no_server }

unfoldable pub set_client_status : ClientStatus → Client → Client
set_client_status status c = record c { client_status = status; to_set = none }

-- `GetServerId`: none where it returns false, and inside it the id, as far as it is set.
unfoldable pub get_server_id : Client → Option (Option ℕ)
get_server_id c = elim c.client_status [ no_server ↦ none | registered ↦ some c.server_id ]

-- The answers that a call may get, from a daemon that gives out only ids of `G`.
pub data Answers (G : ℕ → Type 0) : Outgoing → Answer → Type 0 where
  failed : {call : Outgoing} → Answers G call rpc_failed
  granted :
      {request : ClientRegisterRequest} {id : ℕ}
      → G id
      → Answers G (register_call request) (register_reply success id)
  refused :
      {request : ClientRegisterRequest} {id : ℕ}
      → Answers G (register_call request) (register_reply err id)
  beaten : {id : ℕ} {code : ErrCode} → Answers G (beat_call id) (beat_reply code)

pub data ClientStep (G : ℕ → Type 0) (c : Client) : Client → Type 0 where
  looks : c.looked ≡ none → ClientStep G c (look c)
  sends :
      {status : ClientStatus} {d : Client}
      → c.looked ≡ some status
      → send status c ≡ some d
      → ClientStep G c d
  gets :
      {call : Outgoing} {rest : List Outgoing} {answer : Answer}
      → c.to_set ≡ none
      → Takes call c.calls rest
      → Answers G call answer
      → ClientStep G c (on_get_response answer (record c { calls = rest }))
  sets :
      {status : ClientStatus} → c.to_set ≡ some status → ClientStep G c (set_client_status status c)

pub data ClientReach (G : ℕ → Type 0) (s : Client) : Client → Type 0 where
  here : ClientReach G s s
  next : {c d : Client} → ClientReach G s c → ClientStep G c d → ClientReach G s d
