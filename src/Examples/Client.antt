-- ===== src/Examples/Client.antt =====
-- The theorems on the client at concrete inputs.
use push_system.Common.{ℕ, ◌≡◌, refl, none, some, ◌>>=◌, codes, All, here, arith, inr, ◌⊎◌}
use push_system.Daemon.State.{State}
use push_system.StdMap.{last_key}
use push_system.Client.{
  ClientStatus, registered, no_server, Client, new_client, look, request_of, send, on_get_response,
  set_client_status, get_server_id, ClientReach, granted, looks, sends, gets, sets, next,
}
use push_system.Client.Granted.{OfGranted, ClientReach-granted}
use push_system.Client.Recovery.{round, Known, round-recovers}
use push_system.Examples.Numbers.{nat_double}
use push_system.Examples.Split.{split_at}
use push_system.Examples.DaemonRuns.{arrival, two_servers}

abbrev consumer : Client
consumer = new_client (codes "50054") (codes "consumer") 602

-- The daemon gives out the id 7 only.
abbrev Seven : ℕ → Type 0
Seven id = id ≡ 7

abbrev about_to_beat : Client
about_to_beat = record consumer {
  server_id = some 7;
  client_status = registered;
  looked = some registered;
}

about_to_beat-ClientReach : ClientReach Seven consumer about_to_beat
unfolding look send request_of on_get_response set_client_status new_client
about_to_beat-ClientReach =
    next
      (next
        (next (next (next ClientReach.here (looks refl)) (sends {status = no_server} refl refl))
          (gets refl here (granted refl)))
        (sets {status = registered} refl))
      (looks refl)

ClientReach-granted_example :
    All (OfGranted Seven) about_to_beat.calls
    × ((get_server_id about_to_beat ≡ none)
        ⊎ ((id : ℕ) × (get_server_id about_to_beat ≡ some (some id)) × Seven id))
    × ((about_to_beat.looked ≡ none)
        ⊎ ((status : ClientStatus) × (d : Client) × (about_to_beat.looked ≡ some status)
            × (send status about_to_beat ≡ some d)
            × All (OfGranted Seven) d.calls))
unfolding new_client
ClientReach-granted_example =
    ClientReach-granted Seven (codes "50054") (codes "consumer") 602 about_to_beat-ClientReach

-- The daemon has lost the entry 9 of this client.
abbrev forgotten : Client
forgotten = record consumer { server_id = some 9; client_status = registered }

round-recovers_example :
    (w : Client × State ℕ) × ((round split_at arrival (forgotten, two_servers)
        >>= round split_at arrival)
      ≡ some w)
    × Known 100 w
unfolding last_key new_client
round-recovers_example =
    round-recovers split_at arrival arrival forgotten two_servers 9 (omega arith)
      (λ k e. ground arith) (inr refl) refl
