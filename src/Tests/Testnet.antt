-- ===== src/Tests/Testnet.antt =====
-- The theorems on networks of servers at concrete inputs.
use xbridge_witness.Base.{
  ℕ, ◌+◌, ◌≡◌, refl, true, false, none, some, [], ◌∷◌, ok, err, key_error, arith,
}
use xbridge_witness.Base.Int.{pos}
use xbridge_witness.Testnet.Network.{Client, Network, get_running_status}
use xbridge_witness.Testnet.Servers.{Os, servers_start, servers_stop}
use xbridge_witness.Testnet.Invariant.{IsSound, indexes, left, servers_start-IsSound}
use xbridge_witness.Testnet.Running.{IsReliable, get_running_status-servers_start}
use xbridge_witness.Testnet.Stop.{discard_all, servers_stop-IsSound}
use xbridge_witness.Testnet.StopAll.{servers_stop-none, servers_stop-key_error}

-- An operating system that numbers its processes.
abbrev counting_os : Os ℕ
counting_os = record { popen = λ cmd w. (ok (pos w), w + 1); wait = λ p w. w }

abbrev counting_os-IsReliable : IsReliable counting_os
counting_os-IsReliable = record { starts = λ cmd w. (pos w, refl) }

abbrev client : Client
client = record {
  config = record { file_name = some "a.cfg"; sections = [] };
  exe = "rippled";
  command_log = none;
  websocket_uri = "ws://127.0.0.1:6005";
  pid = none;
}

-- Three servers, the second of which may not run.
abbrev idle : Network
idle = record {
  with_rr = none;
  clients = client ∷ client ∷ client ∷ [];
  run_server = true ∷ false ∷ true ∷ [];
  running = [];
  processes = [];
}

abbrev busy : Network
busy = record idle { running = 0 ∷ 2 ∷ []; processes = (0, pos 7) ∷ (2, pos 8) ∷ [] }

idle-IsSound : IsSound idle
idle-IsSound = record { agree = refl; bounded = tt }

busy-IsSound : IsSound busy
busy-IsSound = record { agree = refl; bounded = (omega arith, (omega arith, tt)) }

servers_start-IsSound_example : IsSound (left (servers_start counting_os none none idle 7))
servers_start-IsSound_example = servers_start-IsSound counting_os none none idle 7 idle-IsSound

get_running_status-servers_start_example :
    ((servers_start counting_os none none idle 7).0 ≡ ok tt)
    × (get_running_status (left (servers_start counting_os none none idle 7))
        ≡ true ∷ false ∷ true ∷ [])
get_running_status-servers_start_example =
    get_running_status-servers_start counting_os counting_os-IsReliable none idle 7 refl refl

servers_stop-IsSound_example :
    IsSound (left (servers_stop counting_os (some (2 ∷ [])) busy 9))
    × ((left (servers_stop counting_os (some (2 ∷ [])) busy 9)).running
        ≡ discard_all (2 ∷ []) busy.running)
unfolding servers_stop
servers_stop-IsSound_example =
    servers_stop-IsSound counting_os (some (2 ∷ [])) busy 9 busy-IsSound refl

servers_stop-none_example :
    ((servers_stop counting_os none busy 9).0 ≡ ok tt)
    × ((left (servers_stop counting_os none busy 9)).running ≡ [])
    × (indexes (left (servers_stop counting_os none busy 9)).processes ≡ [])
servers_stop-none_example = servers_stop-none counting_os counting_os-IsReliable busy 9 busy-IsSound

servers_stop-key_error_example : (servers_stop counting_os (some (1 ∷ [])) busy 9).0 ≡ err key_error
servers_stop-key_error_example = servers_stop-key_error counting_os 1 busy 9 busy-IsSound refl
