-- ===== src/Testnet/Network.antt =====
-- `class Network` of bin/python/testnet.py with its clients: the state and the queries.
use xbridge_witness.Base.{
  ℕ, ◌+◌, ◌-◌, String, Bool, true, false, Option, none, some, List, [], ◌∷◌, ◌++◌, ◌=ℕ◌, map,
  Result, ok, err, value_error, ◌>>=◌, ◌>>◌, map_list, length, replicate, if◌then◌else◌,
}
use xbridge_witness.Base.Int.{ℤ}
use xbridge_witness.Base.Text.{append}
use xbridge_witness.Config.Section.{get_attr}
use xbridge_witness.Config.File.{ConfigFile, get_section}

-- `RippleClient`, without its open connections and tasks
pub record Client : Type 0 where
  pub config : ConfigFile
  pub exe : String
  pub command_log : Option String
  pub websocket_uri : String
  pub pid : Option ℤ

-- `RippleClient.__init__`, without the start of the log file
unfoldable pub init_client : String → ConfigFile → Option String → Result Client
unfolding get_section get_attr
init_client exe config log = do
  section ← get_section "port_ws_admin_local" config
  protocol ← get_attr "protocol" section
  ip ← get_attr "ip" section
  port ← get_attr "port" section
  ok (record {
    config = config;
    exe = exe;
    command_log = log;
    websocket_uri = append protocol (append "://" (append ip (append ":" port)));
    pid = none;
  })

-- `running` is the set of the running indexes, `processes` the dictionary of the processes, by their
-- pids.
pub record Network : Type 0 where
  pub with_rr : Option String
  pub clients : List Client
  pub run_server : List Bool
  pub running : List ℕ
  pub processes : List (ℕ × ℤ)

-- `i in s`, `s.add(i)` and `s.discard(i)`, on a set without repetition
abbrev pub mem : ℕ → List ℕ → Bool
mem i [] = false
mem i (j ∷ s) = if j =ℕ i then true else mem i s

unfoldable pub adjoin : ℕ → List ℕ → List ℕ
adjoin i [] = i ∷ []
adjoin i (j ∷ s) = if j =ℕ i then j ∷ s else j ∷ adjoin i s

unfoldable pub discard : ℕ → List ℕ → List ℕ
discard i [] = []
discard i (j ∷ s) = if j =ℕ i then s else j ∷ discard i s

-- `self.processes[i]`, `self.processes[i] = p` and `del self.processes[i]`
unfoldable pub find_process : ℕ → List (ℕ × ℤ) → Option ℤ
find_process i [] = none
find_process i ((j, p) ∷ ps) = if j =ℕ i then some p else find_process i ps

unfoldable pub put_process : ℕ → ℤ → List (ℕ × ℤ) → List (ℕ × ℤ)
put_process i p [] = (i, p) ∷ []
put_process i p ((j, q) ∷ ps) = if j =ℕ i then (j, p) ∷ ps else (j, q) ∷ put_process i p ps

unfoldable pub delete_process : ℕ → List (ℕ × ℤ) → List (ℕ × ℤ)
delete_process i [] = []
delete_process i ((j, q) ∷ ps) = if j =ℕ i then ps else (j, q) ∷ delete_process i ps

-- `range(n)` from `i` on
abbrev pub range : ℕ → ℕ → List ℕ
range i ℕ.zero = []
range i (ℕ.suc n) = i ∷ range (i + 1) n

-- `Network.get_running_status`
unfoldable pub get_running_status : Network → List Bool
get_running_status n = map (λ i. mem i n.running) (range 0 (length n.clients))

-- `Network.is_running`
unfoldable pub is_running : ℕ → Network → Bool
is_running i n = mem i n.running

abbrev pids : List Client → List ℤ
pids [] = []
pids (c ∷ cs) = elim c.pid [ none ↦ pids cs | some p ↦ p ∷ pids cs ]

-- `Network.get_pids`
unfoldable pub get_pids : Network → List ℤ
get_pids n = pids n.clients

-- `xs += [x] * (n - len(xs))`
abbrev pub pad {ℓ} : {A : Type ℓ} → ℕ → A → List A → List A
pad n x xs = xs ++ replicate (n - length xs) x

abbrev listed {ℓ} : {A : Type ℓ} → Option (List A) → List A
listed none = []
listed (some xs) = xs

-- A list of flags that is given has to fit the configs, an empty one counts as not given.
abbrev check_flags : ℕ → List Bool → Result (Unit {0})
check_flags n [] = ok tt
check_flags n (b ∷ bs) =
    if length (b ∷ bs) =ℕ n
    then ok tt
    else err (value_error "run_server length must match number of configs (or be None)")

abbrev make_clients : String → List ConfigFile → List (Option String) → Result (List Client)
make_clients exe [] logs = ok []
make_clients exe (c ∷ cs) [] = ok []
make_clients exe (c ∷ cs) (l ∷ ls) =
    init_client exe c l >>= λ client. make_clients exe cs ls >>= λ rest. ok (client ∷ rest)

-- `Network.__init__` up to the start of the servers. Each config must have a section for the
-- database, whose files are removed; that removal is left out, and the messages show no numbers.
unfoldable pub init_network :
    String
    → List ConfigFile
    → Option (List (Option String))
    → Option (List Bool)
    → Option String
    → Result Network
unfolding get_section
init_network exe [] command_logs run_server with_rr =
    err (value_error "Must specify at least one config")
init_network exe (c ∷ cs) command_logs run_server with_rr = do
  check_flags (length (c ∷ cs)) (listed run_server)
  databases ← map_list (get_section "database_path") (c ∷ cs)
  clients ← make_clients exe (c ∷ cs) (pad (length (c ∷ cs)) none (listed command_logs))
  ok (record {
    with_rr = with_rr;
    clients = clients;
    run_server = pad (length (c ∷ cs)) true (listed run_server);
    running = [];
    processes = [];
  })
