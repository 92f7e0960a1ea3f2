-- ===== src/Testnet/Servers.antt =====
-- `Network.servers_start` and `Network.servers_stop` of bin/python/testnet.py.
use xbridge_witness.Base.{
  ℕ, String, Bool, true, false, Option, none, some, List, [], ◌∷◌, ◌++◌, ◌=ℕ◌, ◌&&◌, Result, ok,
  err, index_error, key_error, length, get_elem?, if◌then◌else◌,
}
use xbridge_witness.Base.Int.{ℤ, negsuc}
use xbridge_witness.Base.Text.{truthy}
use xbridge_witness.Testnet.Network.{
  Client, Network, mem, adjoin, discard, find_process, put_process, delete_process, range, pad,
}

-- The operating system: `subprocess.Popen`, which gives a pid or raises, and `Popen.wait`.
pub record Os (W : Type 0) : Type 0 where
  pub popen : List String → W → Result ℤ × W
  pub wait : ℤ → W → W

abbrev pub text_of : Option String → String
text_of none = "None"
text_of (some s) = s

abbrev given_rr : Option String → Bool
given_rr none = false
given_rr (some rr) = truthy rr

-- Only a config with a file has the sections that a client needs, so its file has a name.
-- The command that runs a server, under rr for server 0 if asked.
abbrev pub to_run : Option String → ℕ → Client → List String
to_run with_rr i c =
    let server = c.exe ∷ "--conf" ∷ text_of c.config.file_name ∷ [] in
    if given_rr with_rr && i =ℕ 0 then text_of with_rr ∷ "record" ∷ server else server

abbrev pub padded_args : ℕ → Option (List (List String)) → List (List String)
padded_args n none = pad n [] []
padded_args n (some args) = pad n [] args

-- `client.set_pid(p)` on the client of index `i`
abbrev pub set_pid : ℕ → ℤ → List Client → List Client
set_pid i p [] = []
set_pid ℕ.zero p (c ∷ cs) = record c { pid = some p } ∷ cs
set_pid (ℕ.suc i) p (c ∷ cs) = c ∷ set_pid i p cs

module _ {W : Type 0} (os : Os W) where
  -- What a method leaves: its result, the network and the world. A method that raises leaves what it
  -- has done so far.
  abbrev pub Outcome : Type 0
  Outcome = Result (Unit {0}) × Network × W

  abbrev pub and_then : Outcome → (Network → W → Outcome) → Outcome
  and_then (ok u, n, w) f = f n w
  and_then (err e, n, w) f = (err e, n, w)

  -- The bookkeeping after `subprocess.Popen`.
  abbrev pub started : ℕ → Network → Result ℤ × W → Outcome
  started i n (err e, w) = (err e, n, w)
  started i n (ok p, w) = (
    ok tt,
    record n {
      clients = set_pid i p n.clients;
      running = adjoin i n.running;
      processes = put_process i p n.processes;
    },
    w,
  )

  abbrev pub launch : ℕ → Option Client → Option (List String) → Network → W → Outcome
  launch i none args n w = (err index_error, n, w)
  launch i (some c) none n w = (err index_error, n, w)
  launch i (some c) (some args) n w = started i n (os.popen (to_run n.with_rr i c ++ args) w)

  abbrev pub launch_if : List (List String) → ℕ → Option Bool → Network → W → Outcome
  launch_if extra_args i none n w = (err index_error, n, w)
  launch_if extra_args i (some false) n w = (ok tt, n, w)
  launch_if extra_args i (some true) n w =
      launch i (get_elem? n.clients i) (get_elem? extra_args i) n w

  -- One round of the loop of `servers_start`.
  unfoldable pub start_one : List (List String) → ℕ → Network → W → Outcome
  unfolding adjoin put_process
  start_one extra_args i n w =
      if mem i n.running
      then (ok tt, n, w)
      else launch_if extra_args i (get_elem? n.run_server i) n w

  unfoldable pub start_each : List (List String) → List ℕ → Network → W → Outcome
  unfolding start_one
  start_each extra_args [] n w = (ok tt, n, w)
  start_each extra_args (i ∷ is) n w =
      and_then (start_one extra_args i n w) (start_each extra_args is)

  abbrev pub all_indexes : Option (List ℕ) → Network → List ℕ
  all_indexes none n = range 0 (length n.clients)
  all_indexes (some is) n = is

  -- `Network.servers_start`, without the sleep at its end
  unfoldable pub servers_start :
      Option (List ℕ) → Option (List (List String)) → Network → W → Outcome
  unfolding start_each
  servers_start server_indexes extra_args n w =
      start_each (padded_args (length n.clients) extra_args) (all_indexes server_indexes n) n w

  abbrev pub stopped : ℕ → Network → Result ℤ × W → Outcome
  stopped i n (err e, w) = (err e, n, w)
  stopped i n (ok p, w) = (ok tt, record n { running = discard i n.running }, w)

  abbrev pub tell : ℕ → Option Client → Network → W → Outcome
  tell i none n w = (err index_error, n, w)
  tell i (some c) n w =
      stopped i n (os.popen (c.exe ∷ "--conf" ∷ text_of c.config.file_name ∷ "stop" ∷ []) w)

  -- One round of the first loop of `servers_stop`: the server is told to stop.
  unfoldable pub tell_one : ℕ → Network → W → Outcome
  unfolding discard
  tell_one i n w = if mem i n.running then tell i (get_elem? n.clients i) n w else (ok tt, n, w)

  unfoldable pub tell_each : List ℕ → Network → W → Outcome
  unfolding tell_one
  tell_each [] n w = (ok tt, n, w)
  tell_each (i ∷ is) n w = and_then (tell_one i n w) (tell_each is)

  abbrev pub forget : ℕ → Option Client → Network → W → Outcome
  forget i none n w = (err index_error, n, w)
  forget i (some c) n w = (ok tt, record n { clients = set_pid i (negsuc 0) n.clients }, w)

  abbrev pub reap : ℕ → Option ℤ → Network → W → Outcome
  reap i none n w = (err key_error, n, w)
  reap i (some p) n w =
      forget i (get_elem? n.clients i) (record n { processes = delete_process i n.processes })
        (os.wait p w)

  -- One round of the second loop: the process is waited for, and its pid becomes -1.
  unfoldable pub reap_one : ℕ → Network → W → Outcome
  unfolding find_process delete_process
  reap_one i n w = reap i (find_process i n.processes) n w

  unfoldable pub reap_each : List ℕ → Network → W → Outcome
  unfolding reap_one
  reap_each [] n w = (ok tt, n, w)
  reap_each (i ∷ is) n w = and_then (reap_one i n w) (reap_each is)

  abbrev pub chosen : Option (List ℕ) → Network → List ℕ
  chosen none n = n.running
  chosen (some is) n = is

  -- `Network.servers_stop`
  unfoldable pub servers_stop : Option (List ℕ) → Network → W → Outcome
  unfolding tell_each reap_each
  servers_stop server_indexes n w =
      let is = chosen server_indexes n in and_then (tell_each is n w) (reap_each is)
