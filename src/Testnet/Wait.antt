-- ===== src/Testnet/Wait.antt =====
-- `Network.wait_for_validated_ledger` and `get_brief_server_info` of bin/python/testnet.py, and
-- `RippleClient.get_brief_server_info` of bin/python/ripple_client.py, without what they print.
use xbridge_witness.Value.Truth.{truthy_value}
use xbridge_witness.Base.{
  ℕ, ◌+◌, ◌%◌, String, Bool, true, false, ◌&&◌, ◌||◌, not, Option, none, some, List, [], ◌∷◌, ◌++◌,
  ◌==◌, ◌=ℕ◌, Result, ok, err, name_error, type_error, index_error, value_error, require,
  map_option, if◌then◌else◌, is_some, or_else, length, get_elem?,
}
use xbridge_witness.Base
use xbridge_witness.Base.Int.{ℤ, pos, negsuc}
use xbridge_witness.Value.{Value, str, dict, Fields, get}
use xbridge_witness.Command.Types.{server_info}
use xbridge_witness.Session.App.{Server, call, value_item, fields_of}
use xbridge_witness.Session.Requests.{Requests, ◌>>=◌, ◌>>◌, lift}
use xbridge_witness.Testnet.Network.{range}

-- `"info" in r`, and what is there
abbrev pub info_of : Value → Result (Option Value)
info_of (dict d) = ok (get "info" d)
info_of v = err type_error

abbrev pub is_text : String → Option Value → Bool
is_text s (some (str t)) = t == s
is_text s _ = false

-- `state == "proposing"` on an answer to ServerInfo
unfoldable pub is_proposing : Value → Result Bool
is_proposing r =
    Base.◌>>=◌ (info_of r) λ info.
      Base.◌>>=◌ (map_option (value_item "server_state") info) λ s. ok (is_text "proposing" s)

-- `r["info"]["complete_ledgers"]`, if the answer has an info
unfoldable pub complete_ledgers : Value → Result (Option Value)
complete_ledgers r = Base.◌>>=◌ (info_of r) (map_option (value_item "complete_ledgers"))

-- `complete_ledgers and complete_ledgers != "empty"`
abbrev pub is_complete : Value → Bool
is_complete v = truthy_value v && not (is_text "empty" (some v))

-- What a round of the second loop comes to: the loop returns, or it goes on, and the variable
-- `complete_ledgers` is bound or not.
pub data Round : Type 0 where
  found : Round
  again : (bound : Bool) → Round

abbrev pub round_of : Bool → Option Value → Round
round_of bound none = again bound
round_of bound (some l) = if is_complete l then found else again true

abbrev pub could_not_sync : String
could_not_sync = "Could not sync server {client.config_file_name}"

module _ {W : Type 0} (server : Server W) (sleep : W → W) where
  abbrev pub pause : Requests W (Unit {0})
  pause app w = (ok tt, app, sleep w)

  -- `client.send_command(ServerInfo())`
  unfoldable pub ask_info : Requests W Value
  ask_info app w = call server server_info app w

  -- `break`, or the rest of the round
  abbrev pub stop_if : Bool → (Unit {0} → Requests W (Unit {0})) → Requests W (Unit {0})
  stop_if true rest = lift (ok tt)
  stop_if false rest = rest tt

  -- The first loop, with the rounds that are left: it ends also where the server never proposes.
  unfoldable pub wait_proposing : ℕ → Requests W (Unit {0})
  wait_proposing ℕ.zero = lift (ok tt)
  wait_proposing (ℕ.suc n) = do
    r ← ask_info
    proposing ← lift (is_proposing r)
    stop_if proposing λ _. pause >> wait_proposing n

  -- The `print` of every tenth round reads the variable.
  abbrev pub print_ledgers : ℕ → Bool → Requests W (Unit {0})
  print_ledgers i bound = lift (if i % 10 =ℕ 0 && not bound then err name_error else ok tt)

  abbrev pub end_or_go_on : Round → (Bool → Requests W (Unit {0})) → Requests W (Unit {0})
  end_or_go_on found rest = lift (ok tt)
  end_or_go_on (again bound) rest = rest bound

  -- The second loop, with the rounds that are left, in round `i`
  unfoldable pub wait_complete : ℕ → ℕ → Bool → Requests W (Unit {0})
  wait_complete ℕ.zero i bound = lift (err (value_error could_not_sync))
  wait_complete (ℕ.suc n) i bound = do
    r ← ask_info
    ledgers ← lift (complete_ledgers r)
    end_or_go_on (round_of bound ledgers)
        λ b. print_ledgers i b >> pause >> wait_complete n (i + 1) b

  -- `Network.wait_for_validated_ledger` for one server
  unfoldable pub wait_for_server : Requests W (Unit {0})
  wait_for_server = wait_proposing 600 >> wait_complete 600 0 false

module _ {W : Type 0} (servers : List (Server W)) (sleep : W → W) where
  abbrev pub wait_at : ℕ → Requests W (Unit {0})
  wait_at i = lift (require index_error (get_elem? servers i)) >>= λ s. wait_for_server s sleep

  unfoldable pub wait_each : List ℕ → Requests W (Unit {0})
  wait_each [] = lift (ok tt)
  wait_each (i ∷ is) = wait_at i >> wait_each is

  -- `Network.wait_for_validated_ledger`, of all servers without an index
  unfoldable pub wait_for_validated_ledger : Option ℕ → Requests W (Unit {0})
  wait_for_validated_ledger none = wait_each (range 0 (length servers))
  wait_for_validated_ledger (some i) = wait_at i

-- The dictionary of `get_brief_server_info`, with its three keys
pub record Brief : Type 0 where
  pub server_state : Value
  pub ledger_seq : Value
  pub complete_ledgers : Value

abbrev pub not_available : Brief
not_available = record {
  server_state = str "NA";
  ledger_seq = str "NA";
  complete_ledgers = str "NA";
}

-- `not self.pid or self.pid == -1`
abbrev pub is_stopped : Option ℤ → Bool
is_stopped none = true
is_stopped (some (pos ℕ.zero)) = true
is_stopped (some (pos (ℕ.suc n))) = false
is_stopped (some (negsuc ℕ.zero)) = true
is_stopped (some (negsuc (ℕ.suc n))) = false

abbrev pub value_or : Value → Option Value → Value
value_or v none = v
value_or v (some u) = u

-- `r["validated_ledger"]["seq"]`, if there is a validated ledger
abbrev pub seq_of : Option Value → Result Value
seq_of none = ok (str "NA")
seq_of (some v) = value_item "seq" v

abbrev pub brief_of : Fields → Result Brief
brief_of d = Base.◌>>=◌ (seq_of (get "validated_ledger" d)) λ seq. ok (record {
  server_state = value_or (str "NA") (get "server_state" d);
  ledger_seq = seq;
  complete_ledgers = value_or (str "NA") (get "complete_ledgers" d);
})

abbrev pub read_brief : Option Value → Result Brief
read_brief none = ok not_available
read_brief (some v) = Base.◌>>=◌ (fields_of v) brief_of

module _ {W : Type 0} where
  -- `RippleClient.get_brief_server_info`, of a client with its pid
  unfoldable pub get_brief_server_info : Server W → Option ℤ → Requests W Brief
  get_brief_server_info server pid =
      let asked = do r ← ask_info server (λ w. w); info ← lift (info_of r); lift (read_brief info)
      in if is_stopped pid then lift (ok not_available) else asked

  -- `Network.get_brief_server_info`: the lists under the three keys, as a list of the clients' answers
  unfoldable pub all_brief_server_info : List (Server W × Option ℤ) → Requests W (List Brief)
  all_brief_server_info [] = lift (ok [])
  all_brief_server_info ((server, pid) ∷ clients) = do
    info ← get_brief_server_info server pid
    infos ← all_brief_server_info clients
    lift (ok (info ∷ infos))
