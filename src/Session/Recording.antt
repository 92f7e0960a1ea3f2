-- ===== src/Session/Recording.antt =====
-- A session of requests to `class App` of bin/python/app.py, and the messages that it sends.
use xbridge_witness.Value.Floats.{Floats}
use xbridge_witness.Session.Queries.{get_account_info, get_trust_lines, get_balances, get_balance}
use xbridge_witness.Base.{ℕ, ◌+◌, ◌≤◌, ◌≡◌, String, Bool, true, Option, some, List, [], ◌∷◌, ◌++◌}
use xbridge_witness.Base.Int.{pos}
use xbridge_witness.Value.{Asset, num, int, Fields, get, is_json_fields, Account}
use xbridge_witness.Transaction.Types.{Transaction}
use xbridge_witness.Command.Types.{Body}
use xbridge_witness.Session.App.{
  Server, App, Outcome, call, call_transaction, maybe_ledger_accept, create_account,
  create_account_from_seed, create_accounts,
}

-- The same server, with a record of the messages that it was sent.
abbrev pub recording : {W : Type 0} → Server W → Server (List Fields × W)
recording server = record {
  exchange = λ d (sent, w). let (r, w') = server.exchange d w in (r, (sent ++ d ∷ [], w'));
}

-- What a method leaves, without its result.
abbrev state {ℓ} : {A : Type ℓ} {W : Type 0} → Outcome A W → App × W
state (r, app, w) = (app, w)

-- What a user of an `App` may ask it, but for subscriptions and the information on a federator: the body of
-- a command is no transaction, which `App.__call__` sends in other ways, and the constructor of a transaction
-- takes an id; the queries on accounts and balances are those of one account.
pub data Request : Type 0 where
  command : Body → Request
  send : (txn : Transaction) → (with_seq : Bool) → Request
  accept : Request
  new_account : (name : String) → Request
  seeded_account : (name : String) → (seed key_type : Option String) → Request
  new_accounts : (names : List String) → (funding : String) → (amt : Asset) → Request
  query_account : Account → Request
  query_lines : Account → Request
  query_balances : Account → Asset → Request
  query_balance : Floats → Account → Asset → Request

-- One request, whatever it returns or raises.
unfoldable pub request : {W : Type 0} → Server W → Request → App → W → App × W
unfolding call call_transaction maybe_ledger_accept create_account create_account_from_seed
    create_accounts get_account_info get_trust_lines get_balances get_balance
request server (command b) app w = state (call server b app w)
request server (send txn with_seq) app w =
    state
      (call_transaction server txn with_seq (record app { next_cmd_id = app.next_cmd_id + 1 }) w)
request server accept app w = state (maybe_ledger_accept server app w)
request server (new_account name) app w = state (create_account server name app w)
request server (seeded_account name seed key_type) app w =
    state (create_account_from_seed server name seed key_type app w)
request server (new_accounts names funding amt) app w =
    state (create_accounts server names funding amt app w)
request server (query_account a) app w = state (get_account_info server a app w)
request server (query_lines a) app w = state (get_trust_lines server a app w)
request server (query_balances a asset) app w = state (get_balances server a asset app w)
request server (query_balance F a asset) app w = state (get_balance server F a asset app w)

unfoldable pub session : {W : Type 0} → Server W → List Request → App → W → App × W
unfolding request
session server [] app w = (app, w)
session server (r ∷ rs) app w = let (app', w') = request server r app w in session server rs app' w'

-- The messages are JSON, and their ids grow strictly from `lo` on, and stay below `hi`.
abbrev pub Numbered : ℕ → ℕ → List Fields → Type 0
Numbered lo hi [] = lo ≤ hi
Numbered lo hi (d ∷ ds) =
    (k : ℕ) × (lo ≤ k)
    × (get "id" d ≡ some (num (int (pos k))))
    × (is_json_fields d ≡ true)
    × Numbered (k + 1) hi ds
