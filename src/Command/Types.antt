-- ===== src/Command/Types.antt =====
-- The classes of bin/python/command.py, their constructors and their names.
use xbridge_witness.Base.{
  ℕ, ◌+◌, String, Bool, ◌&&◌, not, Option, none, some, List, is_some, Result, ok, assert, ◌>>=◌,
}
use xbridge_witness.Base.Int.{ℤ}
use xbridge_witness.Value.{Account, Asset, Value, Fields}
use xbridge_witness.Transaction.Types.{Transaction}

-- A ledger is named by its number, or by a word such as "validated".
pub data LedgerIndex : Type 0 where
  number : ℤ → LedgerIndex
  word : String → LedgerIndex

pub record PathFind : Type 0 where
  pub src : Account
  pub dst : Account
  pub amt : Asset
  pub send_max : Option Asset
  pub src_currencies : Option (List Asset)
  pub ledger_hash : Option String
  pub ledger_index : Option LedgerIndex

pub record LogLevel : Type 0 where
  pub severity : String
  pub partition : Option String

pub record WalletPropose : Type 0 where
  pub passphrase : Option String
  pub seed : Option String
  pub seed_hex : Option String
  pub key_type : Option String

pub record AccountInfo : Type 0 where
  pub account : Account
  pub strict : Option Bool
  pub ledger_hash : Option String
  pub ledger_index : Option LedgerIndex
  pub queue : Option Bool
  pub signers_list : Option Bool

pub record AccountLines : Type 0 where
  pub account : Account
  pub peer : Option Account
  pub ledger_hash : Option String
  pub ledger_index : Option LedgerIndex
  pub limit : Option ℤ
  pub marker : Option Value

pub record AccountTx : Type 0 where
  pub account : Account
  pub limit : Option ℤ
  pub marker : Option Value

pub record BookOffers : Type 0 where
  pub taker_pays : Asset
  pub taker_gets : Asset
  pub taker : Option Account
  pub ledger_hash : Option String
  pub ledger_index : Option LedgerIndex
  pub limit : Option ℤ
  pub marker : Option Value

pub record BookSubscription : Type 0 where
  pub taker_pays : Asset
  pub taker_gets : Asset
  pub taker : Option Account
  pub snapshot : Option Bool
  pub both : Option Bool

-- `websocket` is the connection, by a number, once the command is subscribed.
pub record Subscribe : Type 0 where
  pub streams : Option (List String)
  pub accounts : Option (List Account)
  pub account_history_account : Option Account
  pub accounts_proposed : Option (List Account)
  pub books : Option (List BookSubscription)
  pub url : Option String
  pub url_username : Option String
  pub url_password : Option String
  pub websocket : Option ℕ

-- The subclasses of `Command`.
pub data Body : Type 0 where
  path_find : PathFind → Body
  sign : (secret : String) → (tx : Fields) → Body
  submit : (tx_blob : String) → Body
  ledger_accept stop server_info federator_info : Body
  log_level : LogLevel → Body
  wallet_propose : WalletPropose → Body
  validation_create : (secret : Option String) → Body
  account_info : AccountInfo → Body
  account_lines : AccountLines → Body
  account_tx : AccountTx → Body
  book_offers : BookOffers → Body
  subscribe : Subscribe → Body
  transaction : Transaction → Body

pub record Command : Type 0 where
  pub cmd_id : ℕ
  pub body : Body

-- `assert not ((ledger_hash is not None) and (ledger_index is not None))`
abbrev pub check_ledger : Option String → Option LedgerIndex → Result (Unit {0})
check_ledger hash index = assert (not (is_some hash && is_some index))

-- The assertions of the constructors.
abbrev pub check_body : Body → Result (Unit {0})
check_body (account_info a) = check_ledger a.ledger_hash a.ledger_index
check_body (account_lines a) = check_ledger a.ledger_hash a.ledger_index
check_body (book_offers b) = check_ledger b.ledger_hash b.ledger_index
check_body _ = ok tt

-- A constructor, on `Command.next_cmd_id`: the id is taken before the assertion of the subclass.
unfoldable pub init_command : Body → ℕ → Result Command × ℕ
init_command b next = (check_body b >>= λ _. ok (record { cmd_id = next; body = b }), next + 1)

abbrev subscribe_name : Option ℕ → String
subscribe_name none = "subscribe"
subscribe_name (some ws) = "unsubscribe"

-- `cmd_name`
unfoldable pub cmd_name : Body → String
cmd_name (path_find p) = "ripple_path_find"
cmd_name (sign secret tx) = "sign"
cmd_name (submit blob) = "submit"
cmd_name ledger_accept = "ledger_accept"
cmd_name stop = "stop"
cmd_name server_info = "server_info"
cmd_name federator_info = "federator_info"
cmd_name (log_level l) = "log_level"
cmd_name (wallet_propose w) = "wallet_propose"
cmd_name (validation_create secret) = "validation_create"
cmd_name (account_info a) = "account_info"
cmd_name (account_lines a) = "account_lines"
cmd_name (account_tx a) = "account_tx"
cmd_name (book_offers b) = "book_offers"
cmd_name (subscribe s) = subscribe_name s.websocket
cmd_name (transaction t) = "submit"
