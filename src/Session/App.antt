-- ===== src/Session/App.antt =====
-- `class App` of bin/python/app.py, over a client that sends commands as `RippleClient` of
-- bin/python/ripple_client.py does over a websocket.
use xbridge_witness.Base.{
  ℕ, ◌+◌, String, Bool, true, false, Option, none, some, List, [], ◌∷◌, ◌==◌, Result, ok, err, Exn,
  value_error, type_error, attribute_error, assertion_error, if◌then◌else◌, require, ◌>>=◌,
}
use xbridge_witness.Base.Int.{ℤ, pos}
use xbridge_witness.Base.Text.{truthy}
use xbridge_witness.Value.{
  Account, Asset, Value, num, int, dict, Fields, get, is_json_fields, item, as_str,
}
use xbridge_witness.Common.Account.{AccountArgs, init_account}
use xbridge_witness.Transaction.Types.{drops_fee, payment, init_payment, Transaction}
use xbridge_witness.Transaction.Encode.{to_cmd_obj}
use xbridge_witness.Transaction.Setters.{set_seq_and_fee}
use xbridge_witness.Command.Types.{
  Body, WalletPropose, AccountInfo, Command, init_command, sign, submit, ledger_accept,
  wallet_propose, account_info,
}
use xbridge_witness.Command.Websocket.{get_websocket_dict}
use xbridge_witness.Keys.AssetAliases.{AssetAliases}
use xbridge_witness.Keys.KeyManager.{KeyManager, add, is_alias, account_from_alias}

-- The server at the other end of the websocket: it is sent a JSON object and answers with one, or
-- the connection raises. Opening the connection counts as part of the exchange.
pub record Server (W : Type 0) : Type 0 where
  pub exchange : Fields → W → Result Fields × W

-- The part of the program's state that changes: the address book, the asset aliases, and
-- `Command.next_cmd_id`.
pub record App : Type 0 where
  pub standalone : Bool
  pub key_manager : KeyManager
  pub asset_aliases : AssetAliases
  pub next_cmd_id : ℕ

-- What a method leaves: its result, the program and the world.
abbrev pub Outcome {ℓ} : Type ℓ → Type 0 → Type ℓ
Outcome A W = Result A × App × W

-- The rest of a method; one that raises leaves what it has done so far.
abbrev pub follow {ℓ κ} :
    {A : Type ℓ} {B : Type κ} {W : Type 0} → Outcome A W → (A → App → W → Outcome B W) → Outcome B W
follow (ok a, app, w) f = f a app w
follow (err e, app, w) f = (err e, app, w)

-- `r[k]` on what a server returned
abbrev pub value_item : String → Value → Result Value
value_item k (dict d) = item k d
value_item k v = err type_error

abbrev pub text_item : String → Value → Result String
text_item k v = value_item k v >>= as_str

abbrev pub int_of : Value → Result ℤ
int_of (num (int z)) = ok z
int_of v = err type_error

abbrev pub fields_of : Value → Result Fields
fields_of (dict d) = ok d
fields_of v = err type_error

abbrev pub no_wallet_args : WalletPropose
no_wallet_args = record { passphrase = none; seed = none; seed_hex = none; key_type = none }

abbrev pub info_args : Account → AccountInfo
info_args a = record {
  account = a;
  strict = none;
  ledger_hash = none;
  ledger_index = none;
  queue = none;
  signers_list = none;
}

abbrev pub no_secret : Exn
no_secret = value_error "Cannot sign transaction without secret key"

-- `if not txn.account.secret_key`
abbrev pub secret_of : Option String → Result String
secret_of none = err no_secret
secret_of (some s) = if truthy s then ok s else err no_secret

-- The arguments of `Account(nickname=name, result_dict=d)`.
abbrev pub named : String → Fields → AccountArgs
named name d = record {
  account_id = none;
  nickname = some name;
  public_key = none;
  public_key_hex = none;
  secret_key = none;
  result_dict = some d;
}

abbrev pub payment_of : Account → Asset → Account → Transaction
payment_of source amt dst = record {
  header = record {
    account = source;
    flags = none;
    fee = none;
    sequence = none;
    account_txn_id = none;
    last_ledger_sequence = none;
    src_tag = none;
    memos = none;
  };
  body = payment (init_payment dst amt none none none none);
}

module _ {W : Type 0} (server : Server W) where
  abbrev pub answer : App → Result Fields × W → Outcome Value W
  answer app (err e, w) = (err e, app, w)
  answer app (ok j, w) =
      (require (value_error "Error sending websocket command") (get "result" j), app, w)

  abbrev pub transmit : Fields → App → W → Outcome Value W
  transmit d app w =
      if is_json_fields d then answer app (server.exchange d w) else (err type_error, app, w)

  -- `RippleClient._send_websock_command`, without its log: `json.dumps` refuses what is no JSON.
  unfoldable pub send_websock_command : Command → App → W → Outcome Value W
  unfolding get_websocket_dict
  send_websock_command c app w = follow (get_websocket_dict c, app, w) transmit

  -- `self(C(...))` for a command: its constructor, then `App.send_command`.
  unfoldable pub call : Body → App → W → Outcome Value W
  unfolding init_command send_websock_command
  call b app w =
      let (built, next) = init_command b app.next_cmd_id in
      follow (built, record app { next_cmd_id = next }, w) send_websock_command

  -- `App.send_signed`
  unfoldable pub send_signed : Transaction → App → W → Outcome Value W
  unfolding call to_cmd_obj
  send_signed txn app w =
      follow (secret_of txn.header.account.secret_key, app, w)
        λ secret app w.
          follow (to_cmd_obj txn, app, w)
            λ tx app w. follow (call (sign secret tx) app w) λ r app w.
              follow (text_item "tx_blob" r, app, w) λ blob app w. call (submit blob) app w

  abbrev pub sequence_of : Value → Result ℤ
  sequence_of r = value_item "account_data" r >>= λ v. value_item "Sequence" v >>= int_of

  -- `App.insert_seq_and_fee`: what it leaves of the transaction is its result.
  unfoldable pub insert_seq_and_fee : Transaction → App → W → Outcome Transaction W
  unfolding call set_seq_and_fee
  insert_seq_and_fee txn app w =
      follow (call (account_info (info_args txn.header.account)) app w) λ r app w.
        follow (sequence_of r, app, w)
          λ seq app w. (
            ok (record txn { header = set_seq_and_fee seq (drops_fee (pos 15)) txn.header }),
            app,
            w,
          )

  -- `App.__call__` on a transaction
  unfoldable pub call_transaction : Transaction → Bool → App → W → Outcome Value W
  unfolding send_signed insert_seq_and_fee
  call_transaction txn with_seq app w =
      if with_seq then follow (insert_seq_and_fee txn app w) send_signed else send_signed txn app w

  abbrev pub accept_if : Bool → App → W → Outcome (Unit {0}) W
  accept_if true app w = follow (call ledger_accept app w) (λ r app w. (ok tt, app, w))
  accept_if false app w = (ok tt, app, w)

  -- `App.maybe_ledger_accept`
  unfoldable pub maybe_ledger_accept : App → W → Outcome (Unit {0}) W
  unfolding call
  maybe_ledger_accept app w = accept_if app.standalone app w

  abbrev pub add_known : Account → App → W → Outcome (Option Account) W
  add_known a app w = (ok (some a), record app { key_manager = add a app.key_manager }, w)

  -- `Account(nickname=name, result_dict=self(WalletPropose(...)))`, then `self.key_manager.add`
  unfoldable pub propose_account : String → WalletPropose → App → W → Outcome (Option Account) W
  unfolding call add init_account
  propose_account name args app w =
      follow (call (wallet_propose args) app w)
        λ r app w. follow (fields_of r >>= λ d. init_account (named name d), app, w) add_known

  abbrev pub create : String → WalletPropose → App → W → Outcome (Option Account) W
  create name args app w =
      if name == "root"
      then (ok none, app, w)
      else if is_alias name app.key_manager
      then (err assertion_error, app, w)
      else propose_account name args app w

  -- `App.create_account`
  unfoldable pub create_account : String → App → W → Outcome (Option Account) W
  unfolding propose_account is_alias
  create_account name app w = create name no_wallet_args app w

  -- `App.create_account_from_seed`
  unfoldable pub create_account_from_seed :
      String → Option String → Option String → App → W → Outcome (Option Account) W
  unfolding propose_account is_alias
  create_account_from_seed name seed key_type app w =
      create name (record no_wallet_args { seed = seed; key_type = key_type }) app w

  -- `[self.create_account(n) for n in names]`
  unfoldable pub create_each : List String → App → W → Outcome (List (Option Account)) W
  unfolding create_account
  create_each [] app w = (ok [], app, w)
  create_each (n ∷ ns) app w =
      follow (create_account n app w)
        λ a app w. follow (create_each ns app w) λ accounts app w. (ok (a ∷ accounts), app, w)

  -- A payment to an account that is `None` fails when its dictionary is made.
  abbrev pub fund_one : Account → Asset → Option Account → App → W → Outcome Value W
  fund_one source amt none app w =
      (secret_of source.secret_key >>= λ s. err attribute_error, app, w)
  fund_one source amt (some dst) app w = send_signed (payment_of source amt dst) app w

  -- The loop that funds the accounts; the constructor of `Payment` takes an id.
  unfoldable pub fund_each :
      Account → Asset → List (Option Account) → App → W → Outcome (Unit {0}) W
  unfolding send_signed init_payment
  fund_each source amt [] app w = (ok tt, app, w)
  fund_each source amt (a ∷ accounts) app w =
      follow (fund_one source amt a (record app { next_cmd_id = app.next_cmd_id + 1 }) w)
        λ r. fund_each source amt accounts

  -- `App.create_accounts`, where the funding account is named and the amount is an asset
  unfoldable pub create_accounts :
      List String → String → Asset → App → W → Outcome (List (Option Account)) W
  unfolding create_each fund_each account_from_alias
  create_accounts names funding amt app w = follow (create_each names app w) λ accounts app w.
      follow (account_from_alias funding app.key_manager, app, w)
        λ source app w.
          follow (fund_each source amt accounts app w) λ u app w. (ok accounts, app, w)
