-- ===== src/Repl/Scenarios.antt =====
-- `do_hook`, `do_setup_accounts` and `do_setup_ious` of bin/python/interactive.py.
use xbridge_witness.Base.{String, Bool, not, ◌||◌, Option, none, some, List, [], ◌∷◌, ◌==◌}
use xbridge_witness.Base.Int.{ℤ, pos}
use xbridge_witness.Base.Hex.{hexlify}
use xbridge_witness.Base.Words.{words, concat}
use xbridge_witness.Value.{Account, Asset, Value, int}
use xbridge_witness.Common.Account.{account_id_str_as_hex}
use xbridge_witness.Common.Asset.{call_asset}
use xbridge_witness.Keys.KeyManager.{account_from_alias}
use xbridge_witness.Transaction.Types.{payment, init_payment, trust, set_hook}
use xbridge_witness.Session.App.{create_account}
use xbridge_witness.Repl.State.{
  Chain, mainchain, sidechain, Shell, Step, ◌>>=◌, ◌>>◌, pure, unless, get_state, lift, no_more,
  app_of, on, outside, send, accept_ledger, wait,
}
use xbridge_witness.Repl.Args.{pop, not_known, known_account, txn_of, txn_with, memo}
use xbridge_witness.Repl.Accounts.{exactly, add_alias}

abbrev is_valid_hook : String → Bool
is_valid_hook s = s == "doubler" || s == "notascam"

abbrev invalid_hook : String → String
invalid_hook s = concat (s ∷ " is not a valid hook. Valid hooks are: ['doubler', 'notascam']" ∷ [])

abbrev no_hook_file : String → String
no_hook_file f = concat ("Error: The hook file " ∷ f ∷ " does not exist." ∷ [])

-- `SetHook` without `hook_on`
abbrev hook_on_all : String
hook_on_all = "0000000000000000"

-- `chain.account_from_alias(alias)`
unfoldable pub alias_account : {W : Type 0} → Chain → String → Step W Account
alias_account c alias = do r ← get_state; lift (account_from_alias alias (app_of c r).key_manager)

abbrev pub xrp_drops : ℤ → Asset
xrp_drops z = record { value = some (int z); currency = "XRP"; issuer = none }

abbrev pub usd : Account → Asset
usd issuer = record { value = some (int (pos 0)); currency = "USD"; issuer = some issuer }

module _ {W : Type 0} (shell : Shell W) where
  -- `HOOKS_DIR / hook_name / f"{hook_name}.wasm"`
  abbrev hook_file : String → String
  hook_file name = shell.slash (shell.slash shell.hooks_dir name) (concat (name ∷ ".wasm" ∷ []))

  abbrev pub file_there : String → Step W Bool
  file_there f r w = pure (shell.is_file f w) r w

  -- `BridgeRepl.do_hook`, with `_file_to_hex`
  unfoldable pub do_hook : String → Step W (Unit {0})
  do_hook line = do
    let args = words line
    exactly 2 "hook command takes two arguments." args
    (nickname, args) ← pop args
    (name, args) ← pop args
    no_more args
    unless (not (nickname == "door")) "Error: Cannot set hooks on the \"door\" account."
    source ← known_account not_known sidechain nickname
    unless (is_valid_hook name) (invalid_hook name)
    there ← file_there (hook_file name)
    unless there (no_hook_file (hook_file name))
    code ← outside shell (shell.read_bytes (hook_file name))
    _ ←
        send shell sidechain
          (txn_of source (set_hook (record { create_code = hexlify code; hook_on = hook_on_all })))
    accept_ledger shell sidechain

  unfoldable pub pay_from : Chain → Account → Account → Asset → Option Value → Step W (Unit {0})
  pay_from c source dst amt memos = do
    _ ← send shell c (txn_with source memos (payment (init_payment dst amt none none none none)))
    pure tt

  -- `chain(Trust(account=..., limit_amt=asset(n)))`
  unfoldable pub trust_up_to : Chain → Account → Asset → ℤ → Step W (Unit {0})
  trust_up_to c account asset n = do
    limit ← lift (call_asset shell.floats asset (some (int n)))
    _ ←
        send shell c
          (txn_of account (trust (record { limit_amt = some limit; qin = none; qout = none })))
    pure tt

  -- `for a in names: chain.create_account(a)`
  unfoldable pub create_named : Chain → List String → Step W (Unit {0})
  create_named c [] = pure tt
  create_named c (a ∷ names) = do
    _ ← on shell c (λ server app. create_account server a app)
    create_named c names

  -- `BridgeRepl.do_setup_accounts`
  unfoldable pub do_setup_accounts : Step W (Unit {0})
  do_setup_accounts = do
    create_named mainchain ("alice" ∷ "bob" ∷ [])
    create_named sidechain ("brad" ∷ "carol" ∷ [])
    source ← alias_account mainchain "root"
    dst ← alias_account mainchain "alice"
    pay_from mainchain source dst (xrp_drops (pos 5000000000)) none
    accept_ledger shell mainchain

  -- The trust line and the balance that the accounts get on the main chain.
  abbrev pub fund_alice : Asset → Step W (Unit {0})
  fund_alice asset = do
    alice ← alias_account mainchain "alice"
    trust_up_to mainchain alice asset (pos 1000000)
    accept_ledger shell mainchain
    root ← alias_account mainchain "root"
    alice ← alias_account mainchain "alice"
    amt ← lift (call_asset shell.floats asset (some (int (pos 10000))))
    pay_from mainchain root alice amt none
    accept_ledger shell mainchain

  -- `BridgeRepl.do_setup_ious`
  unfoldable pub do_setup_ious : Step W (Unit {0})
  do_setup_ious = do
    root ← alias_account mainchain "root"
    door ← alias_account sidechain "door"
    add_alias shell mainchain (usd root) "rrr"
    add_alias shell sidechain (usd door) "ddd"
    alice ← alias_account mainchain "alice"
    trust_up_to mainchain alice (usd root) (pos 1000000)
    brad ← alias_account sidechain "brad"
    hex ← lift (account_id_str_as_hex brad)
    alice ← alias_account mainchain "alice"
    main_door ← alias_account mainchain "door"
    pay_from mainchain alice main_door (xrp_drops (pos 3000000000)) (some (memo hex))
    accept_ledger shell mainchain
    fund_alice (usd root)
    wait shell 2
    brad ← alias_account sidechain "brad"
    trust_up_to sidechain brad (usd door) (pos 1000000)
