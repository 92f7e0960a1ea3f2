-- ===== src/Repl/Accounts.antt =====
-- The commands of bin/python/interactive.py on address books and asset aliases: `do_new_account`,
-- `do_wallet_propose`, `do_new_iou`, `do_set_trust`, `do_ledger_accept`, `do_account_tx`.
use xbridge_witness.Base.{
  ℕ, String, Bool, true, false, not, ◌||◌, none, some, List, [], ◌∷◌, ◌==◌, ◌=ℕ◌, if◌then◌else◌,
  length, ltb, name_error, value_error,
}
use xbridge_witness.Base.Int.{pos}
use xbridge_witness.Base.Text.{append}
use xbridge_witness.Base.Words.{words, concat}
use xbridge_witness.Value.{Account, Asset, int}
use xbridge_witness.Common.Asset.{call_asset}
use xbridge_witness.Keys.KeyManager.{is_alias, account_from_alias}
use xbridge_witness.Keys.AssetAliases.{is_asset_alias, asset_from_alias, add_asset_alias}
use xbridge_witness.Transaction.Types.{trust}
use xbridge_witness.Command.Types.{AccountTx, account_tx}
use xbridge_witness.Session.App.{call, create_account, create_account_from_seed}
use xbridge_witness.Repl.State.{
  Chain, Shell, Step, ◌>>=◌, ◌>>◌, pure, fail, print, unless, get_state, lift, no_more, app_of,
  put_app, on, outside, send, accept_ledger, go,
}
use xbridge_witness.Repl.Args.{
  pop, bad_chain, take_chain, known_account, read_amount, found_amount, txn_of, usage,
}

-- `def f(self, line)` takes the words of the line apart when their number is right.
abbrev pub exactly : {W : Type 0} → ℕ → String → List String → Step W (Unit {0})
exactly n message args = unless (length args =ℕ n) (usage message)

-- `(a, b, c) = args`
abbrev pub three : {W : Type 0} → List String → Step W (String × String × String)
three (a ∷ b ∷ c ∷ []) = pure (a, b, c)
three _ = fail (value_error "unpack")

abbrev pub knows : {W : Type 0} → Chain → String → Step W Bool
knows c alias = do r ← get_state; pure (is_alias alias (app_of c r).key_manager)

abbrev pub knows_asset : {W : Type 0} → Chain → String → Step W Bool
knows_asset c alias = do r ← get_state; pure (is_asset_alias alias (app_of c r).asset_aliases)

-- `if not chain.is_alias(accountStr): print(f"... {issuer} ..."); return`: the name is not bound there.
abbrev pub bound : {W : Type 0} → Bool → Step W (Unit {0})
bound true = pure tt
bound false = fail name_error

abbrev pub exists_already : String → String
exists_already alias = concat ("Error: The alias " ∷ alias ∷ " already exists." ∷ [])

abbrev pub no_issuer : String → String
no_issuer i = concat ("Error: The issuer " ∷ i ∷ " is not part of the address book." ∷ [])

-- `if key_type not in [...]: print(...)`, and no more
abbrev pub warn_key_type : {W : Type 0} → String → Step W (Unit {0})
warn_key_type k =
    if k == "ed25519" || k == "secp256k1"
    then pure tt
    else print (concat ("Invalid keytype: " ∷ k ∷ ". Must be either ed25519 or secp256k1" ∷ []))

module _ {W : Type 0} (shell : Shell W) where
  abbrev pub new_one : Chain → String → Bool → Step W (Unit {0})
  new_one c alias true = print (concat ("Warning: The alias " ∷ alias ∷ " already exists." ∷ []))
  new_one c alias false = do _ ← on shell c (λ server app. create_account server alias app); pure tt

  -- The loop of `do_new_account`
  unfoldable pub new_each : Chain → List String → Step W (Unit {0})
  new_each c [] = pure tt
  new_each c (alias ∷ args) = do known ← knows c alias; new_one c alias known; new_each c args

  -- `BridgeRepl.do_new_account`
  unfoldable pub do_new_account : String → Step W (Unit {0})
  do_new_account line = do
    let args = words line
    unless (not (ltb (length args) 2)) (usage "new_account command takes at least two arguments.")
    (c, args) ← take_chain bad_chain args
    new_each c args

  -- `BridgeRepl.do_wallet_propose`
  unfoldable pub do_wallet_propose : String → Step W (Unit {0})
  do_wallet_propose line = do
    let args = words line
    exactly 4 "wallet_propose command takes exactly four arguments." args
    (c, args) ← take_chain bad_chain args
    (alias, args) ← pop args
    known ← knows c alias
    unless (not known) (exists_already alias)
    (seed, args) ← pop args
    (key_type, args) ← pop args
    warn_key_type key_type
    no_more args
    _ ←
        on shell c
          (λ server app. create_account_from_seed server alias (some seed) (some key_type) app)
    pure tt

  abbrev pub add_alias : Chain → Asset → String → Step W (Unit {0})
  add_alias c asset alias r w =
      let app = app_of c r in
      (
        go tt,
        put_app c (record app { asset_aliases = add_asset_alias asset alias app.asset_aliases }) r,
        w,
      )

  -- `BridgeRepl.do_new_iou`
  unfoldable pub do_new_iou : String → Step W (Unit {0})
  do_new_iou line = do
    let args = words line
    exactly 4 "new_iou command takes exactly four arguments." args
    (c, args) ← take_chain bad_chain args
    (alias, currency, issuer) ← three args
    known ← knows_asset c alias
    unless (not known) (exists_already alias)
    i ← known_account no_issuer c issuer
    add_alias c (record { value = some (int (pos 0)); currency = currency; issuer = some i }) alias

  -- `BridgeRepl.do_set_trust`
  unfoldable pub do_set_trust : String → Step W (Unit {0})
  do_set_trust line = do
    let args = words line
    exactly 4 "set_trust command takes exactly four arguments." args
    (c, args) ← take_chain bad_chain args
    (alias, name, amount) ← three args
    known ← knows_asset c alias
    unless known (concat ("Error: The alias " ∷ alias ∷ " does not exists." ∷ []))
    known ← knows c name
    bound known
    r ← get_state
    account ← lift (account_from_alias name (app_of c r).key_manager)
    v ←
        found_amount (append "Error: Invalid amount " amount)
          (read_amount shell.floats false amount)
    asset ← lift (asset_from_alias alias (app_of c r).asset_aliases)
    limit ← lift (call_asset shell.floats asset (some v))
    _ ←
        send shell c
          (txn_of account (trust (record { limit_amt = some limit; qin = none; qout = none })))
    accept_ledger shell c

  -- `BridgeRepl.do_ledger_accept`
  unfoldable pub do_ledger_accept : String → Step W (Unit {0})
  do_ledger_accept line = do
    let args = words line
    exactly 1 "ledger_accept command takes exactly one argument." args
    (c, args) ← take_chain bad_chain args
    no_more args
    accept_ledger shell c

  abbrev pub write_out : List String → String → Step W (Unit {0})
  write_out [] result = pure tt
  write_out (f ∷ fs) result = outside shell (shell.append_file f (append result "\n"))

  -- The optional name of a file, which is not empty when it is there.
  abbrev take_file : List String → List String × List String
  take_file [] = ([], [])
  take_file (f ∷ args) = (f ∷ [], args)

  abbrev every_tx : Account → AccountTx
  every_tx a = record { account = a; limit = none; marker = none }

  -- `BridgeRepl.do_account_tx`
  unfoldable pub do_account_tx : String → Step W (Unit {0})
  do_account_tx line = do
    let args = words line
    unless (not (ltb (length args) 2)) (usage "account_tx command takes two or three arguments.")
    (c, args) ← take_chain bad_chain args
    (name, args) ← pop args
    let (out_file, args) = take_file args
    no_more args
    known ← knows c name
    bound known
    r ← get_state
    account ← lift (account_from_alias name (app_of c r).key_manager)
    answer ← on shell c (λ server app. call server (account_tx (every_tx account)) app)
    print (shell.dumps answer)
    write_out out_file (shell.dumps answer)
