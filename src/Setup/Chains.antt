-- ===== src/Setup/Chains.antt =====
-- `setup_mainchain` and `setup_sidechain` of bin/python/sidechain.py: the requests by which a bridge is set
-- up on its two chains.
use xbridge_witness.Base.{
  ◌+◌, String, Bool, true, false, none, some, List, [], ◌∷◌, length, Result, ok, err, index_error,
}
use xbridge_witness.Base.Int.{ℤ, pos}
use xbridge_witness.Value.{Account, Asset, int, dict, Fields, item}
use xbridge_witness.Command.Types.{log_level, wallet_propose}
use xbridge_witness.Transaction.Types.{
  Transaction, init_account_set, account_set, payment, init_payment, trust, signer_list_set,
  init_signer_list_set, xchain_create_bridge,
}
use xbridge_witness.Transaction.Setters.{default_ripple, set_account}
use xbridge_witness.Keys.KeyManager.{add}
use xbridge_witness.Session.App.{
  Server, follow, call, call_transaction, maybe_ledger_accept, no_wallet_args, text_item,
}
use xbridge_witness.Repl.Args.{txn_of}
use xbridge_witness.Repl.Scenarios.{xrp_drops}
use xbridge_witness.Repl.Bridges.{bridge_of}
use xbridge_witness.Session.Requests.{Requests, ◌>>=◌, ◌>>◌, lift}
use xbridge_witness.Setup.Quorum.{quorum}

-- What the functions read of `class Params`.
pub record Params : Type 0 where
  pub mc_door_account : Account
  pub sc_door_account : Account
  pub user_account : Account
  pub genesis_account : Account
  pub witness_configs : List Fields

-- `app.add_to_keymanager(a)`
unfoldable pub add_to_keymanager : {W : Type 0} → Account → Requests W (Unit {0})
unfolding add
add_to_keymanager a app w = (ok tt, record app { key_manager = add a app.key_manager }, w)

abbrev pub add_if : {W : Type 0} → Bool → Account → Requests W (Unit {0})
add_if true a = add_to_keymanager a
add_if false a = lift (ok tt)

-- `witness_configs[0]`
abbrev first_config : List Fields → Result Fields
first_config [] = err index_error
first_config (c ∷ cs) = ok c

module _ {W : Type 0} (server : Server W) where
  -- `app(T(...))` for a transaction, whose constructor takes an id
  unfoldable pub ask : Transaction → Requests W (Unit {0})
  unfolding call_transaction
  ask txn app w =
      follow
        (call_transaction server txn false (record app { next_cmd_id = app.next_cmd_id + 1 }) w)
        λ r app w. (ok tt, app, w)

  abbrev accept : Requests W (Unit {0})
  accept app w = maybe_ledger_accept server app w

  abbrev silence : Requests W (Unit {0})
  silence app w =
      follow (call server (log_level (record { severity = "fatal"; partition = none })) app w)
        λ r app w. (ok tt, app, w)

  -- `account_id_from_secret`
  unfoldable pub account_id_from_secret : String → String → Requests W String
  unfolding call
  account_id_from_secret key key_type app w =
      follow
        (call server
          (wallet_propose (record no_wallet_args { seed = some key; key_type = some key_type })) app
          w)
        λ r app w. (text_item "account_id" r, app, w)

  -- `[account_id_from_secret(...) for wc in params.witness_configs]`; the seed and the key type are texts.
  unfoldable pub witness_ids : List Fields → Requests W (List String)
  unfolding account_id_from_secret
  witness_ids [] = lift (ok [])
  witness_ids (c ∷ cs) = do
    key ← lift (text_item "SigningKeySeed" (dict c))
    key_type ← lift (text_item "SigningKeyType" (dict c))
    id ← account_id_from_secret key key_type
    ids ← witness_ids cs
    lift (ok (id ∷ ids))

  -- The bridge of the first witness, and the list of the witnesses as signers for the door.
  unfoldable pub create_bridge : Account → List Fields → Requests W (Unit {0})
  unfolding quorum witness_ids init_signer_list_set ask
  create_bridge door configs = do
    c ← lift (first_config configs)
    v ← lift (item "XChainBridge" c)
    bridge ← lift (bridge_of v)
    ids ← witness_ids configs
    signers ← lift (init_signer_list_set ids none (pos (quorum (length configs))))
    ask (txn_of door (signer_list_set signers))
    ask (
        txn_of door (
          xchain_create_bridge (record {
            bridge = bridge;
            reward = xrp_drops (pos 1000000);
            min_account_create = some (xrp_drops (pos 1000000));
          })))
    accept

  -- `params.genesis_account` pays.
  abbrev fund : Account → Account → ℤ → Requests W (Unit {0})
  fund genesis dst n = do
    ask (txn_of genesis (payment (init_payment dst (xrp_drops n) none none none none)))
    accept

  abbrev fund_if : Bool → Account → Account → ℤ → Requests W (Unit {0})
  fund_if true genesis dst n = fund genesis dst n
  fund_if false genesis dst n = lift (ok tt)

  abbrev usd_limit : Account → Asset
  usd_limit genesis = record {
    value = some (int (pos 1000000));
    currency = "USD";
    issuer = some genesis;
  }

  -- `setup_mainchain`
  unfoldable pub setup_mainchain : Params → Bool → Requests W (Unit {0})
  unfolding add_to_keymanager create_bridge ask
  setup_mainchain p users = do
    add_to_keymanager p.mc_door_account
    add_if users p.user_account
    silence
    ask (txn_of p.genesis_account (account_set (set_account default_ripple true init_account_set)))
    accept
    fund p.genesis_account p.mc_door_account (pos 10000000000)
    ask (
        txn_of p.mc_door_account (
          trust
            (record { limit_amt = some (usd_limit p.genesis_account); qin = none; qout = none })))
    accept
    create_bridge p.mc_door_account p.witness_configs
    fund_if users p.genesis_account p.user_account (pos 2000000000)

  -- `setup_sidechain`
  unfoldable pub setup_sidechain : Params → Bool → Requests W (Unit {0})
  unfolding add_to_keymanager create_bridge
  setup_sidechain p users = do
    add_to_keymanager p.sc_door_account
    silence
    create_bridge p.sc_door_account p.witness_configs
    add_if users p.user_account
