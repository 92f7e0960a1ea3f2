-- ===== src/Repl/Pay.antt =====
-- `do_pay` and `do_xchain` of bin/python/interactive.py.
use xbridge_witness.Base.{String, Bool, true, false, not, none, some, List, ◌==◌, length, ltb}
use xbridge_witness.Base.Words.{words}
use xbridge_witness.Value.{Account, Asset}
use xbridge_witness.Common.Account.{account_id_str_as_hex}
use xbridge_witness.Keys.KeyManager.{account_from_alias}
use xbridge_witness.Transaction.Types.{payment, init_payment}
use xbridge_witness.Repl.State.{
  Chain, Shell, Step, ◌>>=◌, ◌>>◌, pure, print, unless, get_state, lift, no_more, app_of, other,
  send, accept_ledger, wait,
}
use xbridge_witness.Repl.Args.{
  take_unit, pop, first_chain, take_chain, not_known, known_account, take_amount, take_asset,
  bad_asset, name_alias, amount_of, txn_of, txn_with, memo, usage,
}

-- The number of words that a payment has.
abbrev pub four_or_five : {W : Type 0} → List String → Step W (Unit {0})
four_or_five args = do
  unless (not (ltb (length args) 4)) (usage "Too few arguments to pay command.")
  unless (not (ltb 5 (length args))) (usage "Too many arguments to pay command.")

abbrev pub no_door_source : String
no_door_source = "Error: The \"door\" account should never be used as a source of payments."

abbrev pub no_cross_chain : String
no_cross_chain =
    "Error: \"pay\" cannot be used for cross chain transactions. Use the \"xchain\" command instead."

abbrev pub no_door_from : String
no_door_from = "Error: The \"door\" account can not be used as the source of cross chain funds."

abbrev pub no_door_to : String
no_door_to = "Error: The \"door\" account can not be used as the destination of cross chain funds."

-- The message of `do_pay` reads the word after the alias.
abbrev pub name_next : {W : Type 0} → String → List String → Step W String
name_next alias args = do (a, rest) ← pop args; pure (bad_asset a)

abbrev pub warn_if : {W : Type 0} → Bool → String → Step W (Unit {0})
warn_if true message = print message
warn_if false message = pure tt

-- What a payment command names: the chain, the accounts and the amount.
pub record PayArgs : Type 0 where
  pub chain : Chain
  pub source : Account
  pub dst : Account
  pub amt : Asset

module _ {W : Type 0} (shell : Shell W) where
  -- `do_pay` up to its payment
  unfoldable pub read_pay : String → Step W PayArgs
  read_pay line = do
    let args = words line
    four_or_five args
    let (in_drops, args) = take_unit args
    (chain, args) ← take_chain first_chain args
    (nickname, args) ← pop args
    warn_if (nickname == "door") no_door_source
    source ← known_account not_known chain nickname
    (nickname, args) ← pop args
    unless (not (nickname == "door")) no_cross_chain
    dst ← known_account not_known chain nickname
    (v, args) ← take_amount shell.floats in_drops args
    (asset, args) ← take_asset name_next chain args
    no_more args
    amt ← amount_of shell.floats in_drops asset v
    pure (record { chain = chain; source = source; dst = dst; amt = amt })

  -- The payment of `do_pay`
  unfoldable pub send_pay : PayArgs → Step W (Unit {0})
  send_pay p = do
    _ ←
        send shell p.chain
          (txn_of p.source (payment (init_payment p.dst p.amt none none none none)))
    accept_ledger shell p.chain

  -- `BridgeRepl.do_pay`
  unfoldable pub do_pay : String → Step W (Unit {0})
  do_pay line = read_pay line >>= send_pay

  -- `do_xchain` up to its payment
  unfoldable pub read_xchain : String → Step W PayArgs
  read_xchain line = do
    let args = words line
    four_or_five args
    let (in_drops, args) = take_unit args
    (chain, args) ← take_chain first_chain args
    (nickname, args) ← pop args
    unless (not (nickname == "door")) no_door_from
    source ← known_account not_known chain nickname
    (nickname, args) ← pop args
    unless (not (nickname == "door")) no_door_to
    dst ← known_account not_known (other chain) nickname
    (v, args) ← take_amount shell.floats in_drops args
    (asset, args) ← take_asset name_alias chain args
    no_more args
    amt ← amount_of shell.floats in_drops asset v
    pure (record { chain = chain; source = source; dst = dst; amt = amt })

  abbrev pub is_standalone : Chain → Step W Bool
  is_standalone c = do r ← get_state; pure (app_of c r).standalone

  abbrev pub close_other : Chain → Bool → Step W (Unit {0})
  close_other c true = do wait shell 2; accept_ledger shell (other c)
  close_other c false = pure tt

  -- The payment of `do_xchain`: to the door, with the account of the other chain in its memo.
  unfoldable pub send_xchain : PayArgs → Step W (Unit {0})
  send_xchain p = do
    hex ← lift (account_id_str_as_hex p.dst)
    r ← get_state
    door ← lift (account_from_alias "door" (app_of p.chain r).key_manager)
    _ ← send shell p.chain (
        txn_with p.source (some (memo hex)) (payment (init_payment door p.amt none none none none)))
    accept_ledger shell p.chain
    alone ← is_standalone (other p.chain)
    close_other p.chain alone

  -- `BridgeRepl.do_xchain`
  unfoldable pub do_xchain : String → Step W (Unit {0})
  do_xchain line = read_xchain line >>= send_xchain
