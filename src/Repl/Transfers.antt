-- ===== src/Repl/Transfers.antt =====
-- The commands of bin/python/interactive.py on transfers over a bridge: `do_xchain_claimid_create`,
-- `do_xchain_commit`, `do_xchain_account_create` and `do_xchain_claim`.
use xbridge_witness.Base.{
  String, not, ◌||◌, Option, none, some, List, [], ◌∷◌, ◌==◌, if◌then◌else◌, length, ltb, Exn,
  name_error,
}
use xbridge_witness.Base.Int.{ℤ}
use xbridge_witness.Base.Dict.{lookup}
use xbridge_witness.Base.Words.{words, concat}
use xbridge_witness.Base.Decimal.{parse}
use xbridge_witness.Value.{Account, Value}
use xbridge_witness.Common.Asset.{asset_of_value}
use xbridge_witness.Common.Bridge.{Bridge}
use xbridge_witness.Transaction.Types.{
  xchain_create_claim_id, xchain_commit, xchain_account_create, xchain_claim, init_xchain_claim,
}
use xbridge_witness.Repl.State.{
  Chain, Shell, Step, ◌>>=◌, ◌>>◌, pure, fail, print, refuse, unless, get_state, lift, catch,
  no_more, other, send, accept_ledger,
}
use xbridge_witness.Repl.Args.{
  take_unit, pop, first_chain, take_chain, chain_of, found_chain, not_known, known_account,
  take_account, take_amount, scale, take_asset, name_alias, amount_of, known_bridge, txn_of, usage,
}
use xbridge_witness.Repl.Accounts.{exactly}

-- `print(f"Unexpected error: {e=}")`
abbrev unexpected : {W : Type 0} → Shell W → Exn → Step W (Unit {0})
unexpected shell e = print (concat ("Unexpected error: e=" ∷ shell.repr_exn e ∷ []))

abbrev unknown_bridge : String → String
unknown_bridge a = concat ("Error: " ∷ a ∷ " is not a known bridge" ∷ [])

-- `claim_id = int(args[0])`
abbrev pub found_id : {W : Type 0} → String → Option ℤ → Step W ℤ
found_id a none = refuse (concat ("Error: Expected the claim_id: " ∷ a ∷ " to be an integer" ∷ []))
found_id a (some z) = pure z

module _ {W : Type 0} (shell : Shell W) where
  abbrev pub name_or : Option Bridge → Step W Bridge
  name_or none = fail name_error
  name_or (some b) = pure b

  -- `BridgeRepl.do_xchain_claimid_create`: the message on an unknown bridge names no variable.
  unfoldable pub do_xchain_claimid_create : String → Step W (Unit {0})
  do_xchain_claimid_create line = do
    let args = words line
    unless (not (ltb (length args) 5 || ltb 6 (length args)))
        (usage "xchain_claimid_create takes five or six arguments.")
    (a, rest) ← pop args
    _ ← found_chain first_chain (chain_of a)
    let (in_drops, args) = take_unit args
    (c, args) ← take_chain first_chain args
    (source, args) ← take_account c args
    (other_account, args) ← take_account (other c) args
    (reward, args) ← take_amount shell.floats in_drops args
    reward ← lift (scale shell.floats in_drops reward)
    (alias, args) ← pop args
    r ← get_state
    bridge ← name_or (lookup alias r.bridge_aliases)
    no_more args
    reward ← lift (asset_of_value shell.floats reward)
    answer ← send shell c (
        txn_of source (
          xchain_create_claim_id
            (record { bridge = bridge; reward = reward; other_chain_account = other_account })))
    print (shell.show_value answer)
    accept_ledger shell c

  -- The destination of a commit: none, or an account of the other chain.
  abbrev pub take_destination : Chain → List String → Step W (Option Account × List String)
  take_destination c args = do
    (nickname, args) ← pop args
    (if nickname == "None"
        then pure (none, args)
        else known_account not_known c nickname >>= λ a. pure (some a, args))

  abbrev pub commit : String → Step W (Unit {0})
  commit line = do
    let args = words line
    unless (not (ltb (length args) 6)) (usage "xchain_commit takes at least six arguments.")
    unless (not (ltb 7 (length args))) (usage "xchain_commit takes at most seven arguments.")
    let (in_drops, args) = take_unit args
    (c, args) ← take_chain first_chain args
    (source, args) ← take_account c args
    (dst, args) ← take_destination (other c) args
    (alias, args) ← pop args
    bridge ← known_bridge (unknown_bridge alias) alias
    (a, args) ← pop args
    claim_id ← found_id a (parse a)
    (v, args) ← take_amount shell.floats in_drops args
    (asset, args) ← take_asset name_alias c args
    no_more args
    amt ← amount_of shell.floats in_drops asset v
    _ ← send shell c (
        txn_of source (
          xchain_commit (record {
            bridge = bridge;
            claim_id = claim_id;
            amount = amt;
            other_chain_destination = dst;
          })))
    accept_ledger shell c

  -- `BridgeRepl.do_xchain_commit`
  unfoldable pub do_xchain_commit : String → Step W (Unit {0})
  do_xchain_commit line = catch (commit line) (unexpected shell)

  abbrev pub account_create : String → Step W (Unit {0})
  account_create line = do
    let args = words line
    exactly 6 "xchain_account_create takes at exactly six arguments." args
    let (in_drops, args) = take_unit args
    (c, args) ← take_chain first_chain args
    (source, args) ← take_account c args
    (dst, args) ← take_account (other c) args
    (alias, args) ← pop args
    bridge ← known_bridge (unknown_bridge alias) alias
    (v, args) ← take_amount shell.floats in_drops args
    v ← lift (scale shell.floats in_drops v)
    amt ← lift (asset_of_value shell.floats v)
    (v, args) ← take_amount shell.floats in_drops args
    v ← lift (scale shell.floats in_drops v)
    reward ← lift (asset_of_value shell.floats v)
    no_more args
    _ ← send shell c (
        txn_of source (
          xchain_account_create
            (record { bridge = bridge; amount = amt; signature_reward = reward; dst = dst })))
    accept_ledger shell c

  -- `BridgeRepl.do_xchain_account_create`
  unfoldable pub do_xchain_account_create : String → Step W (Unit {0})
  do_xchain_account_create line = catch (account_create line) (unexpected shell)

  -- The message on an unknown proof names a variable that is not bound yet.
  unfoldable pub claim_with : Chain → Account → Account → Option Value → Step W (Unit {0})
  claim_with c source dst none = fail name_error
  claim_with c source dst (some proof) = do
    txn ←
        lift (
          init_xchain_claim dst ("account" ∷ "proof" ∷ [])
            (txn_of source (xchain_claim dst)).header)
    _ ← send shell c txn
    accept_ledger shell c

  abbrev pub claim : String → Step W (Unit {0})
  claim line = do
    let args = words line
    exactly 4 "xchain_claim takes exactly four arguments." args
    (c, args) ← take_chain first_chain args
    (source, args) ← take_account c args
    (dst, args) ← take_account c args
    (alias, args) ← pop args
    r ← get_state
    claim_with c source dst (lookup alias r.proof_aliases)

  -- `BridgeRepl.do_xchain_claim`: whatever it raises is written to the error output.
  unfoldable pub do_xchain_claim : String → Step W (Unit {0})
  do_xchain_claim line = catch (claim line) (λ e. pure tt)
