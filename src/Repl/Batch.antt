-- ===== src/Repl/Batch.antt =====
-- `do_load_batch` of bin/python/interactive.py, and the commands that a line may name.
use xbridge_witness.Base.{
  ℕ, zero, suc, String, Bool, true, false, Option, none, some, List, [], ◌∷◌, Exn, recursion_error,
}
use xbridge_witness.Base.Text.{truthy, split, strip}
use xbridge_witness.Base.Words.{words, concat}
use xbridge_witness.Repl.State.{
  Repl, Shell, Flow, go, done, raise, Step, ◌>>=◌, ◌>>◌, pure, fail, print, unless, catch, outside,
}
use xbridge_witness.Repl.Args.{pop}
use xbridge_witness.Repl.Pay.{do_pay, do_xchain}
use xbridge_witness.Repl.Accounts.{
  exactly, do_new_account, do_wallet_propose, do_new_iou, do_set_trust, do_ledger_accept,
  do_account_tx,
}
use xbridge_witness.Repl.Bridges.{do_new_bridge, do_bridge_aliases, do_bridge_create}
use xbridge_witness.Repl.Transfers.{
  do_xchain_claimid_create, do_xchain_commit, do_xchain_account_create, do_xchain_claim,
}
use xbridge_witness.Repl.Scenarios.{do_hook, do_setup_accounts, do_setup_ious}
use xbridge_witness.Repl.Show.{do_quit, do_addressbook, do_ious}

-- The methods `do_...`, but for those of `balance`, `account_info`, `server_info`, `federator_info`,
-- `subscribe`, `server_start` and `server_stop`, which are not modelled.
pub data Method : Type 0 where
  addressbook pay xchain new_account wallet_propose new_iou ious set_trust ledger_accept : Method
  hook setup_accounts setup_ious account_tx new_bridge bridge_aliases bridge_create : Method
  xchain_claimid_create xchain_commit xchain_account_create xchain_claim : Method
  load_batch quit : Method

-- What `cmd.Cmd` makes of a line, but for those of the methods that are not modelled: the method that it
-- names with the rest of the line, or none, for which a message is printed.
pub record Parser : Type 0 where
  pub parse_line : String → Option (Method × String)
  pub unknown : String → String

abbrev pub first_part : List String → String
first_part [] = ""
first_part (p ∷ ps) = p

-- `line.split("#")[0].strip()`
unfoldable pub without_comment : String → String
without_comment line = strip (first_part (split 35 line))

-- The value of a method: whether it ends the program. `None` does not.
abbrev pub returned : {W : Type 0} → Flow (Unit {0}) × Repl × W → Flow Bool × Repl × W
returned (go u, r, w) = (go false, r, w)
returned (done b, r, w) = (go b, r, w)
returned (raise e, r, w) = (raise e, r, w)

abbrev pub value_of : {W : Type 0} → Step W (Unit {0}) → Step W Bool
value_of m r w = returned (m r w)

abbrev pub run_line : {W : Type 0} → (String → Step W Bool) → String → Bool → Step W (Unit {0})
run_line onecmd line true = do
  print (concat ("Running: `" ∷ line ∷ "`" ∷ []))
  _ ← onecmd line
  pure tt
run_line onecmd line false = pure tt

-- The loop of `do_load_batch`: what a command returns is not looked at.
unfoldable pub run_lines : {W : Type 0} → (String → Step W Bool) → List String → Step W (Unit {0})
run_lines onecmd [] = pure tt
run_lines onecmd (line ∷ lines) = do
  run_line onecmd (without_comment line) (truthy (without_comment line))
  run_lines onecmd lines

module _ {W : Type 0} (shell : Shell W) where
  abbrev pub file_there : String → Step W Bool
  file_there f r w = pure (shell.is_file f w) r w

  abbrev pub load : (String → Step W Bool) → String → Step W (Unit {0})
  load onecmd f = do
    there ← file_there f
    unless there (concat ("Error: no such file: " ∷ f ∷ []))
    lines ← outside shell (shell.read_lines f)
    run_lines onecmd lines

  abbrev threw : Exn → Step W (Unit {0})
  threw e =
      print
        (concat ("Error: load_batch command threw an exception: `" ∷ shell.str_exn e ∷ "`" ∷ []))

  -- `BridgeRepl.do_load_batch`, where `onecmd` runs a line. The lines are read when the file is opened.
  unfoldable pub do_load_batch : (String → Step W Bool) → String → Step W (Unit {0})
  do_load_batch onecmd line = do
    let args = words line
    exactly 1 "load_batch command takes exactly one argument." args
    (f, args) ← pop args
    catch (load onecmd (shell.path f)) threw

  -- The method that a line names, where `batch` is `do_load_batch`.
  unfoldable pub dispatch : (String → Step W (Unit {0})) → Method → String → Step W (Unit {0})
  dispatch batch addressbook line = do_addressbook shell line
  dispatch batch pay line = do_pay shell line
  dispatch batch xchain line = do_xchain shell line
  dispatch batch new_account line = do_new_account shell line
  dispatch batch wallet_propose line = do_wallet_propose shell line
  dispatch batch new_iou line = do_new_iou shell line
  dispatch batch ious line = do_ious shell line
  dispatch batch set_trust line = do_set_trust shell line
  dispatch batch ledger_accept line = do_ledger_accept shell line
  dispatch batch hook line = do_hook shell line
  dispatch batch setup_accounts line = do_setup_accounts shell
  dispatch batch setup_ious line = do_setup_ious shell
  dispatch batch account_tx line = do_account_tx shell line
  dispatch batch new_bridge line = do_new_bridge shell line
  dispatch batch bridge_aliases line = do_bridge_aliases shell line
  dispatch batch bridge_create line = do_bridge_create shell line
  dispatch batch xchain_claimid_create line = do_xchain_claimid_create shell line
  dispatch batch xchain_commit line = do_xchain_commit shell line
  dispatch batch xchain_account_create line = do_xchain_account_create shell line
  dispatch batch xchain_claim line = do_xchain_claim shell line
  dispatch batch load_batch line = batch line
  dispatch batch quit line = do_quit

  module _ (parser : Parser) where
    abbrev pub run_method :
        (String → Step W (Unit {0})) → String → Option (Method × String) → Step W Bool
    run_method batch line none = print (parser.unknown line) >> pure false
    run_method batch line (some (m, rest)) = value_of (dispatch batch m rest)

    -- `self.onecmd(line)`, where batches may stand in batches as deep as Python's stack allows.
    unfoldable pub onecmd : ℕ → String → Step W Bool
    onecmd zero line = run_method (λ rest. fail recursion_error) line (parser.parse_line line)
    onecmd (suc depth) line =
        run_method (do_load_batch (onecmd depth)) line (parser.parse_line line)

    -- The lines that a user types, until one ends the program or raises.
    abbrev pub go_on : Flow Bool × Repl × W → Step W (Unit {0}) → Flow (Unit {0}) × Repl × W
    go_on (go true, r, w) rest = (go tt, r, w)
    go_on (go false, r, w) rest = rest r w
    go_on (done b, r, w) rest = (done b, r, w)
    go_on (raise e, r, w) rest = (raise e, r, w)

    unfoldable pub cmdloop : ℕ → List String → Step W (Unit {0})
    cmdloop depth [] r w = (go tt, r, w)
    cmdloop depth (line ∷ lines) r w = go_on (onecmd depth line r w) (cmdloop depth lines)
