-- ===== src/Repl/Keeps/Lines.antt =====
-- What a line of the interactive program keeps, and a session of lines.
use xbridge_witness.Base.{
  ℕ, zero, suc, String, Bool, true, false, Option, none, some, List, [], ◌∷◌, Result,
}
use xbridge_witness.Session.App.{App}
use xbridge_witness.Repl.State.{Chain, Repl, Shell, Flow, go, done, raise, Step}
use xbridge_witness.Repl.Show.{warn_unknown, show_tables, do_quit, do_addressbook, do_ious}
use xbridge_witness.Repl.Batch.{
  Method, addressbook, pay, xchain, new_account, wallet_propose, new_iou, ious, set_trust,
  ledger_accept, hook, setup_accounts, setup_ious, account_tx, new_bridge, bridge_aliases,
  bridge_create, xchain_claimid_create, xchain_commit, xchain_account_create, xchain_claim,
  load_batch, quit, Parser, returned, run_line, run_lines, load, do_load_batch, dispatch,
  run_method, onecmd, go_on, cmdloop,
}
use xbridge_witness.Repl.Keeps.{
  Stable, Keeps, Holds, ◌▹=◌, ◌▹◌, Keeps-pure, Keeps-fail, Keeps-get_state, Keeps-lift, Keeps-if,
  Keeps-catch, Keeps-print, Keeps-unless,
}
use xbridge_witness.Repl.Keeps.Args.{Keeps-pop}
use xbridge_witness.Repl.Keeps.Pay.{Keeps-do_pay, Keeps-do_xchain}
use xbridge_witness.Repl.Keeps.Accounts.{
  Keeps-exactly, Keeps-do_new_account, Keeps-do_wallet_propose, Keeps-do_new_iou,
  Keeps-do_set_trust, Keeps-do_ledger_accept, Keeps-do_account_tx,
}
use xbridge_witness.Repl.Keeps.Bridges.{
  Keeps-do_new_bridge, Keeps-do_bridge_aliases, Keeps-do_bridge_create,
  Keeps-do_xchain_claimid_create, Keeps-do_xchain_commit, Keeps-do_xchain_account_create,
  Keeps-do_xchain_claim,
}
use xbridge_witness.Repl.Keeps.Scenarios.{
  Keeps-do_hook, Keeps-do_setup_accounts, Keeps-do_setup_ious,
}

module _ {W : Type 0} {shell : Shell W} {P : Repl → W → Type 0} (stable : Stable shell P) where
  Keeps-warn_unknown :
      (known : String → Bool) (message : String → String) (n : Option String)
      → Keeps P (warn_unknown known message n)
  Keeps-warn_unknown known message none = Keeps-pure
  Keeps-warn_unknown known message (some n) = Keeps-if _ (Keeps-print stable.prints _) Keeps-pure

  Keeps-show_tables :
      (known : App → String → Bool) (table : App → Option String → Result String) (message : String)
      (n : Option String) (cs : List Chain)
      → Keeps P (show_tables known table message n cs)
  unfolding show_tables
  Keeps-show_tables known table message n [] = Keeps-pure
  Keeps-show_tables known table message n (c ∷ cs) =
      (Keeps-get_state ▹= λ r. Keeps-warn_unknown _ _ n ▹ Keeps-lift _ ▹= λ t.
      Keeps-print stable.prints _ ▹ Keeps-print stable.prints _)
      ▹ Keeps-show_tables known table message n cs

  Keeps-do_quit : Keeps P do_quit
  Keeps-do_quit = Keeps-print stable.prints _ ▹ record { at = λ r w p. p }

  Keeps-do_addressbook : (line : String) → Keeps P (do_addressbook shell line)
  unfolding do_addressbook
  Keeps-do_addressbook line = Keeps-unless stable.prints _ _ ▹ Keeps-show_tables _ _ _ _ _

  Keeps-do_ious : (line : String) → Keeps P (do_ious shell line)
  unfolding do_ious
  Keeps-do_ious line = Keeps-unless stable.prints _ _ ▹ Keeps-show_tables _ _ _ _ _

  Keeps-run_line :
      (run : String → Step W Bool) (line : String) (b : Bool)
      → ((l : String) → Keeps P (run l))
      → Keeps P (run_line run line b)
  Keeps-run_line run line true h = Keeps-print stable.prints _ ▹ h line ▹= λ stop. Keeps-pure
  Keeps-run_line run line false h = Keeps-pure

  Keeps-run_lines :
      (run : String → Step W Bool) (lines : List String)
      → ((l : String) → Keeps P (run l))
      → Keeps P (run_lines run lines)
  unfolding run_lines
  Keeps-run_lines run [] h = Keeps-pure
  Keeps-run_lines run (line ∷ lines) h = Keeps-run_line run _ _ h ▹ Keeps-run_lines run lines h

  Keeps-load :
      (run : String → Step W Bool) (f : String)
      → ((l : String) → Keeps P (run l))
      → Keeps P (load shell run f)
  Keeps-load run f h = record { at = λ r w p. p } ▹= λ there.
      Keeps-unless stable.prints there _ ▹ record { at = stable.lines_read f } ▹= λ lines.
      Keeps-run_lines run lines h

  Keeps-do_load_batch :
      (run : String → Step W Bool) (line : String)
      → ((l : String) → Keeps P (run l))
      → Keeps P (do_load_batch shell run line)
  unfolding do_load_batch
  Keeps-do_load_batch run line h =
      Keeps-exactly stable.prints _ _ _ ▹ Keeps-pop stable.prints _ ▹= λ (f, args).
      Keeps-catch (Keeps-load run _ h) λ e. Keeps-print stable.prints _

  Keeps-dispatch :
      (batch : String → Step W (Unit {0})) (m : Method) (line : String)
      → ((l : String) → Keeps P (batch l))
      → Keeps P (dispatch shell batch m line)
  unfolding dispatch
  Keeps-dispatch batch addressbook line h = Keeps-do_addressbook line
  Keeps-dispatch batch pay line h = Keeps-do_pay stable line
  Keeps-dispatch batch xchain line h = Keeps-do_xchain stable line
  Keeps-dispatch batch new_account line h = Keeps-do_new_account stable line
  Keeps-dispatch batch wallet_propose line h = Keeps-do_wallet_propose stable line
  Keeps-dispatch batch new_iou line h = Keeps-do_new_iou stable line
  Keeps-dispatch batch ious line h = Keeps-do_ious line
  Keeps-dispatch batch set_trust line h = Keeps-do_set_trust stable line
  Keeps-dispatch batch ledger_accept line h = Keeps-do_ledger_accept stable line
  Keeps-dispatch batch hook line h = Keeps-do_hook stable line
  Keeps-dispatch batch setup_accounts line h = Keeps-do_setup_accounts stable
  Keeps-dispatch batch setup_ious line h = Keeps-do_setup_ious stable
  Keeps-dispatch batch account_tx line h = Keeps-do_account_tx stable line
  Keeps-dispatch batch new_bridge line h = Keeps-do_new_bridge stable line
  Keeps-dispatch batch bridge_aliases line h = Keeps-do_bridge_aliases stable line
  Keeps-dispatch batch bridge_create line h = Keeps-do_bridge_create stable line
  Keeps-dispatch batch xchain_claimid_create line h = Keeps-do_xchain_claimid_create stable line
  Keeps-dispatch batch xchain_commit line h = Keeps-do_xchain_commit stable line
  Keeps-dispatch batch xchain_account_create line h = Keeps-do_xchain_account_create stable line
  Keeps-dispatch batch xchain_claim line h = Keeps-do_xchain_claim stable.prints shell line
  Keeps-dispatch batch load_batch line h = h line
  Keeps-dispatch batch quit line h = Keeps-do_quit

  Holds-returned : (o : Flow (Unit {0}) × Repl × W) → Holds P o → Holds P (returned o)
  Holds-returned (go u, r, w) h = h
  Holds-returned (done b, r, w) h = h
  Holds-returned (raise e, r, w) h = h

  Keeps-run_method :
      (parser : Parser) (batch : String → Step W (Unit {0})) (line : String)
      (parsed : Option (Method × String))
      → ((l : String) → Keeps P (batch l))
      → Keeps P (run_method shell parser batch line parsed)
  Keeps-run_method parser batch line none h = Keeps-print stable.prints _ ▹ Keeps-pure
  Keeps-run_method parser batch line (some (m, rest)) h = record {
    at = λ r w p. Holds-returned _ ((Keeps-dispatch batch m rest h).at r w p);
  }

  pub Keeps-onecmd :
      (parser : Parser) (depth : ℕ) (line : String) → Keeps P (onecmd shell parser depth line)
  unfolding onecmd
  Keeps-onecmd parser zero line = Keeps-run_method parser _ line _ λ l. Keeps-fail
  Keeps-onecmd parser (suc depth) line =
      Keeps-run_method parser _ line _ λ l. Keeps-do_load_batch _ l (Keeps-onecmd parser depth)

  Holds-go_on :
      (parser : Parser) (o : Flow Bool × Repl × W) (rest : Step W (Unit {0}))
      → Holds P o
      → Keeps P rest
      → Holds P (go_on shell parser o rest)
  Holds-go_on parser (go true, r, w) rest h k = h
  Holds-go_on parser (go false, r, w) rest h k = k.at r w h
  Holds-go_on parser (done b, r, w) rest h k = h
  Holds-go_on parser (raise e, r, w) rest h k = h

  -- What is stable is kept by any session of lines.
  pub Keeps-cmdloop :
      (parser : Parser) (depth : ℕ) (lines : List String)
      → Keeps P (cmdloop shell parser depth lines)
  unfolding cmdloop
  Keeps-cmdloop parser depth [] = record { at = λ r w p. p }
  Keeps-cmdloop parser depth (line ∷ lines) = record {
    at = λ r w p.
        Holds-go_on parser (onecmd shell parser depth line r w) _
          ((Keeps-onecmd parser depth line).at r w p) (Keeps-cmdloop parser depth lines);
  }
