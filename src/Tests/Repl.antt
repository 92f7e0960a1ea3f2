-- ===== src/Tests/Repl.antt =====
-- The commands of the interactive program at concrete inputs.
use xbridge_witness.Repl.PayRefused.{to_door, do_pay-refused}
use xbridge_witness.Base.{
  ℕ, ◌+◌, ◌*◌, ◌≡◌, arith, if◌then◌else◌, ◌==◌, refl, String, true, false, none, some, [], ◌∷◌,
  List, ok, length,
}
use xbridge_witness.Value.{Account, Fields, end, put, get, is_json_fields, str, dict}
use xbridge_witness.Value.Floats.{Floats}
use xbridge_witness.Keys.AssetAliases.{init_asset_aliases}
use xbridge_witness.Keys.KeyManager.{init_key_manager, add, KeyManager}
use xbridge_witness.Session.App.{Server, App}
use xbridge_witness.Session.Recording.{recording}
use xbridge_witness.Base.Decimal.{show, parse}
use xbridge_witness.Base.Hex.{unhexlify}
use xbridge_witness.Base.Words.{words}
use xbridge_witness.Common.Asset.{init_asset, asset_to_cmd_obj}
use xbridge_witness.Common.Hex.{codes}
use xbridge_witness.Repl.XchainLaws.{pay_door, do_xchain-sends}
use xbridge_witness.Value.Floats.{mul_number}
use xbridge_witness.Keys.KeyManager.{is_alias, account_from_alias}
use xbridge_witness.Session.Recording.{Numbered}
use xbridge_witness.Transaction.Types.{init_payment}
use xbridge_witness.Repl.State.{
  next, mainchain, sidechain, Repl, Shell, done, ◌>>=◌, ◌>>◌, send, accept_ledger,
}
use xbridge_witness.Repl.Args.{
  take_unit, take_chain, chain_of, known_account, take_amount, read_amount, take_asset, amount_of,
  scale,
}
use xbridge_witness.Repl.Pay.{do_pay, do_xchain, read_pay, send_pay}
use xbridge_witness.Repl.Transfers.{do_xchain_claim}
use xbridge_witness.Repl.Batch.{Parser, pay, quit, cmdloop, onecmd, run_lines}
use xbridge_witness.Repl.Recording.{recording_shell}
use xbridge_witness.Repl.Numbered.{cmdloop-Numbered}
use xbridge_witness.Repl.Aliases.{Known, book, StandsIn, cmdloop-StandsIn}
use xbridge_witness.Repl.PayLaws.{OnlyPrinted, plain_payment, drops, unit_size, do_pay-sends}
use xbridge_witness.Repl.ClaimLaws.{do_xchain_claim-OnlyPrinted}
use xbridge_witness.Repl.BatchLaws.{commands, run_all, run_lines-commands}

-- What the server says to everything.
reply : Fields
unfolding put
reply = put "result" (dict (put "tx_blob" (str "12") end)) end

abbrev server : Server ℕ
server = record { exchange = λ d w. (ok reply, w + 1) }

abbrev floats : Floats
floats = record {
  of_text = λ s. none;
  of_int = λ z. none;
  add = λ a b. a;
  sub = λ a b. a;
  mul = λ a b. a;
  eq = λ a b. true;
  eq_int = λ z a. true;
}

abbrev shell : Shell (List Fields × ℕ)
shell = record {
  server = λ c. recording server;
  sleep = λ n w. w;
  floats = floats;
  hooks_dir = ".";
  path = λ s. s;
  slash = λ s t. s;
  is_file = λ s w. true;
  read_bytes = λ s w. (ok (1 ∷ []), w);
  read_lines = λ s w. (ok ("pay" ∷ "quit # stop" ∷ " # nothing" ∷ []), w);
  load_json = λ s w. (ok end, w);
  append_file = λ s t w. (ok tt, w);
  dumps = λ v. "{}";
  show_value = λ v. "{}";
  repr_exn = λ e. "IndexError()";
  str_exn = λ e. "list index out of range";
  show_bridge = λ b. "bridge";
  show_bridges = λ b. "bridges";
  render_accounts = λ a b. ok "accounts";
  render_assets = λ a b c. ok "assets";
}

abbrev named : String → Account
named n = record {
  account_id = some n;
  nickname = some n;
  public_key = none;
  public_key_hex = none;
  secret_key = some "s";
}

keys : KeyManager
unfolding add
keys = add (named "door") (add (named "bob") (add (named "alice") init_key_manager))

abbrev app : App
app = record {
  standalone = true;
  key_manager = keys;
  asset_aliases = init_asset_aliases;
  next_cmd_id = 1;
}

abbrev repl : Repl
repl = record {
  mc_app = app;
  sc_app = app;
  next_cmd_id = 1;
  bridge_aliases = [];
  proof_aliases = ("p", str "proof") ∷ [];
  printed = [];
}

pay_test : length (do_pay shell "mainchain alice bob 3" repl ([], 0)).2.0 ≡ 3
unfolding do_pay read_pay send_pay ◌>>=◌ ◌>>◌ send accept_ledger words take_unit take_chain chain_of
    known_account is_alias account_from_alias take_amount read_amount take_asset amount_of scale
    keys reply parse mul_number init_asset asset_to_cmd_obj is_json_fields get init_payment
pay_test = refl

abbrev parser : Parser
parser = record {
  parse_line = λ l. some (if l == "pay" then pay else quit, "mainchain alice bob 3");
  unknown = λ l. l;
}

abbrev lines : List String
lines = "pay" ∷ "quit" ∷ []

cmdloop-Numbered_example :
    Numbered 1
      (cmdloop (recording_shell shell) parser 1 lines repl ([], ([], 0))).1.next_cmd_id
      (cmdloop (recording_shell shell) parser 1 lines repl ([], ([], 0))).2.0
cmdloop-Numbered_example = cmdloop-Numbered shell parser 1 lines repl ([], 0)

abbrev doors : Known
doors = record { alias = λ c. "door"; account = λ c. named "door" }

cmdloop-StandsIn_example :
    StandsIn doors mainchain (book mainchain (cmdloop shell parser 1 lines repl ([], 0)).1)
    × StandsIn doors sidechain (book sidechain (cmdloop shell parser 1 lines repl ([], 0)).1)
unfolding keys account_from_alias
cmdloop-StandsIn_example = cmdloop-StandsIn shell parser 1 lines repl ([], 0) doors refl refl

do_pay-refused_example : do_pay shell "mainchain alice door 3 xrp" repl ([], 0) ≡ (
  done false,
  record repl {
    printed =
        "Error: \"pay\" cannot be used for cross chain transactions. Use the \"xchain\" command instead."
        ∷ [];
  },
  ([], 0),
)
unfolding words keys account_from_alias
do_pay-refused_example =
    do_pay-refused shell "mainchain alice door 3 xrp" _ repl ([], 0)
      (to_door mainchain "alice" "3" false (named "alice") refl refl refl)

do_pay-sends_example :
    do_pay shell "mainchain alice bob 3 xrp" repl ([], 0)
    ≡ next
        (send shell mainchain
          (plain_payment (named "alice") (named "bob") (drops (3 * unit_size false)) none)
          repl
          ([], 0))
        (λ answer. accept_ledger shell mainchain)
unfolding words show keys account_from_alias
do_pay-sends_example =
    do_pay-sends shell "mainchain alice bob 3 xrp" mainchain "alice" "bob" 3 false (named "alice")
      (named "bob") repl ([], 0) refl refl refl refl refl

do_xchain_claim-OnlyPrinted_example :
    OnlyPrinted repl
      ([], 0)
      (do_xchain_claim shell "mainchain alice bob p" repl ([], 0)).1
      (do_xchain_claim shell "mainchain alice bob p" repl ([], 0)).2
do_xchain_claim-OnlyPrinted_example =
    do_xchain_claim-OnlyPrinted shell "mainchain alice bob p" repl ([], 0)

abbrev file : List String
file = "pay # alice" ∷ "# nothing" ∷ "quit" ∷ []

run_lines-commands_example :
    run_lines (onecmd shell parser 0) file repl ([], 0)
    ≡ run_all (onecmd shell parser 0) (commands file) repl ([], 0)
run_lines-commands_example = run_lines-commands (onecmd shell parser 0) file repl ([], 0)

do_xchain-sends_example :
    (h : String) × (do_xchain shell "sidechain alice bob 3 drops" repl ([], 0)
      ≡ pay_door shell sidechain (named "alice") (named "door") (3 * unit_size true) h repl ([], 0))
    × (unhexlify h ≡ some (codes "bob"))
unfolding words show keys account_from_alias
do_xchain-sends_example =
    do_xchain-sends shell "sidechain alice bob 3 drops" sidechain "alice" "bob" 3 true
      (named "alice") (named "bob") (named "door") "bob" repl ([], 0) refl refl refl refl refl refl
      refl (omega arith, (omega arith, (omega arith, tt)))
