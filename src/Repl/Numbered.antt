-- ===== src/Repl/Numbered.antt =====
-- The messages of a session of the interactive program, to both chains.
use xbridge_witness.Base.{ℕ, ◌+◌, String, false, List, [], Option, arith}
use xbridge_witness.Value.{Fields}
use xbridge_witness.Command.Types.{Body, WalletPropose}
use xbridge_witness.Transaction.Types.{Transaction}
use xbridge_witness.Keys.AssetAliases.{AssetAliases}
use xbridge_witness.Session.App.{
  App, maybe_ledger_accept, call, create_account, create_account_from_seed, no_wallet_args,
}
use xbridge_witness.Session.Recording.{Numbered}
use xbridge_witness.Session.Messages.{
  Numbered-le, Keeps-call, Keeps-call_transaction, Keeps-accept_if, Keeps-create,
}
use xbridge_witness.Repl.State.{
  Chain, mainchain, sidechain, Repl, Shell, send, accept_ledger, app_of, put_app, on,
}
use xbridge_witness.Repl.Batch.{Parser, cmdloop}
use xbridge_witness.Repl.Recording.{recording_shell}
use xbridge_witness.Repl.Keeps.{Stable}
use xbridge_witness.Repl.Keeps.Lines.{Keeps-cmdloop}

module _ {W : Type 0} (shell : Shell W) (lo : ℕ) where
  abbrev AllNumbered : Repl → List Fields × W → Type 0
  AllNumbered r (sent, w) = Numbered lo r.next_cmd_id sent

  -- The app after the constructor of a transaction took an id.
  abbrev made : Chain → Repl → App
  made c r = record (app_of c r) { next_cmd_id = (app_of c r).next_cmd_id + 1 }

  abbrev seed_args : Option String → Option String → WalletPropose
  seed_args seed key_type = record no_wallet_args { seed = seed; key_type = key_type }

  sent_lem :
      (c : Chain) (txn : Transaction) (r : Repl) (w : List Fields × W)
      → AllNumbered r w
      → AllNumbered
          (send (recording_shell shell) c txn r w).1
          (send (recording_shell shell) c txn r w).2
  unfolding send
  sent_lem mainchain txn r w h =
      Keeps-call_transaction (shell.server mainchain) lo txn false (made mainchain r) w
        (Numbered-le lo _ (r.next_cmd_id + 1) w.0 (omega arith) h)
  sent_lem sidechain txn r w h =
      Keeps-call_transaction (shell.server sidechain) lo txn false (made sidechain r) w
        (Numbered-le lo _ (r.next_cmd_id + 1) w.0 (omega arith) h)

  accepted_lem :
      (c : Chain) (r : Repl) (w : List Fields × W)
      → AllNumbered r w
      → AllNumbered
          (accept_ledger (recording_shell shell) c r w).1
          (accept_ledger (recording_shell shell) c r w).2
  unfolding accept_ledger maybe_ledger_accept
  accepted_lem mainchain r w h =
      Keeps-accept_if (shell.server mainchain) lo (app_of mainchain r).standalone
        (app_of mainchain r) w h
  accepted_lem sidechain r w h =
      Keeps-accept_if (shell.server sidechain) lo (app_of sidechain r).standalone
        (app_of sidechain r) w h

  called_lem :
      (c : Chain) (b : Body) (r : Repl) (w : List Fields × W)
      → AllNumbered r w
      → AllNumbered
          (on (recording_shell shell) c (λ server app. call server b app) r w).1
          (on (recording_shell shell) c (λ server app. call server b app) r w).2
  called_lem mainchain b r w h = Keeps-call (shell.server mainchain) lo b (app_of mainchain r) w h
  called_lem sidechain b r w h = Keeps-call (shell.server sidechain) lo b (app_of sidechain r) w h

  created_lem :
      (c : Chain) (name : String) (r : Repl) (w : List Fields × W)
      → AllNumbered r w
      → AllNumbered
          (on (recording_shell shell) c (λ server app. create_account server name app) r w).1
          (on (recording_shell shell) c (λ server app. create_account server name app) r w).2
  unfolding create_account
  created_lem mainchain name r w h =
      Keeps-create (shell.server mainchain) lo name no_wallet_args (app_of mainchain r) w h
  created_lem sidechain name r w h =
      Keeps-create (shell.server sidechain) lo name no_wallet_args (app_of sidechain r) w h

  seeded_lem :
      (c : Chain) (name : String) (seed key_type : Option String) (r : Repl) (w : List Fields × W)
      → AllNumbered r w
      → AllNumbered
          (on
            (recording_shell shell)
            c
            (λ server app. create_account_from_seed server name seed key_type app)
            r
            w).1
          (on
            (recording_shell shell)
            c
            (λ server app. create_account_from_seed server name seed key_type app)
            r
            w).2
  unfolding create_account_from_seed
  seeded_lem mainchain name seed key_type r w h =
      Keeps-create (shell.server mainchain) lo name (seed_args seed key_type) (app_of mainchain r) w
        h
  seeded_lem sidechain name seed key_type r w h =
      Keeps-create (shell.server sidechain) lo name (seed_args seed key_type) (app_of sidechain r) w
        h

  assets_lem :
      (c : Chain) (a : AssetAliases) (r : Repl) (w : List Fields × W)
      → AllNumbered r w
      → AllNumbered (put_app c (record (app_of c r) { asset_aliases = a }) r) w
  assets_lem mainchain a r w h = h
  assets_lem sidechain a r w h = h

  Stable-AllNumbered : Stable (recording_shell shell) AllNumbered
  Stable-AllNumbered = record {
    prints = record { printed = λ s r w h. h };
    bridges = λ b r w h. h;
    assets = assets_lem;
    slept = λ n r w h. h;
    bytes_read = λ f r w h. h;
    lines_read = λ f r w h. h;
    json_loaded = λ f r w h. h;
    appended = λ f s r w h. h;
    sent = sent_lem;
    accepted = accepted_lem;
    called = called_lem;
    created = created_lem;
    seeded = seeded_lem;
  }

-- Whatever lines of the commands of `Method` a user types, batches of them included, and whatever the servers
-- of the two chains answer, every message that these commands send to either of them is JSON and has
-- an id, and the ids grow strictly along the messages, from the shared counter at the start on: no two
-- messages share one, not even two messages to different chains. The commands `balance`, `account_info`,
-- `server_info`, `federator_info`, `subscribe`, `server_start` and `server_stop` are not among them.
pub cmdloop-Numbered :
    {W : Type 0} (shell : Shell W) (parser : Parser) (depth : ℕ) (lines : List String) (r : Repl)
    (w : W)
    → Numbered r.next_cmd_id
        (cmdloop (recording_shell shell) parser depth lines r ([], w)).1.next_cmd_id
        (cmdloop (recording_shell shell) parser depth lines r ([], w)).2.0
cmdloop-Numbered shell parser depth lines r w =
    (Keeps-cmdloop (Stable-AllNumbered shell r.next_cmd_id) parser depth lines).at r ([], w)
      (omega arith)
