-- ===== src/Repl/Aliases.antt =====
-- The address books along a session of the interactive program.
use xbridge_witness.Base.{ℕ, ◌+◌, ◌≡◌, refl, subst, sym, String, false, List, Option, ok}
use xbridge_witness.Value.{Account}
use xbridge_witness.Command.Types.{Body, WalletPropose}
use xbridge_witness.Transaction.Types.{Transaction}
use xbridge_witness.Keys.KeyManager.{KeyManager, account_from_alias}
use xbridge_witness.Keys.AssetAliases.{AssetAliases}
use xbridge_witness.Session.App.{
  App, Outcome, call, call_transaction, accept_if, create, maybe_ledger_accept, create_account,
  create_account_from_seed, no_wallet_args,
}
use xbridge_witness.Session.Accounts.{keys-call}
use xbridge_witness.Session.Aliases.{keys-call_transaction, keys-accept_if, Still-create}
use xbridge_witness.Repl.State.{
  Chain, mainchain, sidechain, Repl, Shell, send, accept_ledger, app_of, put_app, on, settle,
}
use xbridge_witness.Repl.Batch.{Parser, cmdloop}
use xbridge_witness.Repl.Keeps.{Stable, Holds}
use xbridge_witness.Repl.Keeps.Lines.{Keeps-cmdloop}

-- An alias of each chain's address book, and the accounts that they stand for.
pub record Known : Type 0 where
  pub alias : Chain → String
  pub account : Chain → Account

abbrev pub book : Chain → Repl → KeyManager
book c r = (app_of c r).key_manager

-- The alias of a chain stands for the account in a book.
abbrev pub StandsIn : Known → Chain → KeyManager → Type 0
StandsIn k c km = account_from_alias (k.alias c) km ≡ ok (k.account c)

module _ {W : Type 0} (shell : Shell W) (k : Known) where
  abbrev Both : Repl → W → Type 0
  Both r w = StandsIn k mainchain (book mainchain r) × StandsIn k sidechain (book sidechain r)

  of_chain : (c : Chain) (r : Repl) (w : W) → Both r w → StandsIn k c (book c r)
  of_chain mainchain r w (h, i) = h
  of_chain sidechain r w (h, i) = i

  -- What a method leaves of its own chain's book is all that changes.
  Both-settle :
      {A : Type 0} (c : Chain) (r : Repl) (o : Outcome A W) (w : W)
      → Both r w
      → StandsIn k c o.1.key_manager
      → Holds Both (settle c r o)
  Both-settle mainchain r o w (h, i) s = (s, i)
  Both-settle sidechain r o w (h, i) s = (h, s)

  -- The same for a method that leaves the book as it is.
  Both-same :
      {A : Type 0} (c : Chain) (r : Repl) (o : Outcome A W) (w : W)
      → Both r w
      → o.1.key_manager ≡ book c r
      → Holds Both (settle c r o)
  Both-same c r o w h e = Both-settle c r o w h (subst (StandsIn k c) (sym e) (of_chain c r w h))

  -- The app after the constructor of a transaction took an id.
  abbrev made : Chain → Repl → App
  made c r = record (app_of c r) { next_cmd_id = (app_of c r).next_cmd_id + 1 }

  abbrev seed_args : Option String → Option String → WalletPropose
  seed_args seed key_type = record no_wallet_args { seed = seed; key_type = key_type }

  sent_lem :
      (c : Chain) (txn : Transaction) (r : Repl) (w : W)
      → Both r w
      → Holds Both (send shell c txn r w)
  unfolding send
  sent_lem c txn r w h =
      Both-same c r (call_transaction (shell.server c) txn false (made c r) w) w h
        (keys-call_transaction (shell.server c) (book c r) txn false (made c r) w refl)

  accepted_lem : (c : Chain) (r : Repl) (w : W) → Both r w → Holds Both (accept_ledger shell c r w)
  unfolding accept_ledger maybe_ledger_accept
  accepted_lem c r w h =
      Both-same c r (accept_if (shell.server c) (app_of c r).standalone (app_of c r) w) w h
        (keys-accept_if (shell.server c) (book c r) (app_of c r).standalone (app_of c r) w refl)

  called_lem :
      (c : Chain) (b : Body) (r : Repl) (w : W)
      → Both r w
      → Holds Both (on shell c (λ server app. call server b app) r w)
  called_lem c b r w h =
      Both-same c r (call (shell.server c) b (app_of c r) w) w h
        (keys-call (shell.server c) (book c r) b (app_of c r) w refl)

  created_lem :
      (c : Chain) (name : String) (r : Repl) (w : W)
      → Both r w
      → Holds Both (on shell c (λ server app. create_account server name app) r w)
  unfolding create_account
  created_lem c name r w h =
      Both-settle c r (create (shell.server c) name no_wallet_args (app_of c r) w) w h (
        Still-create (shell.server c) (book c r) (k.alias c) (k.account c) (of_chain c r w h) name
          no_wallet_args (app_of c r) w refl)

  seeded_lem :
      (c : Chain) (name : String) (seed key_type : Option String) (r : Repl) (w : W)
      → Both r w
      → Holds Both
          (on shell c (λ server app. create_account_from_seed server name seed key_type app) r w)
  unfolding create_account_from_seed
  seeded_lem c name seed key_type r w h =
      Both-settle c r (create (shell.server c) name (seed_args seed key_type) (app_of c r) w) w h (
        Still-create (shell.server c) (book c r) (k.alias c) (k.account c) (of_chain c r w h) name
          (seed_args seed key_type) (app_of c r) w refl)

  assets_lem :
      (c : Chain) (a : AssetAliases) (r : Repl) (w : W)
      → Both r w
      → Both (put_app c (record (app_of c r) { asset_aliases = a }) r) w
  assets_lem mainchain a r w h = h
  assets_lem sidechain a r w h = h

  Stable-Both : Stable shell Both
  Stable-Both = record {
    prints = record { printed = λ s r w h. h };
    bridges = λ b r w h. h;
    assets = assets_lem;
    slept = λ n r w h. h;
    bytes_read = λ f r w h. h;
    lines_read = λ f r w h. h;
    json_loaded = λ f r w h. h;
    appended = λ f s r w h. h;
    sent = sent_lem;
    accepted = accepted_lem;
    called = called_lem;
    created = created_lem;
    seeded = seeded_lem;
  }

-- No session of the commands of `Method` changes what an alias stands for: an alias of each of the two
-- address books that stands for an account at the start, as `door` does, stands for the same account
-- after any lines of these commands, batches of them included, whatever the servers answer. The commands
-- `balance`, `account_info`, `server_info`, `federator_info`, `subscribe`, `server_start` and `server_stop` are
-- not among them.
pub cmdloop-StandsIn :
    {W : Type 0} (shell : Shell W) (parser : Parser) (depth : ℕ) (lines : List String) (r : Repl)
    (w : W) (k : Known)
    → StandsIn k mainchain (book mainchain r)
    → StandsIn k sidechain (book sidechain r)
    → StandsIn k mainchain (book mainchain (cmdloop shell parser depth lines r w).1)
      × StandsIn k sidechain (book sidechain (cmdloop shell parser depth lines r w).1)
cmdloop-StandsIn shell parser depth lines r w k h i =
    (Keeps-cmdloop (Stable-Both shell k) parser depth lines).at r w (h, i)
