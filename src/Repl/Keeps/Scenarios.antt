-- ===== src/Repl/Keeps/Scenarios.antt =====
-- What `do_hook`, `do_setup_accounts` and `do_setup_ious` keep.
use xbridge_witness.Base.{String, Option, List, [], ◌∷◌}
use xbridge_witness.Base.Int.{ℤ}
use xbridge_witness.Value.{Account, Asset, Value}
use xbridge_witness.Repl.State.{Chain, mainchain, sidechain, Repl, Shell, outside}
use xbridge_witness.Repl.Scenarios.{
  alias_account, file_there, do_hook, pay_from, trust_up_to, create_named, do_setup_accounts,
  fund_alice, do_setup_ious, usd,
}
use xbridge_witness.Repl.Keeps.{
  Stable, Keeps, ◌▹=◌, ◌▹◌, Keeps-pure, Keeps-get_state, Keeps-lift, Keeps-no_more, Keeps-unless,
  Keeps-wait, Keeps-send, Keeps-accept_ledger,
}
use xbridge_witness.Repl.Keeps.Args.{Keeps-pop, Keeps-known_account}
use xbridge_witness.Repl.Keeps.Accounts.{Keeps-exactly, Keeps-create, Keeps-add_alias}

module _ {W : Type 0} {shell : Shell W} {P : Repl → W → Type 0} (stable : Stable shell P) where
  Keeps-alias : (c : Chain) (alias : String) → Keeps P (alias_account c alias)
  unfolding alias_account
  Keeps-alias c alias = Keeps-get_state ▹= λ r. Keeps-lift _

  Keeps-file_there : (f : String) → Keeps P (file_there shell f)
  Keeps-file_there f = record { at = λ r w p. p }

  Keeps-read : (f : String) → Keeps P (outside shell (shell.read_bytes f))
  Keeps-read f = record { at = stable.bytes_read f }

  pub Keeps-do_hook : (line : String) → Keeps P (do_hook shell line)
  unfolding do_hook
  Keeps-do_hook line =
      Keeps-exactly stable.prints _ _ _ ▹ Keeps-pop stable.prints _ ▹= λ (nickname, args).
      Keeps-pop stable.prints args ▹= λ (name, args).
      Keeps-no_more args
      ▹ Keeps-unless stable.prints _ _
      ▹ Keeps-known_account stable.prints _ _ _
      ▹= λ source. Keeps-unless stable.prints _ _ ▹ Keeps-file_there _ ▹= λ there.
          Keeps-unless stable.prints _ _ ▹ Keeps-read _ ▹= λ code.
          Keeps-send stable _ _ ▹= λ r. Keeps-accept_ledger stable _

  Keeps-pay_from :
      (c : Chain) (source dst : Account) (amt : Asset) (memos : Option Value)
      → Keeps P (pay_from shell c source dst amt memos)
  unfolding pay_from
  Keeps-pay_from c source dst amt memos = Keeps-send stable c _ ▹= λ r. Keeps-pure

  Keeps-trust_up_to :
      (c : Chain) (a : Account) (asset : Asset) (n : ℤ) → Keeps P (trust_up_to shell c a asset n)
  unfolding trust_up_to
  Keeps-trust_up_to c a asset n = Keeps-lift _ ▹= λ limit. Keeps-send stable c _ ▹= λ r. Keeps-pure

  Keeps-create_named : (c : Chain) (names : List String) → Keeps P (create_named shell c names)
  unfolding create_named
  Keeps-create_named c [] = Keeps-pure
  Keeps-create_named c (a ∷ names) = Keeps-create stable c a ▹= λ r. Keeps-create_named c names

  pub Keeps-do_setup_accounts : Keeps P (do_setup_accounts shell)
  unfolding do_setup_accounts
  Keeps-do_setup_accounts =
      Keeps-create_named _ _ ▹ Keeps-create_named _ _ ▹ Keeps-alias _ _ ▹= λ source.
      Keeps-alias _ _ ▹= λ dst. Keeps-pay_from _ _ _ _ _ ▹ Keeps-accept_ledger stable _

  Keeps-fund_alice : (asset : Asset) → Keeps P (fund_alice shell asset)
  Keeps-fund_alice asset = Keeps-alias _ _ ▹= λ alice.
      Keeps-trust_up_to _ _ _ _ ▹ Keeps-accept_ledger stable _ ▹ Keeps-alias _ _ ▹= λ root.
      Keeps-alias _ _ ▹= λ alice.
      Keeps-lift _ ▹= λ amt. Keeps-pay_from _ _ _ _ _ ▹ Keeps-accept_ledger stable _

  pub Keeps-do_setup_ious : Keeps P (do_setup_ious shell)
  unfolding do_setup_ious
  Keeps-do_setup_ious = Keeps-alias _ _ ▹= λ root. Keeps-alias _ _ ▹= λ door.
      Keeps-add_alias stable mainchain (usd root) "rrr"
      ▹ Keeps-add_alias stable sidechain (usd door) "ddd"
      ▹ Keeps-alias _ _
      ▹= λ alice. Keeps-trust_up_to _ _ _ _ ▹ Keeps-alias _ _ ▹= λ brad. Keeps-lift _ ▹= λ hex.
          Keeps-alias _ _ ▹= λ alice. Keeps-alias _ _ ▹= λ main_door.
          Keeps-pay_from _ _ _ _ _
          ▹ Keeps-accept_ledger stable _
          ▹ Keeps-fund_alice _
          ▹ Keeps-wait stable 2
          ▹ Keeps-alias _ _
          ▹= λ brad. Keeps-trust_up_to _ _ _ _
