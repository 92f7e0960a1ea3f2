-- ===== src/Repl/Keeps/Accounts.antt =====
-- What the commands on address books and asset aliases keep.
use xbridge_witness.Base.{ℕ, String, Bool, true, false, Option, List, [], ◌∷◌}
use xbridge_witness.Value.{Asset}
use xbridge_witness.Keys.AssetAliases.{add_asset_alias}
use xbridge_witness.Command.Types.{Body}
use xbridge_witness.Session.App.{call, create_account, create_account_from_seed}
use xbridge_witness.Repl.State.{Chain, Repl, Shell, on, outside, app_of}
use xbridge_witness.Repl.Accounts.{
  exactly, three, knows, knows_asset, bound, new_one, new_each, do_new_account, do_wallet_propose,
  add_alias, do_new_iou, do_set_trust, do_ledger_accept, write_out, do_account_tx,
}
use xbridge_witness.Repl.Keeps.{
  Stable, Prints, Keeps, ◌▹=◌, ◌▹◌, Keeps-pure, Keeps-fail, Keeps-get_state, Keeps-lift, Keeps-if,
  Keeps-no_more, Keeps-print, Keeps-unless, Keeps-send, Keeps-accept_ledger,
}
use xbridge_witness.Repl.Keeps.Args.{
  Keeps-pop, Keeps-take_chain, Keeps-known_account, Keeps-found_amount,
}

pub Keeps-exactly :
    {W : Type 0} {P : Repl → W → Type 0} (prints : Prints P) (n : ℕ) (s : String)
    (args : List String)
    → Keeps P (exactly n s args)
Keeps-exactly prints n s args = Keeps-unless prints _ _

module _ {W : Type 0} {shell : Shell W} {P : Repl → W → Type 0} (stable : Stable shell P) where
  pub Keeps-three : (args : List String) → Keeps P (three args)
  Keeps-three [] = Keeps-fail
  Keeps-three (a ∷ []) = Keeps-fail
  Keeps-three (a ∷ b ∷ []) = Keeps-fail
  Keeps-three (a ∷ b ∷ c ∷ []) = Keeps-pure
  Keeps-three (a ∷ b ∷ c ∷ d ∷ args) = Keeps-fail

  pub Keeps-knows : (c : Chain) (alias : String) → Keeps P (knows c alias)
  Keeps-knows c alias = Keeps-get_state ▹= λ r. Keeps-pure

  pub Keeps-knows_asset : (c : Chain) (alias : String) → Keeps P (knows_asset c alias)
  Keeps-knows_asset c alias = Keeps-get_state ▹= λ r. Keeps-pure

  Keeps-bound : (b : Bool) → Keeps P (bound b)
  Keeps-bound true = Keeps-pure
  Keeps-bound false = Keeps-fail

  pub Keeps-create :
      (c : Chain) (name : String)
      → Keeps P (on shell c (λ server app. create_account server name app))
  Keeps-create c name = record { at = stable.created c name }

  Keeps-seed :
      (c : Chain) (name : String) (seed key_type : Option String)
      → Keeps P (on shell c (λ server app. create_account_from_seed server name seed key_type app))
  Keeps-seed c name seed key_type = record { at = stable.seeded c name seed key_type }

  Keeps-call : (c : Chain) (b : Body) → Keeps P (on shell c (λ server app. call server b app))
  Keeps-call c b = record { at = stable.called c b }

  Keeps-append : (f s : String) → Keeps P (outside shell (shell.append_file f s))
  Keeps-append f s = record { at = stable.appended f s }

  Keeps-new_one :
      (c : Chain) (alias : String) (known : Bool) → Keeps P (new_one shell c alias known)
  Keeps-new_one c alias true = Keeps-print stable.prints _
  Keeps-new_one c alias false = Keeps-create c alias ▹= λ a. Keeps-pure

  Keeps-new_each : (c : Chain) (args : List String) → Keeps P (new_each shell c args)
  unfolding new_each
  Keeps-new_each c [] = Keeps-pure
  Keeps-new_each c (alias ∷ args) =
      Keeps-knows c alias ▹= λ known. Keeps-new_one c alias known ▹ Keeps-new_each c args

  pub Keeps-do_new_account : (line : String) → Keeps P (do_new_account shell line)
  unfolding do_new_account
  Keeps-do_new_account line =
      Keeps-unless stable.prints _ _ ▹ Keeps-take_chain stable.prints _ _ ▹= λ (c, args).
      Keeps-new_each c args

  pub Keeps-do_wallet_propose : (line : String) → Keeps P (do_wallet_propose shell line)
  unfolding do_wallet_propose
  Keeps-do_wallet_propose line =
      Keeps-exactly stable.prints _ _ _ ▹ Keeps-take_chain stable.prints _ _ ▹= λ (c, args).
      Keeps-pop stable.prints args ▹= λ (alias, args). Keeps-knows c alias ▹= λ known.
      Keeps-unless stable.prints _ _ ▹ Keeps-pop stable.prints args ▹= λ (seed, args).
      Keeps-pop stable.prints args ▹= λ (key_type, args).
      Keeps-if _ Keeps-pure (Keeps-print stable.prints _)
      ▹ Keeps-no_more args
      ▹ Keeps-seed _ _ _ _
      ▹= λ a. Keeps-pure

  pub Keeps-add_alias :
      (c : Chain) (asset : Asset) (alias : String) → Keeps P (add_alias shell c asset alias)
  Keeps-add_alias c asset alias = record {
    at = λ r w p. stable.assets c (add_asset_alias asset alias (app_of c r).asset_aliases) r w p;
  }

  pub Keeps-do_new_iou : (line : String) → Keeps P (do_new_iou shell line)
  unfolding do_new_iou
  Keeps-do_new_iou line =
      Keeps-exactly stable.prints _ _ _ ▹ Keeps-take_chain stable.prints _ _ ▹= λ (c, args).
      Keeps-three args ▹= λ (alias, currency, issuer). Keeps-knows_asset c alias ▹= λ known.
      Keeps-unless stable.prints _ _ ▹ Keeps-known_account stable.prints _ _ _ ▹= λ i.
      Keeps-add_alias c _ alias

  pub Keeps-do_set_trust : (line : String) → Keeps P (do_set_trust shell line)
  unfolding do_set_trust
  Keeps-do_set_trust line =
      Keeps-exactly stable.prints _ _ _ ▹ Keeps-take_chain stable.prints _ _ ▹= λ (c, args).
      Keeps-three args ▹= λ (alias, name, amount). Keeps-knows_asset c alias ▹= λ known.
      Keeps-unless stable.prints _ _ ▹ Keeps-knows c name ▹= λ known.
      Keeps-bound known ▹ Keeps-get_state ▹= λ r. Keeps-lift _ ▹= λ account.
      Keeps-found_amount stable.prints _ _ ▹= λ v. Keeps-lift _ ▹= λ asset.
      Keeps-lift _ ▹= λ limit. Keeps-send stable _ _ ▹= λ r. Keeps-accept_ledger stable _

  pub Keeps-do_ledger_accept : (line : String) → Keeps P (do_ledger_accept shell line)
  unfolding do_ledger_accept
  Keeps-do_ledger_accept line =
      Keeps-exactly stable.prints _ _ _ ▹ Keeps-take_chain stable.prints _ _ ▹= λ (c, args).
      Keeps-no_more args ▹ Keeps-accept_ledger stable c

  Keeps-write_out : (fs : List String) (s : String) → Keeps P (write_out shell fs s)
  Keeps-write_out [] s = Keeps-pure
  Keeps-write_out (f ∷ fs) s = Keeps-append f _

  pub Keeps-do_account_tx : (line : String) → Keeps P (do_account_tx shell line)
  unfolding do_account_tx
  Keeps-do_account_tx line =
      Keeps-unless stable.prints _ _ ▹ Keeps-take_chain stable.prints _ _ ▹= λ (c, args).
      Keeps-pop stable.prints args ▹= λ (name, args).
      Keeps-no_more _ ▹ Keeps-knows c name ▹= λ known. Keeps-bound known ▹ Keeps-get_state ▹= λ r.
      Keeps-lift _ ▹= λ account.
      Keeps-call c _ ▹= λ answer. Keeps-print stable.prints _ ▹ Keeps-write_out _ _
