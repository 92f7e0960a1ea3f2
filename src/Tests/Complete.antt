-- ===== src/Tests/Complete.antt =====
-- The completions of the interactive program at concrete inputs.
use xbridge_witness.Base.{String, true, none, some, [], ◌∷◌, ◌≡◌, refl, ok, err, type_error}
use xbridge_witness.Base.Words.{words, has_prefix}
use xbridge_witness.Value.{Account}
use xbridge_witness.Keys.AssetAliases.{init_asset_aliases}
use xbridge_witness.Keys.KeyManager.{KeyManager, init_key_manager, add, known_accounts}
use xbridge_witness.Session.App.{App}
use xbridge_witness.Repl.State.{Repl}
use xbridge_witness.Repl.Offers.{having_prefix, with_name, with_names, nicknames, complete_account}
use xbridge_witness.Repl.Complete.{complete, pay, balance}
use xbridge_witness.Repl.OffersLaws.{Gives, IsNamed}
use xbridge_witness.Repl.CompleteLaws.{complete-Gives}

abbrev named : String → Account
named n = record {
  account_id = some n;
  nickname = some n;
  public_key = none;
  public_key_hex = none;
  secret_key = some "s";
}

keys : KeyManager
unfolding add
keys = add (named "door") (add (named "alice") init_key_manager)

abbrev app : App
app = record {
  standalone = true;
  key_manager = keys;
  asset_aliases = init_asset_aliases;
  next_cmd_id = 1;
}

abbrev repl : Repl
repl = record {
  mc_app = app;
  sc_app = app;
  next_cmd_id = 1;
  bridge_aliases = [];
  proof_aliases = [];
  printed = [];
}

pay_test : complete pay "d" "pay mainchain d" repl ≡ ok (some "door" ∷ [])
unfolding complete complete_account having_prefix has_prefix with_name with_names nicknames
    known_accounts words keys
pay_test = refl

-- An account and an asset alias cannot be completed.
balance_test : complete balance "" "balance mainchain alice" repl ≡ err type_error
unfolding complete complete_account having_prefix has_prefix with_name with_names nicknames
    known_accounts words keys
balance_test = refl

repl-IsNamed : IsNamed repl
unfolding known_accounts keys
repl-IsNamed = record { main = (tt, (tt, tt)); side = (tt, (tt, tt)) }

complete-Gives_example : Gives "d" (complete pay "d" "pay mainchain d" repl)
complete-Gives_example = complete-Gives pay "d" "pay mainchain d" repl refl repl-IsNamed
