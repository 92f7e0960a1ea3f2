-- ===== src/Tests/Keys.antt =====
-- The theorems on the address book at concrete inputs.
use xbridge_witness.Base.{◌≡◌, refl, if◌then◌else◌, none, some, [], ◌∷◌}
use xbridge_witness.Common.Account.{same_text}
use xbridge_witness.Keys.KeyManager.{
  init_key_manager, add, alias_to_account_id, AccountOrId, alias_or_id,
}
use xbridge_witness.Keys.Laws.{IsConsistent, add_all, IsConsistent-add_all, alias_or_id-add}
use xbridge_witness.Tests.Samples.{alice, bob}

IsConsistent-add_all_example : IsConsistent (add_all (alice ∷ bob ∷ []) init_key_manager)
IsConsistent-add_all_example = IsConsistent-add_all (alice ∷ bob ∷ []) init_key_manager tt

-- The alias is there, and is not found.
alias_to_account_id_test : alias_to_account_id "alice" (add alice init_key_manager) ≡ none
unfolding alias_to_account_id
alias_to_account_id_test = refl

-- A known account without a nickname is shown as nothing, and not by its id.
alias_or_id-add_example : alias_or_id (AccountOrId.id "rBob") (add bob init_key_manager) ≡ (
    if same_text bob.account_id (some "rBob")
    then none
    else alias_or_id (AccountOrId.id "rBob") init_key_manager)
alias_or_id-add_example = alias_or_id-add "rBob" bob init_key_manager
