-- ===== src/Tests/Chains.antt =====
-- The set-up of a side chain at a concrete input.
use xbridge_witness.Base.{ℕ, ◌+◌, ◌≡◌, refl, true, none, some, [], ◌∷◌, ok, err, index_error}
use xbridge_witness.Value.{Account, Fields, field, end, str, dict, is_json_fields, get, put}
use xbridge_witness.Keys.AssetAliases.{init_asset_aliases}
use xbridge_witness.Keys.KeyManager.{init_key_manager}
use xbridge_witness.Session.App.{Server, App, maybe_ledger_accept}
use xbridge_witness.Common.Asset.{asset_to_cmd_obj}
use xbridge_witness.Common.Bridge.{bridge_to_cmd_obj}
use xbridge_witness.Common.Issue.{init_issue, issue_to_cmd_obj}
use xbridge_witness.Repl.Bridges.{bridge_of_fields}
use xbridge_witness.Session.Requests.{◌>>=◌, ◌>>◌}
use xbridge_witness.Setup.Chains.{Params, setup_sidechain}

abbrev reply : Fields
reply = field "result" (dict (field "tx_blob" (str "12") (field "account_id" (str "rW") end))) end

-- A server that counts what it is asked.
abbrev server : Server ℕ
server = record { exchange = λ d w. (ok reply, w + 1) }

abbrev app : App
app = record {
  standalone = true;
  key_manager = init_key_manager;
  asset_aliases = init_asset_aliases;
  next_cmd_id = 1;
}

abbrev account : Account
account = record {
  account_id = some "rDoor";
  nickname = some "door";
  public_key = none;
  public_key_hex = none;
  secret_key = some "s";
}

abbrev bridge : Fields
bridge = field "LockingChainDoor" (str "rL") (
    field "LockingChainIssue" (str "XRP")
      (field "IssuingChainDoor" (str "rI") (field "IssuingChainIssue" (str "XRP") end)))

abbrev witness : Fields
witness =
    field "XChainBridge" (dict bridge)
      (field "SigningKeySeed" (str "sS") (field "SigningKeyType" (str "ed25519") end))

abbrev params : Params
params = record {
  mc_door_account = account;
  sc_door_account = account;
  user_account = account;
  genesis_account = account;
  witness_configs = witness ∷ [];
}

-- The log level, the witness's id, two transactions that are signed and submitted, and the ledger.
setup_sidechain_test : (setup_sidechain server params true app 0).2 ≡ 7
unfolding setup_sidechain ◌>>=◌ ◌>>◌ bridge_of_fields is_json_fields get put init_issue
    bridge_to_cmd_obj issue_to_cmd_obj asset_to_cmd_obj maybe_ledger_accept
setup_sidechain_test = refl

-- Without a witness there is no bridge.
no_witness_test :
    (setup_sidechain server (record params { witness_configs = [] }) true app 0).0 ≡ err index_error
unfolding setup_sidechain ◌>>=◌ ◌>>◌ bridge_of_fields is_json_fields get put init_issue
    bridge_to_cmd_obj issue_to_cmd_obj asset_to_cmd_obj maybe_ledger_accept
no_witness_test = refl
