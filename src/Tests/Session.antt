-- ===== src/Tests/Session.antt =====
-- The theorems on sessions at concrete inputs.
use xbridge_witness.Tests.Samples.{alice, some_usd, written_floats}
use xbridge_witness.Base.{ℕ, ◌+◌, ◌≡◌, refl, true, some, [], ◌∷◌, List, ok, if◌then◌else◌}
use xbridge_witness.Value.{Account, Fields, end, put, str, dict, get, is_json_fields}
use xbridge_witness.Base.Dict.{lookup}
use xbridge_witness.Command.Types.{server_info}
use xbridge_witness.Keys.AssetAliases.{init_asset_aliases}
use xbridge_witness.Keys.KeyManager.{init_key_manager, account_from_alias}
use xbridge_witness.Keys.Laws.{is_named}
use xbridge_witness.Session.App.{Server, App, create_account}
use xbridge_witness.Session.Recording.{
  recording, Request, accept, command, new_account, session, Numbered, query_balance,
}
use xbridge_witness.Session.Messages.{session-Numbered}
use xbridge_witness.Session.Accounts.{create_account-known}

-- What the server says to everything.
reply : Fields
unfolding put
reply =
    put "result"
      (dict (
        put "master_seed" (str "sNew") (
          put "public_key_hex" (str "02")
            (put "public_key" (str "aB") (put "account_id" (str "rNew") end)))))
      end

-- A server that counts what it is asked.
abbrev counting_server : Server ℕ
counting_server = record { exchange = λ d w. (ok reply, w + 1) }

abbrev app : App
app = record {
  standalone = true;
  key_manager = init_key_manager;
  asset_aliases = init_asset_aliases;
  next_cmd_id = 1;
}

abbrev requests : List Request
requests =
    command server_info
    ∷ accept
    ∷ new_account "alice"
    ∷ query_balance written_floats alice some_usd
    ∷ []

session-Numbered_example :
    Numbered 1
      (session (recording counting_server) requests app ([], 0)).0.next_cmd_id
      (session (recording counting_server) requests app ([], 0)).1.0
session-Numbered_example = session-Numbered counting_server requests app 0

abbrev created : Account
created = record {
  account_id = some "rNew";
  nickname = some "alice";
  public_key = some "aB";
  public_key_hex = some "02";
  secret_key = some "sNew";
}

create_account-known_example :
    account_from_alias "alice" (create_account counting_server "alice" app 0).1.key_manager ≡ (
      if is_named "alice" (some "alice")
      then ok created
      else account_from_alias "alice" init_key_manager)
unfolding reply create_account lookup is_json_fields get
create_account-known_example =
    create_account-known counting_server "alice" "alice" app 0 created refl
