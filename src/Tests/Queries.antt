-- ===== src/Tests/Queries.antt =====
-- The queries on balances at a concrete server.
use xbridge_witness.Base.{false, ℕ, ◌+◌, true, none, some, ◌≡◌, refl, ok, err, value_error}
use xbridge_witness.Base.Int.{pos}
use xbridge_witness.Base.Decimal.{parse}
use xbridge_witness.Value.{int, Fields, field, end, str, dict, is_json_fields, get, put}
use xbridge_witness.Common.Asset.{init_asset}
use xbridge_witness.Keys.AssetAliases.{init_asset_aliases}
use xbridge_witness.Keys.KeyManager.{init_key_manager}
use xbridge_witness.Command.Types.{init_command}
use xbridge_witness.Command.Websocket.{get_websocket_dict}
use xbridge_witness.Session.App.{Server, App, call, send_websock_command}
use xbridge_witness.Session.Requests.{◌>>=◌}
use xbridge_witness.Session.Queries.{
  delete, rename, query, read_account_info, get_account_info, get_balances, get_balance,
}
use xbridge_witness.Session.QueriesLaws.{IsAmount, get_balance-IsAmount, left_by, asked_if}
use xbridge_witness.Tests.Samples.{alice, ten_drops, some_usd, written_floats}

abbrev reply : Fields
reply =
    field "result"
      (dict (
        field "account_data"
          (dict (
            field "Account" (str "rAlice") (
              field "Balance" (str "25")
                (field "LedgerEntryType" (str "AccountRoot") (field "index" (str "F") end)))))
          end))
      end

abbrev server : Server ℕ
server = record { exchange = λ d n. (ok reply, n + 1) }

-- A server that is not there
abbrev closed : Server ℕ
closed = record { exchange = λ d n. (err (value_error "closed"), n + 1) }

abbrev app : App
app = record {
  standalone = true;
  key_manager = init_key_manager;
  asset_aliases = init_asset_aliases;
  next_cmd_id = 1;
}

balance_test :
    (get_balance server written_floats alice ten_drops app 0).0
    ≡ ok (record { value = some (int (pos 25)); currency = "XRP"; issuer = none })
unfolding get_balance get_balances get_account_info read_account_info query delete rename ◌>>=◌ call
    init_command send_websock_command get_websocket_dict is_json_fields get put parse init_asset
balance_test = refl

closed_test :
    (get_balance closed written_floats alice ten_drops app 0).0
    ≡ ok (record { value = some (int (pos 0)); currency = "XRP"; issuer = none })
unfolding get_balance get_balances get_account_info read_account_info query delete rename ◌>>=◌ call
    init_command send_websock_command get_websocket_dict is_json_fields get put parse init_asset
closed_test = refl

get_balance-IsAmount_example :
    IsAmount some_usd (get_balance closed written_floats alice some_usd app 0).0
    × (left_by (get_balance closed written_floats alice some_usd app 0)
        ≡ left_by (call closed (asked_if false alice) app 0))
get_balance-IsAmount_example = get_balance-IsAmount closed written_floats alice some_usd app 0

abbrev entry : Fields
entry = field "Account" (str "rAlice") (
    field "Balance" (str "25")
      (field "LedgerEntryType" (str "AccountRoot") (field "index" (str "F") end)))
