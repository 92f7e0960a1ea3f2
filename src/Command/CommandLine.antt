-- ===== src/Command/CommandLine.antt =====
-- `get_command_line_list` of the classes of bin/python/command.py.
use xbridge_witness.Base.{
  String, Bool, false, ◌&&◌, ◌||◌, not, Option, none, some, List, [], ◌∷◌, ◌++◌, ◌==◌, Result, ok,
  err, type_error, assert, is_some, ◌>>=◌, ◌>>◌, if◌then◌else◌,
}
use xbridge_witness.Base.Text.{truthy}
use xbridge_witness.Value.{
  Value, str, account_object, method_object, Fields, opt_str, is_json_fields, Account,
}
use xbridge_witness.Common.Asset.{asset_cmd_str}
use xbridge_witness.Command.Types.{
  WalletPropose, AccountInfo, AccountLines, BookOffers, Body, path_find, sign, submit,
  ledger_accept, stop, server_info, federator_info, log_level, wallet_propose, validation_create,
  account_info, account_lines, account_tx, book_offers, subscribe, transaction,
}
use xbridge_witness.Command.Websocket.{command_obj, opt_index, opt_bool}

-- An element of the list: a value, or the JSON text of one (which is not spelled out).
pub data Arg : Type 0 where
  plain : Value → Arg
  json : Fields → Arg

-- `json.dumps(d)`
abbrev pub dumps : Fields → Result Arg
dumps d = if is_json_fields d then ok (json d) else err type_error

abbrev pub text : String → Arg
text s = plain (str s)

-- The list of `Command` begins with the method `cmd_name` itself: it is not called.
unfoldable pub base_list : Body → Result (List Arg)
base_list b = do d ← command_obj b; j ← dumps d; ok (plain (method_object "cmd_name") ∷ j ∷ [])

abbrev opt_arg : Option Value → List Arg
opt_arg none = []
opt_arg (some v) = plain v ∷ []

-- `bool(o)` for an optional text
abbrev pub opt_truthy : Option String → Bool
opt_truthy none = false
opt_truthy (some s) = truthy s

abbrev is_secp256k1 : Option String → Bool
is_secp256k1 none = false
is_secp256k1 (some k) = k == "secp256k1"

abbrev truthy_arg : Option String → List Arg
truthy_arg none = []
truthy_arg (some s) = if truthy s then text s ∷ [] else []

unfoldable pub wallet_propose_list : WalletPropose → Result (List Arg)
wallet_propose_list w = do
  assert (
      not (opt_truthy w.seed)
      && (not (opt_truthy w.seed_hex) && (not (opt_truthy w.key_type) || is_secp256k1 w.key_type)))
  ok (text "wallet_propose" ∷ truthy_arg w.passphrase)

abbrev opt_text_arg : Option String → List Arg
opt_text_arg none = []
opt_text_arg (some s) = text s ∷ []

unfoldable pub account_info_list : AccountInfo → List Arg
account_info_list a =
    text "account_info"
    ∷ plain (opt_str a.account.account_id)
    ∷ (opt_arg (opt_index a.ledger_index)
        ++ (opt_text_arg a.ledger_hash ++ opt_arg (opt_bool a.strict)))

abbrev all_none : {A B C D : Type 0} → Option A → Option B → Option C → Option D → Result (Unit {0})
all_none a b c d =
    assert (not (is_some a) && (not (is_some b) && (not (is_some c) && not (is_some d))))

abbrev peer_arg : Option Account → List Arg
peer_arg none = []
peer_arg (some a) = plain (account_object a) ∷ []

unfoldable pub account_lines_list : AccountLines → Result (List Arg)
account_lines_list a = do
  all_none a.ledger_index a.ledger_hash a.limit a.marker
  ok (text "account_lines" ∷ plain (opt_str a.account.account_id) ∷ peer_arg a.peer)

unfoldable pub book_offers_list : BookOffers → Result (List Arg)
book_offers_list b = do
  all_none b.ledger_index b.ledger_hash b.limit b.marker
  ok (
      text "book_offers"
      ∷ text (asset_cmd_str b.taker_pays)
      ∷ text (asset_cmd_str b.taker_gets)
      ∷ [])

-- `get_command_line_list`
unfoldable pub get_command_line_list : Body → Result (List Arg)
unfolding base_list wallet_propose_list account_info_list account_lines_list book_offers_list
get_command_line_list (sign secret tx) = dumps tx >>= λ j. ok (text "sign" ∷ text secret ∷ j ∷ [])
get_command_line_list (submit blob) = ok (text "submit" ∷ text blob ∷ [])
get_command_line_list ledger_accept = ok (text "ledger_accept" ∷ [])
get_command_line_list stop = ok (text "stop" ∷ [])
get_command_line_list server_info = ok (text "server_info" ∷ [])
get_command_line_list federator_info = ok (text "federator_info" ∷ [])
get_command_line_list (log_level l) =
    ok (text "log_level" ∷ (opt_text_arg l.partition ++ text l.severity ∷ []))
get_command_line_list (wallet_propose w) = wallet_propose_list w
get_command_line_list (validation_create secret) = ok (text "validation_create" ∷ truthy_arg secret)
get_command_line_list (account_info a) = ok (account_info_list a)
get_command_line_list (account_lines a) = account_lines_list a
get_command_line_list (account_tx a) =
    ok (text "account_tx" ∷ plain (opt_str a.account.account_id) ∷ [])
get_command_line_list (book_offers b) = book_offers_list b
get_command_line_list (path_find p) = base_list (path_find p)
get_command_line_list (subscribe s) = base_list (subscribe s)
get_command_line_list (transaction t) = base_list (transaction t)
