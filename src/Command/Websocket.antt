-- ===== src/Command/Websocket.antt =====
-- `get_websocket_dict` and `to_cmd_obj` of the classes of bin/python/command.py.
use xbridge_witness.Base.{
  String, Bool, Option, none, some, List, [], ◌∷◌, map, Result, ok, err, assertion_error,
  map_option, map_list, ◌>>=◌,
}
use xbridge_witness.Base.Int.{pos}
use xbridge_witness.Value.{
  Account, Asset, Value, bool, num, int, str, list, dict, account_object, Fields, end, put,
  put_some, opt_str, of_list,
}
use xbridge_witness.Common.Asset.{asset_to_cmd_obj, opt_issuer}
use xbridge_witness.Transaction.Encode.{to_cmd_obj, opt_int, opt_text}
use xbridge_witness.Command.Types.{
  LedgerIndex, number, word, PathFind, WalletPropose, AccountInfo, AccountLines, AccountTx,
  BookOffers, BookSubscription, Subscribe, Body, path_find, sign, submit, ledger_accept, stop,
  server_info, federator_info, log_level, wallet_propose, validation_create, account_info,
  account_lines, account_tx, book_offers, subscribe, transaction, Command, cmd_name,
}

abbrev pub index_value : LedgerIndex → Value
index_value (number z) = num (int z)
index_value (word s) = str s

abbrev pub opt_index : Option LedgerIndex → Option Value
opt_index none = none
opt_index (some i) = some (index_value i)

abbrev pub opt_bool : Option Bool → Option Value
opt_bool none = none
opt_bool (some b) = some (bool b)

abbrev opt_id : Option Account → Option Value
opt_id none = none
opt_id (some a) = some (opt_str a.account_id)

abbrev opt_account_object : Option Account → Option Value
opt_account_object none = none
opt_account_object (some a) = some (account_object a)

abbrev currency_obj : Asset → Result Value
currency_obj a = do
  i ← opt_issuer a.issuer
  ok (dict (put "issuer" (opt_str i) (put "currency" (str a.currency) end)))

-- `if self.src_currencies:` leaves an empty list out.
abbrev currencies_obj : Option (List Asset) → Result (Option Value)
currencies_obj none = ok none
currencies_obj (some []) = ok none
currencies_obj (some (a ∷ as')) =
    map_list currency_obj (a ∷ as') >>= λ vs. ok (some (list (of_list vs)))

-- `PathFind.to_cmd_obj`
unfoldable pub path_find_obj : PathFind → Result Fields
path_find_obj p = do
  amt ← asset_to_cmd_obj p.amt
  send_max ← map_option asset_to_cmd_obj p.send_max
  currencies ← currencies_obj p.src_currencies
  ok (
      put_some "source_currencies" currencies (
        put_some "ledger_index" (opt_index p.ledger_index) (
          put_some "ledger_hash" (opt_text p.ledger_hash) (
            put_some "send_max" send_max (
              put "destination_amount" amt (
                put "destination_account" (opt_str p.dst.account_id)
                  (put "source_account" (opt_str p.src.account_id) end)))))))

-- `BookSubscription.to_cmd_obj`
unfoldable pub book_subscription_obj : BookSubscription → Result Value
book_subscription_obj b = do
  pays ← asset_to_cmd_obj b.taker_pays
  gets ← asset_to_cmd_obj b.taker_gets
  ok (
      dict (
        put_some "both" (opt_bool b.both) (
          put_some "snapshot" (opt_bool b.snapshot) (
            put_some "taker" (opt_id b.taker)
              (put "taker_gets" gets (put "taker_pays" pays end))))))

abbrev account_ids : List Account → Value
account_ids l = list (of_list (map (λ (a : Account). opt_str a.account_id) l))

abbrev opt_map {ℓ} : {A : Type ℓ} → (A → Value) → Option A → Option Value
opt_map f none = none
opt_map f (some a) = some (f a)

abbrev history_obj : Account → Value
history_obj a = dict (put "account" (opt_str a.account_id) end)

abbrev books_obj : List BookSubscription → Result Value
books_obj bs = map_list book_subscription_obj bs >>= λ vs. ok (list (of_list vs))

-- `Subscribe.to_cmd_obj`
unfoldable pub subscribe_obj : Subscribe → Result Fields
unfolding book_subscription_obj
subscribe_obj s = do
  books ← map_option books_obj s.books
  ok (
      put_some "url_password" (opt_text s.url_password) (
        put_some "url_username" (opt_text s.url_username) (
          put_some "url" (opt_text s.url) (
            put_some "books" books (
              put_some "accounts_proposed" (opt_map account_ids s.accounts_proposed) (
                put_some "account_history_tx_stream" (opt_map history_obj s.account_history_account)
                  (put_some "accounts" (opt_map account_ids s.accounts) (
                    put_some "streams"
                      (opt_map (λ (l : List String). list (of_list (map str l))) s.streams)
                      end))))))))

-- `to_cmd_obj`: the classes that do not define it fail the assertion of `Command`.
unfoldable pub command_obj : Body → Result Fields
unfolding path_find_obj subscribe_obj
command_obj (path_find p) = path_find_obj p
command_obj (subscribe s) = subscribe_obj s
command_obj (transaction t) = to_cmd_obj t
command_obj _ = err assertion_error

unfoldable pub wallet_propose_dict : WalletPropose → Fields
wallet_propose_dict w = put_some "key_type" (opt_text w.key_type) (
    put_some "passphrase" (opt_text w.passphrase)
      (put_some "seed_hex" (opt_text w.seed_hex) (put_some "seed" (opt_text w.seed) end)))

unfoldable pub account_info_dict : AccountInfo → Fields
account_info_dict a = put_some "queue" (opt_bool a.queue) (
    put_some "strict" (opt_bool a.strict) (
      put_some "ledger_hash" (opt_text a.ledger_hash) (
        put_some "ledger_index" (opt_index a.ledger_index)
          (put "account" (opt_str a.account.account_id) end))))

-- `peer` is sent as the object that it is.
unfoldable pub account_lines_dict : AccountLines → Fields
account_lines_dict a = put_some "marker" a.marker (
    put_some "limit" (opt_int a.limit) (
      put_some "ledger_hash" (opt_text a.ledger_hash) (
        put_some "ledger_index" (opt_index a.ledger_index) (
          put_some "peer" (opt_account_object a.peer)
            (put "account" (opt_str a.account.account_id) end)))))

unfoldable pub account_tx_dict : AccountTx → Fields
account_tx_dict a =
    put_some "marker" a.marker
      (put_some "limit" (opt_int a.limit) (put "account" (opt_str a.account.account_id) end))

unfoldable pub book_offers_dict : BookOffers → Result Fields
book_offers_dict b = do
  pays ← asset_to_cmd_obj b.taker_pays
  gets ← asset_to_cmd_obj b.taker_gets
  ok (
      put_some "marker" b.marker (
        put_some "limit" (opt_int b.limit) (
          put_some "ledger_hash" (opt_text b.ledger_hash) (
            put_some "ledger_index" (opt_index b.ledger_index) (
              put_some "taker" (opt_id b.taker)
                (put "taker_gets" gets (put "taker_pays" pays end)))))))

-- The dictionary of each class before the websocket fields.
unfoldable pub own_dict : Body → Result Fields
unfolding command_obj wallet_propose_dict account_info_dict account_lines_dict account_tx_dict
    book_offers_dict
own_dict (sign secret tx) = ok (put "tx_json" (dict tx) (put "secret" (str secret) end))
own_dict (submit blob) = ok (put "tx_blob" (str blob) end)
own_dict ledger_accept = ok end
own_dict stop = ok end
own_dict server_info = ok end
own_dict federator_info = ok end
own_dict (log_level l) =
    ok (put_some "partition" (opt_text l.partition) (put "severity" (str l.severity) end))
own_dict (wallet_propose w) = ok (wallet_propose_dict w)
own_dict (validation_create secret) = ok (put_some "secret" (opt_text secret) end)
own_dict (account_info a) = ok (account_info_dict a)
own_dict (account_lines a) = ok (account_lines_dict a)
own_dict (account_tx a) = ok (account_tx_dict a)
own_dict (book_offers b) = book_offers_dict b
own_dict (path_find p) = command_obj (path_find p)
own_dict (subscribe s) = command_obj (subscribe s)
own_dict (transaction t) = command_obj (transaction t)

abbrev pub add_subcommand : Body → Fields → Fields
add_subcommand (path_find p) d = put "subcommand" (str "create") d
add_subcommand _ d = d

-- `add_websocket_fields`
unfoldable pub add_websocket_fields : Command → Fields → Fields
unfolding cmd_name
add_websocket_fields c d =
    add_subcommand c.body
      (put "command" (str (cmd_name c.body)) (put "id" (num (int (pos c.cmd_id))) d))

-- `get_websocket_dict`
unfoldable pub get_websocket_dict : Command → Result Fields
unfolding own_dict add_websocket_fields
get_websocket_dict c = own_dict c.body >>= λ d. ok (add_websocket_fields c d)
