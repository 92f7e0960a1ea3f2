-- ===== src/Session/Queries.antt =====
-- The queries of `class App` of bin/python/app.py on balances: `get_account_info`, `get_trust_lines`,
-- `get_balances` and `get_balance`. A data frame is the list of its rows; every row has all columns.
use xbridge_witness.Base.{
  String, Bool, true, false, ◌&&◌, Option, none, some, List, [], ◌∷◌, ◌++◌, map, ◌==◌, Result, ok,
  err, Exn, value_error, key_error, type_error, attribute_error, index_error, require, map_list,
  if◌then◌else◌,
}
use xbridge_witness.Base
use xbridge_witness.Base.Int.{pos, negsuc}
use xbridge_witness.Base.Decimal.{parse}
use xbridge_witness.Value.{
  int, Account, Asset, Value, num, str, list, dict, account_object, Items, nil, cons, Fields, end,
  field, get, put, item,
}
use xbridge_witness.Value.Floats.{Floats}
use xbridge_witness.Common.Asset.{ValueArg, number, text, no_asset_args, init_asset, is_xrp}
use xbridge_witness.Command.Types.{Body, AccountLines, account_info, account_lines}
use xbridge_witness.Keys.KeyManager.{known_accounts}
use xbridge_witness.Session.App.{Server, Outcome, call, info_args, fields_of}
use xbridge_witness.Session.Requests.{Requests, ◌>>=◌, lift}

abbrev pub Frame : Type 0
Frame = List Fields

-- `del d[k]`
unfoldable pub delete : String → Fields → Result Fields
delete k end = err key_error
delete k (field j v d) =
    let rest = Base.◌>>=◌ (delete k d) λ e. ok (field j v e) in if j == k then ok d else rest

-- A column gets a new name, where it is there.
unfoldable pub rename : String → String → Fields → Fields
rename k n end = end
rename k n (field j v d) =
    let rest = rename k n d in if j == k then field n v rest else field j v rest

abbrev pub rename_all : List (String × String) → Fields → Fields
rename_all [] d = d
rename_all ((k, n) ∷ names) d = rename_all names (rename k n d)

-- `astype(int)` on a text or an integer
abbrev pub as_integer : Value → Result Value
as_integer (num (int z)) = ok (num (int z))
as_integer (str s) =
    Base.◌>>=◌ (require (value_error "invalid literal for int()") (parse s)) λ z. ok (num (int z))
as_integer v = err type_error

-- The row of an account that is not on the ledger, which has the object itself in it.
abbrev pub missing_account : Account → Fields
missing_account a = field "account" (account_object a) (
    field "balance" (num (int (pos 0))) (
      field "flags" (num (int (pos 0))) (
        field "owner_count" (num (int (pos 0))) (
          field "previous_txn_id" (str "NA") (
            field "previous_txn_lgr_seq" (num (int (negsuc 0)))
              (field "sequence" (num (int (negsuc 0))) end))))))

abbrev pub info_columns : List (String × String)
info_columns =
    ("Account", "account")
    ∷ ("Balance", "balance")
    ∷ ("Flags", "flags")
    ∷ ("OwnerCount", "owner_count")
    ∷ ("PreviousTxnID", "previous_txn_id")
    ∷ ("PreviousTxnLgrSeq", "previous_txn_lgr_seq")
    ∷ ("Sequence", "sequence")
    ∷ []

abbrev pub bad_info : Exn
bad_info = value_error "Bad result from account_info command"

abbrev pub bad_lines : Exn
bad_lines = value_error "Bad result from account_lines command"

-- `key in result`, and what is there
abbrev pub present : Exn → String → Value → Result Value
present e k (dict d) = require e (get k d)
present e k v = err type_error

-- The rows that `get_account_info` makes of an answer.
unfoldable pub read_account_info : Value → Result Frame
read_account_info r = Base.◌>>=◌ (present bad_info "account_data" r) λ v.
    Base.◌>>=◌ (fields_of v) λ info. Base.◌>>=◌ (delete "LedgerEntryType" info) λ info.
      Base.◌>>=◌ (delete "index" info) λ info.
        let row = rename_all info_columns info in
        Base.◌>>=◌ (item "balance" row)
          λ b. Base.◌>>=◌ (as_integer b) λ z. ok (put "balance" z row ∷ [])

-- `d["peer"] = d["account"]; d["account"] = account`
abbrev pub line_row : Value → Value → Result Fields
line_row a (dict d) = Base.◌>>=◌ (item "account" d) λ p. ok (put "account" a (put "peer" p d))
line_row a v = err type_error

unfoldable pub line_rows : Value → Items → Result Frame
line_rows a nil = ok []
line_rows a (cons v vs) =
    Base.◌>>=◌ (line_row a v) λ row. Base.◌>>=◌ (line_rows a vs) λ rows. ok (row ∷ rows)

abbrev pub items_of : Value → Result Items
items_of (list vs) = ok vs
items_of v = err type_error

-- The rows that `get_trust_lines` makes of an answer.
unfoldable pub read_trust_lines : Value → Result Frame
read_trust_lines r = Base.◌>>=◌ (present bad_lines "lines" r) λ lines.
    Base.◌>>=◌ (present bad_lines "account" r) λ a. Base.◌>>=◌ (items_of lines) λ vs. line_rows a vs

-- `df.loc[:, ["account", "balance", "currency", "peer", "limit"]]` on a row
abbrev pub balance_row : Fields → Result Fields
balance_row d = Base.◌>>=◌ (item "account" d) λ a. Base.◌>>=◌ (item "balance" d) λ b.
    Base.◌>>=◌ (item "currency" d) λ c. Base.◌>>=◌ (item "peer" d) λ p.
      Base.◌>>=◌ (item "limit" d) λ l. ok (
        field "account" a
          (field "balance" b (field "currency" c (field "peer" p (field "limit" l end)))))

abbrev pub xrp_row : Fields → Fields
xrp_row d = put "limit" (str "") (put "peer" (str "") (put "currency" (str "XRP") d))

abbrev pub is_str : Option String → Value → Bool
is_str (some s) (str t) = s == t
is_str _ _ = false

abbrev pub keep_row : Bool → Fields → Frame → Frame
keep_row true d rows = d ∷ rows
keep_row false d rows = rows

-- The lines with the asset's issuer and currency
unfoldable pub lines_in : Option String → String → Frame → Result Frame
lines_in issuer currency [] = ok []
lines_in issuer currency (d ∷ rows) = Base.◌>>=◌ (item "peer" d) λ p.
    Base.◌>>=◌ (item "currency" d) λ c.
      Base.◌>>=◌ (lines_in issuer currency rows)
        λ rest. ok (keep_row (is_str issuer p && is_str (some currency) c) d rest)

abbrev pub issuer_id : Asset → Result (Option String)
issuer_id a = Base.◌>>=◌ (require attribute_error a.issuer) λ i. ok i.account_id

abbrev pub lines_of_account : Account → AccountLines
lines_of_account a = record {
  account = a;
  peer = none;
  ledger_hash = none;
  ledger_index = none;
  limit = none;
  marker = none;
}

-- What a bare `except` gives in place of what was raised
abbrev pub rescued : {W A : Type 0} → A → Outcome A W → Outcome A W
rescued a (ok b, app, w) = (ok b, app, w)
rescued a (err e, app, w) = (ok a, app, w)

abbrev pub rescue : {W A : Type 0} → Requests W A → A → Requests W A
rescue m a app w = rescued a (m app w)

-- `pd.concat`, which raises for no frames
abbrev pub concat_frames : List Frame → Result Frame
concat_frames [] = err (value_error "No objects to concatenate")
concat_frames (f ∷ []) = ok f
concat_frames (f ∷ g ∷ fs) = Base.◌>>=◌ (concat_frames (g ∷ fs)) λ rows. ok (f ++ rows)

abbrev pub info_frame : Account → Option Value → Result Frame
info_frame a none = ok (missing_account a ∷ [])
info_frame a (some v) = read_account_info v

abbrev pub selected : Asset → Frame → Result Frame
selected asset [] = ok []
selected asset (d ∷ rows) = Base.◌>>=◌ (issuer_id asset) λ i. lines_in i asset.currency (d ∷ rows)

-- `df.iloc[0]["balance"]`, as what an asset is called with
abbrev pub amount_in : Value → Result ValueArg
amount_in (num n) = ok (number n)
amount_in (str s) = ok (text s)
amount_in v = err type_error

abbrev pub first_balance : Frame → Result ValueArg
first_balance [] = err index_error
first_balance (d ∷ rows) = Base.◌>>=◌ (item "balance" d) amount_in

-- `asset(v)`
abbrev pub valued : Floats → Asset → ValueArg → Result Asset
valued F asset v = init_asset F (record no_asset_args { value = some v; from_asset = some asset })

-- What `try: ... except: return asset(0)` gives
abbrev pub or_zero : Floats → Asset → Result Asset → Result Asset
or_zero F asset (ok a) = ok a
or_zero F asset (err e) = valued F asset (number (int (pos 0)))

module _ {W : Type 0} (server : Server W) where
  unfoldable pub query : Body → Requests W Value
  query b app w = call server b app w

  -- `get_account_info` of one account
  unfoldable pub get_account_info : Account → Requests W Frame
  get_account_info a = do
    r ← rescue (query (account_info (info_args a)) >>= λ v. lift (ok (some v))) none
    lift (info_frame a r)

  -- `get_trust_lines`, of all peers
  unfoldable pub get_trust_lines : Account → Requests W Frame
  get_trust_lines a = do r ← query (account_lines (lines_of_account a)); lift (read_trust_lines r)

  abbrev pub xrp_balances : Account → Requests W Frame
  xrp_balances a = do
    rows ← rescue (get_account_info a) (missing_account a ∷ [])
    lift (map_list balance_row (map xrp_row rows))

  abbrev pub iou_balances : Account → Asset → Requests W Frame
  iou_balances a asset = do
    rows ← rescue (get_trust_lines a >>= λ rows. lift (selected asset rows)) []
    lift (map_list balance_row rows)

  -- `get_balances` of one account in one asset
  unfoldable pub get_balances : Account → Asset → Requests W Frame
  get_balances a asset = if is_xrp asset then xrp_balances a else iou_balances a asset

  unfoldable pub balances_in : Account → List Asset → Requests W (List Frame)
  balances_in a [] = lift (ok [])
  balances_in a (asset ∷ assets) = do
    rows ← get_balances a asset
    frames ← balances_in a assets
    lift (ok (rows ∷ frames))

  unfoldable pub balances_of : List Account → List Asset → Requests W (List Frame)
  balances_of [] assets = lift (ok [])
  balances_of (a ∷ accounts) assets = do
    frames ← balances_in a assets
    rows ← lift (concat_frames frames)
    rest ← balances_of accounts assets
    lift (ok (rows ∷ rest))

  -- `get_balances` of several accounts, or of the address book, in several assets
  unfoldable pub get_all_balances : Option (List Account) → List Asset → Requests W Frame
  get_all_balances none assets app w =
      (balances_of (known_accounts app.key_manager) assets >>= λ fs. lift (concat_frames fs)) app w
  get_all_balances (some accounts) assets app w =
      (balances_of accounts assets >>= λ fs. lift (concat_frames fs)) app w

  -- `get_balance`
  unfoldable pub get_balance : Floats → Account → Asset → Requests W Asset
  get_balance F a asset app w =
      let asked = do
        rows ← get_balances a asset
        v ← lift (first_balance rows)
        lift (valued F asset v)
      in let (r, app, w) = asked app w in (or_zero F asset r, app, w)
