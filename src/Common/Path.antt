-- ===== src/Common/Path.antt =====
-- `class Path` and `class PathList` of bin/python/common.py.
use xbridge_witness.Base.{
  Bool, true, false, ◌&&◌, not, Option, none, some, List, [], ◌∷◌, map, if◌then◌else◌, Result, ok,
  err, type_error, assert, map_list, ◌>>=◌, ◌>>◌,
}
use xbridge_witness.Base.Int.{pos}
use xbridge_witness.Value.{
  Account, Asset, Value, str, num, int, dict, list, Fields, end, put, opt_str, of_list,
}
use xbridge_witness.Common.Asset.{is_xrp, opt_issuer}

-- A node of a payment path is an account or a currency.
pub data PathNode : Type 0 where
  account_node : Account → PathNode
  asset_node : Asset → PathNode

pub record PaymentPath : Type 0 where
  pub result_list : List Fields

-- `Path._create_account_path_node`
unfoldable pub create_account_path_node : Account → Fields
create_account_path_node a =
    put "type_hex" (str "0000000000000001")
      (put "type" (num (int (pos 1))) (put "account" (opt_str a.account_id) end))

-- `Path._create_currency_path_node`
unfoldable pub create_currency_path_node : Asset → Result Fields
create_currency_path_node a =
    let node =
      put "type_hex" (str "0000000000000030")
        (put "type" (num (int (pos 48))) (put "currency" (str a.currency) end)) in
    if is_xrp a then ok node else opt_issuer a.issuer >>= λ i. ok (put "issuer" (opt_str i) node)

abbrev create_path_node : PathNode → Result Fields
create_path_node (account_node a) = ok (create_account_path_node a)
create_path_node (asset_node a) = create_currency_path_node a

-- `bool(l)` for an optional list
abbrev pub given_list {ℓ} : {A : Type ℓ} → Option (List A) → Bool
given_list none = false
given_list (some []) = false
given_list (some (x ∷ xs)) = true

abbrev choose_path : Option (List PathNode) → Option (List Fields) → Result PaymentPath
choose_path nodes (some l) = ok (record { result_list = l })
choose_path none none = ok (record { result_list = [] })
choose_path (some nodes) none =
    map_list create_path_node nodes >>= λ l. ok (record { result_list = l })

-- `Path(nodes, result_list=...)`
unfoldable pub init_path : Option (List PathNode) → Option (List Fields) → Result PaymentPath
unfolding create_account_path_node create_currency_path_node
init_path nodes l = do assert (not (given_list nodes && given_list l)); choose_path nodes l

-- `Path.to_cmd_obj`
unfoldable pub path_to_cmd_obj : PaymentPath → Value
path_to_cmd_obj p = list (of_list (map dict p.result_list))

pub record PathList : Type 0 where
  pub paths : Option (List PaymentPath)

abbrev path_of_result : List Fields → PaymentPath
path_of_result l = record { result_list = l }

abbrev choose_paths : Option (List PaymentPath) → Option (List (List Fields)) → PathList
choose_paths paths (some ls) = record { paths = some (map path_of_result ls) }
choose_paths paths none = record { paths = paths }

-- `PathList(path_list, result_list=...)`
unfoldable pub init_path_list :
    Option (List PaymentPath) → Option (List (List Fields)) → Result PathList
init_path_list paths ls = do
  assert (not (given_list paths && given_list ls))
  ok (choose_paths paths ls)

-- `PathList.to_cmd_obj`: a list of no paths is empty, and `None` cannot be iterated over.
unfoldable pub path_list_to_cmd_obj : PathList → Result Value
unfolding path_to_cmd_obj
path_list_to_cmd_obj p = elim p.paths [
  | none ↦ err type_error
  | some ps ↦ ok (list (of_list (map path_to_cmd_obj ps)))
]
