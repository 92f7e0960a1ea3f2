-- ===== src/Log/Group.antt =====
-- `group_by_txn` and `_rekey_dict_by_txn_date` of bin/python/log_report.py.
use xbridge_witness.Base.{String, Option, none, some, List, [], ◌∷◌, ◌++◌, Result, ok, ◌>>=◌}
use xbridge_witness.Base.Dict.{Dict, lookup, insert}
use xbridge_witness.Value.{Fields}
use xbridge_witness.Log.Hashes.{Upper, has_256bit_hex_field}

-- The items of each server, and what is grouped: for each hash the items of each server.
abbrev pub Logs : Type 0
Logs = List (String × List Fields)

abbrev pub Groups : Type 0
Groups = Dict (Dict (List Fields))

-- `d[k]` on a `defaultdict`
abbrev pub or_empty {ℓ} : {A : Type ℓ} → Option (List A) → List A
or_empty none = []
or_empty (some l) = l

-- `result[h][server_id].append(log_item)`
unfoldable pub append_log : String → String → Fields → Groups → Groups
unfolding lookup insert
append_log h server item g =
    let logs = or_empty (lookup h g) in
    insert h (insert server (or_empty (lookup server logs) ++ item ∷ []) logs) g

-- `for h in txn_hashes`
unfoldable pub append_each : List String → String → Fields → Groups → Groups
unfolding append_log
append_each [] server item g = g
append_each (h ∷ hs) server item g = append_each hs server item (append_log h server item g)

-- `for log_item in log_list`
unfoldable pub group_items : Upper → String → List Fields → Groups → Result Groups
unfolding append_each has_256bit_hex_field
group_items other server [] g = ok g
group_items other server (item ∷ items) g = has_256bit_hex_field other item >>= λ hs.
    group_items other server items (append_each hs server item g)

unfoldable pub group_servers : Upper → Logs → Groups → Result Groups
unfolding group_items
group_servers other [] g = ok g
group_servers other ((server, items) ∷ logs) g =
    group_items other server items g >>= λ g. group_servers other logs g

-- `group_by_txn`
unfoldable pub group_by_txn : Upper → Logs → Result Groups
unfolding group_servers
group_by_txn other logs = group_servers other logs []
