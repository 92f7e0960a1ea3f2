-- ===== src/Log/Rekey.antt =====
-- `_rekey_dict_by_txn_date` of bin/python/log_report.py.
use xbridge_witness.Base.{
  String, Bool, false, Option, List, [], ◌∷◌, map, Result, ok, key_error, require, ◌>>=◌,
  if◌then◌else◌, ◌==◌, ◌||◌, or_else,
}
use xbridge_witness.Base.Dict.{Dict, lookup, insert}

-- `k in l`
abbrev pub among : String → List String → Bool
among k [] = false
among k (h ∷ hs) = h == k || among k hs

-- Timestamps are a parameter, as they are dates of Python's library: `before t u` is that `t` is not later
-- than `u`.
module _ {T : Type 0} (before : T → T → Bool) where
  -- `sorted(..., key=lambda x: x[1])`, which keeps the order of equal keys
  unfoldable pub put_in_order : String × T → List (String × T) → List (String × T)
  put_in_order (k, t) [] = (k, t) ∷ []
  put_in_order (k, t) ((j, u) ∷ l) =
      let rest = put_in_order (k, t) l in if before t u then (k, t) ∷ (j, u) ∷ l else (j, u) ∷ rest

  unfoldable pub sort_times : Dict T → List (String × T)
  unfolding put_in_order
  sort_times [] = []
  sort_times ((k, t) ∷ d) = put_in_order (k, t) (sort_times d)

  -- The known transactions, the earliest first
  unfoldable pub known_txns : Dict T → List String
  unfolding sort_times
  known_txns d = map (λ (p : String × T). p.0) (sort_times d)

  module _ {A : Type 0} where
    -- `for k, v in grouped_by_txn.items(): if k not in known_txns: result[k] = v`
    unfoldable pub unknown_part : List String → Dict A → Dict A → Dict A
    unfolding insert
    unknown_part known [] result = result
    unknown_part known ((k, v) ∷ d) result =
        unknown_part known d (if among k known then result else insert k v result)

    -- `for h in known_txns: result[h] = grouped_by_txn[h]`. A `defaultdict` has a value for a missing key.
    unfoldable pub known_part : Option A → Dict A → List String → Dict A → Result (Dict A)
    unfolding insert lookup
    known_part default grouped [] result = ok result
    known_part default grouped (h ∷ hs) result =
        require key_error (or_else (lookup h grouped) default) >>= λ v.
        known_part default grouped hs (insert h v result)

    -- `_rekey_dict_by_txn_date`
    unfoldable pub rekey_dict_by_txn_date : Option A → Dict T → Dict A → Result (Dict A)
    unfolding known_txns unknown_part known_part
    rekey_dict_by_txn_date default times grouped =
        known_part default grouped (known_txns times) (unknown_part (known_txns times) grouped [])
