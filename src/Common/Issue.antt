-- ===== src/Common/Issue.antt =====
-- `class Issue` of bin/python/common.py.
use xbridge_witness.Base.{
  String, Bool, ◌&&◌, not, Option, none, some, ◌==◌, if◌then◌else◌, Result, ok, err, name_error,
  type_error, assert, ◌>>=◌, ◌>>◌, is_some, or_else,
}
use xbridge_witness.Base.Text.{append}
use xbridge_witness.Value.{
  Account, Asset, Value, str, dict, end, put, opt_str, as_str, as_opt_str, item, given,
}
use xbridge_witness.Common.Account.{account_of_id, same_issuer, show_account}
use xbridge_witness.Common.Asset.{opt_issuer, show_opt}

pub record Issue : Type 0 where
  pub currency : String
  pub issuer : Option Account

-- The keyword arguments of `Issue(...)`.
pub record IssueArgs : Type 0 where
  pub currency : Option String
  pub issuer : Option Account
  pub from_asset : Option Asset
  pub from_rpc_result : Option Value

abbrev issue_of : Option String → Option Account → Issue
issue_of none i = record { currency = "XRP"; issuer = i }
issue_of (some c) i = record { currency = c; issuer = i }

-- The `raise` for another text evaluates `rpc_result`, a name that is not bound.
abbrev from_rpc : Option String → Option Account → Option Value → Result Issue
from_rpc c i none = ok (issue_of c i)
from_rpc c i (some (str s)) = if s == "XRP" then ok (issue_of (some "XRP") i) else err name_error
from_rpc c i (some (dict d)) = do
  v ← item "currency" d
  currency ← as_str v
  w ← item "issuer" d
  issuer ← as_opt_str w
  ok (issue_of (some currency) (some (account_of_id issuer)))
from_rpc c i (some _) = err type_error

abbrev inherit_currency : Option String → Option Asset → Option String
inherit_currency c none = c
inherit_currency c (some a) = or_else c (some a.currency)

abbrev inherit_issuer : Option Account → Option Asset → Option Account
inherit_issuer i none = i
inherit_issuer i (some a) = or_else i a.issuer

-- `Issue.__init__`
unfoldable pub init_issue : IssueArgs → Result Issue
init_issue a = do
  let rpc = given a.from_rpc_result
  assert (not (is_some a.from_asset && is_some rpc))
  from_rpc (inherit_currency a.currency a.from_asset) (inherit_issuer a.issuer a.from_asset) rpc

-- `Issue(from_rpc_result=v)`
abbrev pub issue_of_rpc : Value → Result Issue
issue_of_rpc v =
    init_issue
      (record { currency = none; issuer = none; from_asset = none; from_rpc_result = some v })

-- `Issue.__eq__` on two issues
unfoldable pub same_issue : Issue → Issue → Bool
same_issue a b = a.currency == b.currency && same_issuer a.issuer b.issuer

-- `Issue.__str__`
unfoldable pub show_issue : Issue → Result String
show_issue a = elim a.issuer [
  | none ↦ ok a.currency
  | some i ↦ show_account i >>= λ s. ok (append a.currency (append "/" s))
]

-- `Issue.is_xrp`
unfoldable pub issue_is_xrp : Issue → Bool
issue_is_xrp a = a.currency == "XRP"

-- `Issue.cmd_str`
unfoldable pub issue_cmd_str : Issue → String
issue_cmd_str a = elim a.issuer [
  | none ↦ a.currency
  | some i ↦ append a.currency (append "/" (show_opt i.account_id))
]

-- `Issue.to_cmd_obj`
unfoldable pub issue_to_cmd_obj : Issue → Result Value
issue_to_cmd_obj a = if a.currency == "XRP" then ok (str "XRP") else (do
  i ← opt_issuer a.issuer
  ok (dict (put "issuer" (opt_str i) (put "currency" (str a.currency) end))))
