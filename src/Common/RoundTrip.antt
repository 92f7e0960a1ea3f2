-- ===== src/Common/RoundTrip.antt =====
-- What `to_cmd_obj` writes is read back by the constructors of bin/python/common.py.
use xbridge_witness.Base.{
  String, ◌≡◌, false, Option, none, some, ◌==◌, Result, ok, ◌>>=◌, Result-cases, >>=-eq-ok,
  Bool-cases, Option-cases, inl, inr,
}
use xbridge_witness.Base.Int.{ℤ}
use xbridge_witness.Base.Decimal.{parse-show, show}
use xbridge_witness.Value.{int, float, Account, Asset, Value, get, put, Number}
use xbridge_witness.Value.Floats.{Floats}
use xbridge_witness.Value.Laws.{as_opt_str-opt_str}
use xbridge_witness.Common.Account.{account_of_id}
use xbridge_witness.Common.Asset.{no_asset_args, init_asset, asset_to_cmd_obj}
use xbridge_witness.Common.Issue.{Issue, issue_of_rpc, init_issue, issue_to_cmd_obj}
use xbridge_witness.Common.Bridge.{Bridge, bridge_of_rpc, bridge_to_cmd_obj}

-- An account or an asset without what does not leave the program.
abbrev pub bare_issuer : Option Account → Option Account
bare_issuer none = none
bare_issuer (some i) = some (account_of_id i.account_id)

-- The assets that are amounts, and the value that is read back of each: whole drops as they are, an IOU
-- with a float as that float, which `float` reads back, and an IOU with a whole number as the float
-- that `float` makes of it.
pub data ReadsAs (F : Floats) : Asset → Number → Type 0 where
  xrp_amount :
      (z : ℤ) → ReadsAs F (record { value = some (int z); currency = "XRP"; issuer = none }) (int z)
  iou_amount :
      (r c : String) (i : Account)
      → (c == "XRP") ≡ false
      → F.of_text r ≡ some r
      → ReadsAs F (record { value = some (float r); currency = c; issuer = some i }) (float r)
  whole_iou :
      (z : ℤ) (r c : String) (i : Account)
      → (c == "XRP") ≡ false
      → F.of_text (show z) ≡ some r
      → ReadsAs F (record { value = some (int z); currency = c; issuer = some i }) (float r)

-- `Asset(from_rpc_result=v)`
abbrev pub asset_of_rpc : Floats → Value → Result Asset
asset_of_rpc F v = init_asset F (record no_asset_args { from_rpc_result = some v })

-- An amount of whole drops, or of an IOU with a float or a whole number, is written and read back with its
-- currency, of its issuer the id only, and its value, where a whole number of an IOU becomes a float.
pub asset_of_rpc-asset_to_cmd_obj :
    (F : Floats) {a : Asset} {n : Number}
    → ReadsAs F a n
    → (asset_to_cmd_obj a >>= asset_of_rpc F)
      ≡ ok (record { value = some n; currency = a.currency; issuer = bare_issuer a.issuer })
unfolding asset_to_cmd_obj init_asset get put
asset_of_rpc-asset_to_cmd_obj F (xrp_amount z) = rw (parse-show z)
asset_of_rpc-asset_to_cmd_obj F (iou_amount r c i ne e) =
    rw (ne, as_opt_str-opt_str i.account_id, e)
asset_of_rpc-asset_to_cmd_obj F (whole_iou z r c i ne e) =
    rw (ne, as_opt_str-opt_str i.account_id, e)

iou_idem :
    (a : Issue)
    → (a.currency == "XRP") ≡ false
    → (issue_to_cmd_obj a >>= λ v. issue_of_rpc v >>= issue_to_cmd_obj) ≡ issue_to_cmd_obj a
unfolding issue_to_cmd_obj init_issue get put
iou_idem a x = elim (Option-cases a.issuer) [
  | inl q ↦ rw (x, q)
  | inr (i, q) ↦ rw (x, q, as_opt_str-opt_str i.account_id, x)
]

-- An issue that is read from what an issue writes writes the same, and the write fails only where
-- the first write fails.
issue_to_cmd_obj_idem :
    (a : Issue)
    → (issue_to_cmd_obj a >>= λ v. issue_of_rpc v >>= issue_to_cmd_obj) ≡ issue_to_cmd_obj a
issue_to_cmd_obj_idem a = elim (Bool-cases (a.currency == "XRP")) [
  | inl x ↦ unfold issue_to_cmd_obj init_issue in rw x
  | inr x ↦ iou_idem a x
]

bridge_idem :
    (b : Bridge) (li ii : Value)
    → issue_to_cmd_obj b.locking_chain_issue ≡ ok li
    → issue_to_cmd_obj b.issuing_chain_issue ≡ ok ii
    → (bridge_to_cmd_obj b >>= λ d. bridge_of_rpc d >>= bridge_to_cmd_obj) ≡ bridge_to_cmd_obj b
unfolding bridge_to_cmd_obj bridge_of_rpc get put
bridge_idem b li ii hl hi =
    let hl' = issue_to_cmd_obj_idem b.locking_chain_issue in
    let hi' = issue_to_cmd_obj_idem b.issuing_chain_issue in
    let (l, rl, wl) = >>=-eq-ok (issue_of_rpc li) issue_to_cmd_obj (rw hl at hl') in
    let (i, ri, wi) = >>=-eq-ok (issue_of_rpc ii) issue_to_cmd_obj (rw hi at hi') in
    rw (
      hl,
      hi,
      as_opt_str-opt_str b.locking_chain_door.account_id,
      rl,
      as_opt_str-opt_str b.issuing_chain_door.account_id,
      ri,
      wl,
      wi,
    )

-- A bridge that is read from what a bridge writes writes the same, and the write fails only where
-- the first write fails.
pub bridge_to_cmd_obj_idem :
    (b : Bridge)
    → (bridge_to_cmd_obj b >>= λ d. bridge_of_rpc d >>= bridge_to_cmd_obj) ≡ bridge_to_cmd_obj b
bridge_to_cmd_obj_idem b = elim (Result-cases (issue_to_cmd_obj b.locking_chain_issue)) [
  | inr (e, q) ↦ unfold bridge_to_cmd_obj in rw q
  | inl (li, ql) ↦ elim (Result-cases (issue_to_cmd_obj b.issuing_chain_issue)) [
    | inr (e, q) ↦ unfold bridge_to_cmd_obj in rw (ql, q)
    | inl (ii, qi) ↦ bridge_idem b li ii ql qi
  ]
]
