-- ===== src/Common/Asset.antt =====
-- `class Asset` of bin/python/common.py, with `XRP` and `drops`.
use xbridge_witness.Base.{
  String, Bool, true, false, ◌&&◌, not, Option, none, some, ◌==◌, if◌then◌else◌, Result, ok, err,
  type_error, attribute_error, value_error, overflow_error, assert, require, ◌>>=◌, ◌>>◌, is_some,
  or_else,
}
use xbridge_witness.Base.Int.{ℤ, pos}
use xbridge_witness.Base.Text.{append}
use xbridge_witness.Base.Decimal.{parse}
use xbridge_witness.Value.{
  Number, int, float, Account, Asset, Value, num, str, dict, Fields, end, put, opt_str, as_str,
  as_opt_str, item, given, bool,
}
use xbridge_witness.Value.Floats.{
  Floats, show_number, add_number, sub_number, mul_number, eq_number,
}
use xbridge_witness.Common.Account.{account_of_id, same_issuer, show_account}

-- What may be passed for `value`: the constructor also reads texts.
pub data ValueArg : Type 0 where
  number : Number → ValueArg
  text : String → ValueArg

-- The keyword arguments of `Asset(...)`.
pub record AssetArgs : Type 0 where
  pub value : Option ValueArg
  pub currency : Option String
  pub issuer : Option Account
  pub from_asset : Option Asset
  pub from_rpc_result : Option Value

abbrev pub no_asset_args : AssetArgs
no_asset_args = record {
  value = none;
  currency = none;
  issuer = none;
  from_asset = none;
  from_rpc_result = none;
}

abbrev to_int : Option ℤ → Result Number
to_int none = err (value_error "invalid literal for int()")
to_int (some z) = ok (int z)

-- `int(s)`
abbrev pub int_of_text : String → Result Number
int_of_text s = to_int (parse s)

-- The state of the constructor between its steps.
record Partial : Type 0 where
  value : Option ValueArg
  currency : Option String
  issuer : Option Account

abbrev inherit : Partial → Option Asset → Partial
inherit p none = p
inherit p (some a) = record {
  value = or_else p.value (elim a.value [ none ↦ none | some n ↦ some (number n) ]);
  currency = or_else p.currency (some a.currency);
  issuer = or_else p.issuer a.issuer;
}

abbrev pub is_xrp : Asset → Bool
is_xrp a = a.currency == "XRP"

abbrev pub opt_issuer : Option Account → Result (Option String)
opt_issuer none = err attribute_error
opt_issuer (some i) = ok i.account_id

module _ (F : Floats) where
  abbrev to_float : Option String → Result Number
  to_float none = err (value_error "could not convert string to float")
  to_float (some r) = ok (float r)

  -- `float(s)`
  abbrev pub float_of_text : String → Result Number
  float_of_text s = to_float (F.of_text s)

  -- `float(v)`
  abbrev float_of_value : Value → Result Number
  float_of_value (str s) = float_of_text s
  float_of_value (num (float r)) = ok (float r)
  float_of_value (num (int z)) = require overflow_error (F.of_int z) >>= λ r. ok (float r)
  float_of_value (bool true) = ok (float "1.0")
  float_of_value (bool false) = ok (float "0.0")
  float_of_value _ = err type_error

  abbrev from_rpc : Partial → Option Value → Result Partial
  from_rpc p none = ok p
  from_rpc p (some (str s)) = do
    n ← int_of_text s
    ok (record p { value = some (number n); currency = some "XRP" })
  from_rpc p (some (dict d)) = do
    v ← item "value" d
    n ← float_of_value v
    c ← item "currency" d
    currency ← as_str c
    i ← item "issuer" d
    issuer ← as_opt_str i
    ok (record {
      value = some (number n);
      currency = some currency;
      issuer = some (account_of_id issuer);
    })
  from_rpc p (some _) = err type_error

  -- The last step of the constructor: a text is read as the currency says.
  abbrev finish : String → Option Account → Option ValueArg → Result Asset
  finish c i none = ok (record { value = none; currency = c; issuer = i })
  finish c i (some (number n)) = ok (record { value = some n; currency = c; issuer = i })
  finish c i (some (text s)) = do
    n ← if c == "XRP" then int_of_text s else float_of_text s
    ok (record { value = some n; currency = c; issuer = i })

  abbrev default_currency : Option String → String
  default_currency none = "XRP"
  default_currency (some c) = c

  unfoldable pub init_asset : AssetArgs → Result Asset
  init_asset a = do
    let rpc = given a.from_rpc_result
    assert (not (is_some a.from_asset && is_some rpc))
    p ←
        from_rpc
          (inherit (record { value = a.value; currency = a.currency; issuer = a.issuer })
            a.from_asset)
          rpc
    finish (default_currency p.currency) p.issuer p.value

  -- `Asset(value=v)`
  abbrev pub asset_of_value : Number → Result Asset
  asset_of_value n = init_asset (record no_asset_args { value = some (number n) })

  -- `asset(value)`
  abbrev pub call_asset : Asset → Option Number → Result Asset
  call_asset a v = init_asset (record no_asset_args {
    value = elim v [ none ↦ none | some n ↦ some (number n) ];
    from_asset = some a;
  })

  -- Two values that must be numbers.
  abbrev both : (Number → Number → Result Number) → Option Number → Option Number → Result Number
  both f (some a) (some b) = f a b
  both f none b = err type_error
  both f (some a) none = err type_error

  abbrev same_kind : Asset → Asset → Bool
  same_kind a b = same_issuer a.issuer b.issuer && a.currency == b.currency

  abbrev combine : (Number → Number → Result Number) → Asset → Asset → Result Asset
  combine f a b = do
    assert (same_kind a b)
    n ← both f a.value b.value
    init_asset (record no_asset_args {
      value = some (number n);
      currency = some a.currency;
      issuer = a.issuer;
    })

  -- `Asset.__add__`
  unfoldable pub add_asset : Asset → Asset → Result Asset
  add_asset = combine (add_number F)

  -- `Asset.__sub__`
  unfoldable pub sub_asset : Asset → Asset → Result Asset
  sub_asset = combine (sub_number F)

  abbrev same_value : Option Number → Option Number → Bool
  same_value none none = true
  same_value none (some b) = false
  same_value (some a) none = false
  same_value (some a) (some b) = eq_number F a b

  -- `Asset.__eq__` on two assets
  unfoldable pub same_asset : Asset → Asset → Bool
  same_asset a b =
      same_value a.value b.value && (a.currency == b.currency && same_issuer a.issuer b.issuer)

  -- `XRP(v)`
  unfoldable pub xrp : Number → Result Asset
  xrp v = mul_number F v (int (pos 1000000)) >>= λ n. asset_of_value n

  -- `drops(v)`
  unfoldable pub drops : ℤ → Result Asset
  drops v = asset_of_value (int v)

abbrev value_part : Option Number → String
value_part none = ""
value_part (some n) = append (show_number n) "/"

-- `Asset.__str__`
unfoldable pub show_asset : Asset → Result String
show_asset a = elim a.issuer [
  | none ↦ ok (append (value_part a.value) a.currency)
  | some i ↦
      show_account i >>= λ s. ok (append (value_part a.value) (append a.currency (append "/" s)))
]

-- How an f-string shows an optional text.
abbrev pub show_opt : Option String → String
show_opt none = "None"
show_opt (some s) = s

-- `Asset.cmd_str`
unfoldable pub asset_cmd_str : Asset → String
asset_cmd_str a = elim a.issuer [
  | none ↦ append (value_part a.value) a.currency
  | some i ↦ append (value_part a.value) (append a.currency (append "/" (show_opt i.account_id)))
]

-- `if self.value is not None: result["value"] = f"{self.value}"`
abbrev with_value : Option Number → Fields → Fields
with_value none d = d
with_value (some n) d = put "value" (str (show_number n)) d

abbrev xrp_obj : Option Number → String → Value
xrp_obj none c = dict (put "currency" (str c) end)
xrp_obj (some n) c = str (show_number n)

abbrev iou_obj : Asset → Result Value
iou_obj a = do
  i ← opt_issuer a.issuer
  ok (dict (with_value a.value (put "issuer" (opt_str i) (put "currency" (str a.currency) end))))

-- `Asset.to_cmd_obj`
unfoldable pub asset_to_cmd_obj : Asset → Result Value
asset_to_cmd_obj a = if a.currency == "XRP" then ok (xrp_obj a.value a.currency) else iou_obj a
