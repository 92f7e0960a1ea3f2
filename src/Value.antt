-- ===== src/Value.antt =====
-- Python values as the program hands them to `json.dumps`, with dictionaries in insertion order.
-- A float is kept as the text that `repr` prints for it.
pub mod Floats
pub mod Laws
pub mod Truth
use xbridge_witness.Base.{
  ℕ, ◌≡◌, String, Bool, true, false, ◌&&◌, Option, none, some, List, [], ◌∷◌, ◌==◌, if◌then◌else◌,
  is_some, Result, ok, err, Exn, type_error, key_error, require,
}
use xbridge_witness.Base.Int.{ℤ}

pub data Number : Type 0 where
  int : ℤ → Number
  float : String → Number

-- `Account` of bin/python/common.py
pub record Account : Type 0 where
  pub account_id : Option String
  pub nickname : Option String
  pub public_key : Option String
  pub public_key_hex : Option String
  pub secret_key : Option String

-- `Asset` of bin/python/common.py
pub record Asset : Type 0 where
  pub value : Option Number
  pub currency : String
  pub issuer : Option Account

-- The last three constructors are Python objects that are no JSON.
mutual
  pub data Value : Type 0 where
    null : Value
    bool : Bool → Value
    num : Number → Value
    str : String → Value
    list : Items → Value
    dict : Fields → Value
    account_object : Account → Value
    asset_object : Asset → Value
    method_object : String → Value

  pub data Items : Type 0 where
    nil : Items
    cons : Value → Items → Items

  pub data Fields : Type 0 where
    end : Fields
    field : String → Value → Fields → Fields

-- `d.get(k)`
unfoldable pub get : String → Fields → Option Value
get k end = none
get k (field j v d) = if j == k then some v else get k d

-- `d[k] = v`
unfoldable pub put : String → Value → Fields → Fields
put k v end = field k v end
put k v (field j w d) = if j == k then field j v d else field j w (put k v d)

-- `if o is not None: d[k] = o`
abbrev pub put_some : String → Option Value → Fields → Fields
put_some k none d = d
put_some k (some v) d = put k v d

-- `d[k]`
abbrev pub item : String → Fields → Result Value
item k d = require key_error (get k d)

abbrev pub of_list : List Value → Items
of_list [] = nil
of_list (v ∷ vs) = cons v (of_list vs)

-- What stands in a field that is annotated as an optional text.
abbrev pub opt_str : Option String → Value
opt_str none = null
opt_str (some s) = str s

abbrev pub as_opt_str : Value → Result (Option String)
as_opt_str null = ok none
as_opt_str (str s) = ok (some s)
as_opt_str _ = err type_error

abbrev pub as_str : Value → Result String
as_str (str s) = ok s
as_str _ = err type_error

-- A value that an argument carries: `None` is an argument left out.
abbrev pub given : Option Value → Option Value
given none = none
given (some null) = none
given (some v) = some v

-- Whether `json.dumps` accepts a value.
unfoldable mutual
  pub is_json : Value → Bool
  is_json null = true
  is_json (bool b) = true
  is_json (num n) = true
  is_json (str s) = true
  is_json (list vs) = is_json_items vs
  is_json (dict d) = is_json_fields d
  is_json (account_object a) = false
  is_json (asset_object a) = false
  is_json (method_object m) = false

  pub is_json_items : Items → Bool
  is_json_items nil = true
  is_json_items (cons v vs) = is_json v && is_json_items vs

  pub is_json_fields : Fields → Bool
  is_json_fields end = true
  is_json_fields (field k v d) = is_json v && is_json_fields d
