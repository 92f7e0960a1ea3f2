-- ===== src/Common/Account.antt =====
-- `class Account` of bin/python/common.py.
use xbridge_witness.Base.{
  String, Bool, true, false, Option, none, some, ◌==◌, Result, ok, type_error, attribute_error,
  require, ◌>>=◌,
}
use xbridge_witness.Base.Hex.{encode, hexlify}
use xbridge_witness.Value.{Account, Fields, end, put, opt_str, as_opt_str, item}

-- The keyword arguments of `Account(...)`.
pub record AccountArgs : Type 0 where
  pub account_id : Option String
  pub nickname : Option String
  pub public_key : Option String
  pub public_key_hex : Option String
  pub secret_key : Option String
  pub result_dict : Option Fields

abbrev from_result : Option String → Fields → Result Account
from_result name d = do
  i ← item "account_id" d
  account_id ← as_opt_str i
  p ← item "public_key" d
  public_key ← as_opt_str p
  h ← item "public_key_hex" d
  public_key_hex ← as_opt_str h
  s ← item "master_seed" d
  secret_key ← as_opt_str s
  ok (record {
    account_id = account_id;
    nickname = name;
    public_key = public_key;
    public_key_hex = public_key_hex;
    secret_key = secret_key;
  })

unfoldable pub init_account : AccountArgs → Result Account
init_account a = elim a.result_dict [
  | none ↦ ok (record {
    account_id = a.account_id;
    nickname = a.nickname;
    public_key = a.public_key;
    public_key_hex = a.public_key_hex;
    secret_key = a.secret_key;
  })
  | some d ↦ from_result a.nickname d
]

-- `Account(account_id=i)`
abbrev pub account_of_id : Option String → Account
account_of_id i = record {
  account_id = i;
  nickname = none;
  public_key = none;
  public_key_hex = none;
  secret_key = none;
}

abbrev pub same_text : Option String → Option String → Bool
same_text none none = true
same_text none (some t) = false
same_text (some s) none = false
same_text (some s) (some t) = s == t

-- `Account.__eq__` on two accounts: only the id counts.
abbrev pub same_account : Account → Account → Bool
same_account a b = same_text a.account_id b.account_id

-- `a == b` where either may be `None`
abbrev pub same_issuer : Option Account → Option Account → Bool
same_issuer none none = true
same_issuer none (some b) = false
same_issuer (some a) none = false
same_issuer (some a) (some b) = same_account a b

-- `Account.alias_or_account_id`
unfoldable pub alias_or_account_id : Account → Option String
alias_or_account_id a = elim a.nickname [ none ↦ a.account_id | some n ↦ some n ]

-- `Account.__str__`: a `__str__` that returns `None` raises.
unfoldable pub show_account : Account → Result String
unfolding alias_or_account_id
show_account a = require type_error (alias_or_account_id a)

-- `Account.to_cmd_obj`
unfoldable pub account_to_cmd_obj : Account → Fields
account_to_cmd_obj a = put "secret_key" (opt_str a.secret_key) (
    put "public_key_hex" (opt_str a.public_key_hex) (
      put "public_key" (opt_str a.public_key)
        (put "nickname" (opt_str a.nickname) (put "account_id" (opt_str a.account_id) end))))

-- `Account.account_id_str_as_hex`
unfoldable pub account_id_str_as_hex : Account → Result String
unfolding encode hexlify
account_id_str_as_hex a = require attribute_error a.account_id >>= λ id. ok (hexlify (encode id))
