-- ===== src/Keys/KeyManager.antt =====
-- `class KeyManager` of bin/python/app.py: the address book.
use xbridge_witness.Base.{
  String, Bool, false, Option, none, some, List, [], ◌∷◌, Result, require, assertion_error,
  if◌then◌else◌, map,
}
use xbridge_witness.Base.Text.{truthy}
use xbridge_witness.Base.Dict.{Dict, lookup, contains, insert, keys, values}
use xbridge_witness.Value.{Account}
use xbridge_witness.Common.Account.{same_text, alias_or_account_id}

-- `accounts` is the dictionary from ids to accounts: the key of an account is its own id.
pub record KeyManager : Type 0 where
  pub aliases : Dict Account
  pub accounts : List Account

abbrev pub init_key_manager : KeyManager
init_key_manager = record { aliases = []; accounts = [] }

-- `self._accounts[i]`
unfoldable pub find_account : Option String → List Account → Option Account
find_account i [] = none
find_account i (a ∷ l) = if same_text a.account_id i then some a else find_account i l

-- `self._accounts[a.account_id] = a`
unfoldable pub put_account : Account → List Account → List Account
put_account a [] = a ∷ []
put_account a (b ∷ l) = if same_text b.account_id a.account_id then a ∷ l else b ∷ put_account a l

-- `if account.nickname: self._aliases[account.nickname] = account`
abbrev pub add_alias : Option String → Account → Dict Account → Dict Account
add_alias none a d = d
add_alias (some n) a d = if truthy n then insert n a d else d

-- `KeyManager.add`
unfoldable pub add : Account → KeyManager → KeyManager
unfolding put_account insert
add a k = record { aliases = add_alias a.nickname a k.aliases; accounts = put_account a k.accounts }

-- `KeyManager.is_alias`
unfoldable pub is_alias : String → KeyManager → Bool
unfolding contains
is_alias n k = contains n k.aliases

-- `KeyManager.account_from_alias`
unfoldable pub account_from_alias : String → KeyManager → Result Account
unfolding lookup
account_from_alias n k = require assertion_error (lookup n k.aliases)

-- `KeyManager.known_accounts`
unfoldable pub known_accounts : KeyManager → List Account
known_accounts k = k.accounts

-- What `KeyManager.alias_or_account_id` takes.
pub data AccountOrId : Type 0 where
  account : Account → AccountOrId
  id : String → AccountOrId

abbrev pub nickname_or : String → Option Account → Option String
nickname_or i none = some i
nickname_or i (some a) = a.nickname

-- `KeyManager.alias_or_account_id`: of a known id it returns the nickname, also if that is `None`.
unfoldable pub alias_or_id : AccountOrId → KeyManager → Option String
unfolding find_account alias_or_account_id
alias_or_id (account a) k = alias_or_account_id a
alias_or_id (id i) k = nickname_or i (find_account (some i) k.accounts)

-- A key that the program looks up: a text, or the built-in function `id`, which equals no text.
pub data Key : Type 0 where
  text : String → Key
  builtin_id : Key

abbrev lookup_key : Key → Dict Account → Option Account
lookup_key (text n) d = lookup n d
lookup_key builtin_id d = none

-- `KeyManager.alias_to_account_id` reads the built-in `id`, not its argument.
unfoldable pub alias_to_account_id : String → KeyManager → Option String
alias_to_account_id alias k = elim (lookup_key builtin_id k.aliases) [
  | none ↦ none
  | some a ↦ a.account_id
]

-- `pd.DataFrame(data={"name": names, "id": account_ids}).to_string(index=False)` is a parameter.
abbrev pub Render : Type 0
Render = List String → List (Option String) → Result String

-- The ids of the rows: for a nickname that is no alias the list stays empty.
abbrev alias_ids : Option Account → List (Option String)
alias_ids none = []
alias_ids (some a) = a.account_id ∷ []

abbrev pub given_name : Option String → Bool
given_name none = false
given_name (some n) = truthy n

abbrev name_of : Option String → String
name_of none = ""
name_of (some n) = n

-- `KeyManager.to_string`
unfoldable pub to_string : Render → Option String → KeyManager → Result String
unfolding lookup keys values
to_string render nickname k =
    if given_name nickname
    then render (name_of nickname ∷ []) (alias_ids (lookup (name_of nickname) k.aliases))
    else render (keys k.aliases) (map (λ (a : Account). a.account_id) (values k.aliases))
