-- ===== src/Repl/Args.antt =====
-- What the commands of bin/python/interactive.py do alike with the words of their line.
use xbridge_witness.Base.{
  String, Bool, true, false, not, ◌||◌, Option, none, some, List, [], ◌∷◌, ◌==◌, Result, ok, err,
  index_error, if◌then◌else◌,
}
use xbridge_witness.Base.Int.{pos}
use xbridge_witness.Base.Words.{concat}
use xbridge_witness.Value.{
  Number, int, Account, Asset, Value, list, cons, nil, dict, str, field, end,
}
use xbridge_witness.Value.Floats.{Floats, mul_number}
use xbridge_witness.Common.Asset.{int_of_text, float_of_text, is_xrp, call_asset}
use xbridge_witness.Common.Bridge.{Bridge}
use xbridge_witness.Base.Dict.{lookup}
use xbridge_witness.Transaction.Types.{Body, Transaction}
use xbridge_witness.Keys.KeyManager.{is_alias, account_from_alias}
use xbridge_witness.Keys.AssetAliases.{is_asset_alias, asset_from_alias}
use xbridge_witness.Repl.State.{
  Chain, mainchain, sidechain, Step, ◌>>=◌, ◌>>◌, pure, fail, refuse, unless, get_state, lift,
  app_of,
}

-- `chain_name in ["mainchain", "sidechain"]`
unfoldable pub chain_of : String → Option Chain
chain_of s =
    if s == "mainchain" then some mainchain else if s == "sidechain" then some sidechain else none

abbrev is_unit : String → Bool
is_unit s = s == "xrp" || s == "drops"

-- The last word, if it is a unit, is taken off; True stands for drops.
unfoldable pub take_unit : List String → Bool × List String
take_unit [] = (false, [])
take_unit (a ∷ []) = if is_unit a then (a == "drops", []) else (false, a ∷ [])
take_unit (a ∷ b ∷ args) = let (in_drops, rest) = take_unit (b ∷ args) in (in_drops, a ∷ rest)

-- The first of the words, with the others; the conversions of a text that are tried in turn.
abbrev pub pop : {W : Type 0} → List String → Step W (String × List String)
pop [] = fail index_error
pop (a ∷ args) = pure (a, args)

abbrev pub first_chain : String
first_chain = "Error: First argument must specify the chain. Type \"help\" for help."

abbrev pub bad_chain : String
bad_chain = "Error: The first argument must be \"mainchain\" or \"sidechain\"."

abbrev pub found_chain : {W : Type 0} → String → Option Chain → Step W Chain
found_chain message none = refuse message
found_chain message (some c) = pure c

-- The chain that the first word names.
unfoldable pub take_chain : {W : Type 0} → String → List String → Step W (Chain × List String)
take_chain message args = do
  (a, args) ← pop args
  c ← found_chain message (chain_of a)
  pure (c, args)

abbrev pub not_known : String → String
not_known nickname = concat ("Error: " ∷ nickname ∷ " is not in the address book" ∷ [])

-- The account of a nickname that must be in the chain's address book.
unfoldable pub known_account : {W : Type 0} → (String → String) → Chain → String → Step W Account
known_account message c nickname = do
  r ← get_state
  unless (is_alias nickname (app_of c r).key_manager) (message nickname)
  lift (account_from_alias nickname (app_of c r).key_manager)

abbrev pub take_account : {W : Type 0} → Chain → List String → Step W (Account × List String)
take_account c args = do
  (nickname, args) ← pop args
  a ← known_account not_known c nickname
  pure (a, args)

abbrev attempt : Result Number → Option Number
attempt (ok n) = some n
attempt (err e) = none

abbrev pub try_else : Option Number → Option Number → Option Number
try_else none y = y
try_else (some x) y = some x

-- The amount that a text is: an integer, or a float unless it counts drops.
unfoldable pub read_amount : Floats → Bool → String → Option Number
read_amount F in_drops s =
    try_else (attempt (int_of_text s)) (if in_drops then none else attempt (float_of_text F s))

abbrev pub bad_amount : String → String
bad_amount s = concat ("Error: " ∷ s ∷ " is an invalid amount." ∷ [])

abbrev pub found_amount : {W : Type 0} → String → Option Number → Step W Number
found_amount message none = refuse message
found_amount message (some n) = pure n

-- The amount in the first word. If there is none, both conversions fail on the missing word, and so
-- does the message.
unfoldable pub take_amount :
    {W : Type 0} → Floats → Bool → List String → Step W (Number × List String)
take_amount F in_drops args = do
  (a, args) ← pop args
  n ← found_amount (bad_amount a) (read_amount F in_drops a)
  pure (n, args)

-- `if not in_drops: v *= 1_000_000`
unfoldable pub scale : Floats → Bool → Number → Result Number
scale F in_drops v = if in_drops then ok v else mul_number F v (int (pos 1000000))

-- `unless` with a message that takes steps to make
abbrev pub otherwise : {W : Type 0} → Bool → Step W String → Step W (Unit {0})
otherwise true message = pure tt
otherwise false message = message >>= refuse

-- The asset of an alias that the chain must know.
unfoldable pub known_asset : {W : Type 0} → Step W String → Chain → String → Step W Asset
known_asset message c alias = do
  r ← get_state
  otherwise (is_asset_alias alias (app_of c r).asset_aliases) message
  lift (asset_from_alias alias (app_of c r).asset_aliases)

abbrev pub zero_xrp : Asset
zero_xrp = record { value = some (int (pos 0)); currency = "XRP"; issuer = none }

-- `Asset(value=0)`, or the asset of the alias in the first word; the message may read the next word.
unfoldable pub take_asset :
    {W : Type 0}
    → (String → List String → Step W String)
    → Chain
    → List String
    → Step W (Asset × List String)
take_asset message c [] = pure (zero_xrp, [])
take_asset message c (alias ∷ args) = do
  a ← known_asset (message alias args) c alias
  pure (a, args)

abbrev pub bad_asset : String → String
bad_asset a = concat ("Error: " ∷ a ∷ " is an invalid asset alias." ∷ [])

abbrev pub name_alias : {W : Type 0} → String → List String → Step W String
name_alias alias args = pure (bad_asset alias)

-- The asset with the amount: drops are counted for XRP.
unfoldable pub amount_of : {W : Type 0} → Floats → Bool → Asset → Number → Step W Asset
amount_of F in_drops asset v = do
  v ← lift (scale F (not (is_xrp asset) || in_drops) v)
  lift (call_asset F asset (some v))

-- A transaction of an account, with no other field of its header but the memos.
abbrev pub txn_with : Account → Option Value → Body → Transaction
txn_with a memos body = record {
  header = record {
    account = a;
    flags = none;
    fee = none;
    sequence = none;
    account_txn_id = none;
    last_ledger_sequence = none;
    src_tag = none;
    memos = memos;
  };
  body = body;
}

abbrev pub txn_of : Account → Body → Transaction
txn_of a body = txn_with a none body

-- `[{"Memo": {"MemoData": s}}]`
abbrev pub memo : String → Value
memo s = list (cons (dict (field "Memo" (dict (field "MemoData" (str s) end)) end)) nil)

abbrev pub bridge_or : {W : Type 0} → String → Option Bridge → Step W Bridge
bridge_or message none = refuse message
bridge_or message (some b) = pure b

-- `self.bridge_aliases[alias]`, refused if there is none
unfoldable pub known_bridge : {W : Type 0} → String → String → Step W Bridge
known_bridge message alias = do r ← get_state; bridge_or message (lookup alias r.bridge_aliases)

abbrev pub usage : String → String
usage s = concat ("Error: " ∷ s ∷ " Type \"help\" for help." ∷ [])
