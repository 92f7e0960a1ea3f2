-- ===== src/Repl/Offers.antt =====
-- What `class BridgeRepl` of bin/python/interactive.py offers for a word that is typed: `_complete_chain`,
-- `_complete_unit`, `_complete_account`, `_complete_asset` and `_complete_bridge_alias`. The order of a Python set is that of its insertions.
use xbridge_witness.Base.{
  ℕ, ◌+◌, String, Bool, true, false, Option, none, some, List, [], ◌∷◌, ◌++◌, map, ◌==◌, Result, ok,
  err, ◌>>=◌, index_error, attribute_error, require, length, get_elem?, if◌then◌else◌,
}
use xbridge_witness.Base.Text.{truthy}
use xbridge_witness.Base.Words.{has_prefix}
use xbridge_witness.Base.Dict.{keys}
use xbridge_witness.Value.{Account}
use xbridge_witness.Keys.KeyManager.{known_accounts}
use xbridge_witness.Keys.AssetAliases.{known_aliases}
use xbridge_witness.Session.App.{App}
use xbridge_witness.Repl.State.{Repl}

-- What is offered: a nickname of an account may be `None`.
abbrev pub Offers : Type 0
Offers = Result (List (Option String))

-- `c.startswith(text)`
abbrev pub starts_text : String → Option String → Result Bool
starts_text text none = err attribute_error
starts_text text (some c) = ok (has_prefix text c)

abbrev pub keep_if : Bool → Option String → List (Option String) → List (Option String)
keep_if true c cs = c ∷ cs
keep_if false c cs = cs

-- `[c for c in cs if c.startswith(text)]`
unfoldable pub having_prefix : String → List (Option String) → Offers
having_prefix text [] = ok []
having_prefix text (c ∷ cs) = do
  b ← starts_text text c
  rest ← having_prefix text cs
  ok (keep_if b c rest)

-- All names if nothing is typed, or else those that start with what is.
abbrev pub matching_names : String → List (Option String) → Offers
matching_names text cs = if truthy text then having_prefix text cs else ok cs

abbrev pub same_name : Option String → Option String → Bool
same_name none none = true
same_name none (some b) = false
same_name (some a) none = false
same_name (some a) (some b) = a == b

-- A set with one more element
unfoldable pub with_name : Option String → List (Option String) → List (Option String)
with_name n [] = n ∷ []
with_name n (m ∷ ms) = let rest = with_name n ms in if same_name m n then m ∷ ms else m ∷ rest

unfoldable pub with_names : List (Option String) → List (Option String) → List (Option String)
with_names [] s = s
with_names (n ∷ ns) s = with_names ns (with_name n s)

abbrev pub complete_chain : String → Offers
complete_chain text = matching_names text (some "mainchain" ∷ some "sidechain" ∷ [])

abbrev pub complete_unit : String → Offers
complete_unit text = matching_names text (some "drops" ∷ some "xrp" ∷ [])

-- The apps of the chain that is named, or of both
abbrev pub chains_named : Option String → Repl → List App
chains_named none r = r.mc_app ∷ r.sc_app ∷ []
chains_named (some c) r =
    if c == "mainchain"
    then r.mc_app ∷ []
    else if c == "sidechain"
    then r.sc_app ∷ []
    else r.mc_app ∷ r.sc_app ∷ []

unfoldable pub nicknames : List App → List (Option String)
nicknames [] = []
nicknames (a ∷ apps) =
    map (λ (k : Account). k.nickname) (known_accounts a.key_manager) ++ nicknames apps

unfoldable pub asset_names : List App → List (Option String)
asset_names [] = []
asset_names (a ∷ apps) = map some (known_aliases a.asset_aliases) ++ asset_names apps

-- `_complete_account`
unfoldable pub complete_account : String → Option String → Repl → Offers
complete_account text chain r =
    matching_names text (with_names (nicknames (chains_named chain r)) [])

-- `_complete_asset`
unfoldable pub complete_asset : String → Option String → Repl → Offers
complete_asset text chain r =
    matching_names text (with_names (asset_names (chains_named chain r)) [])

-- `_complete_bridge_alias`, which no command calls with the arguments that it takes
abbrev pub complete_bridge_alias : String → Repl → Offers
complete_bridge_alias text r = matching_names text (map some (keys r.bridge_aliases))

abbrev pub hook_names : List (Option String)
hook_names = some "doubler" ∷ some "notascam" ∷ []

-- The sum of two lists of names
abbrev pub both_offers : Offers → Offers → Offers
both_offers x y = x >>= λ cs. y >>= λ ds. ok (cs ++ ds)

-- `args[1]`
abbrev pub chain_word : List String → Result String
chain_word args = require index_error (get_elem? args 1)

-- The words of the line, and one more if a new word begins
abbrev pub arg_num : String → List String → ℕ
arg_num text args = if truthy text then length args else length args + 1

-- `_other_chain_name`
abbrev pub other_chain_name : String → String
other_chain_name c = if c == "mainchain" then "sidechain" else "mainchain"

-- The same, but of no chain
abbrev pub other_name : String → Option String
other_name c =
    if c == "mainchain"
    then some "sidechain"
    else if c == "sidechain"
    then some "mainchain"
    else none
