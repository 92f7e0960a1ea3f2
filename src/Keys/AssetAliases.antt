-- ===== src/Keys/AssetAliases.antt =====
-- `class AssetAliases` of bin/python/app.py.
use xbridge_witness.Base.{
  String, Bool, Option, none, some, List, [], Result, require, assertion_error, ◌∷◌, if◌then◌else◌,
  map,
}
use xbridge_witness.Base.Dict.{Dict, lookup, contains, insert, keys, values}
use xbridge_witness.Value.{Account, Asset}
use xbridge_witness.Keys.KeyManager.{given_name}

pub record AssetAliases : Type 0 where
  pub aliases : Dict Asset

abbrev pub init_asset_aliases : AssetAliases
init_asset_aliases = record { aliases = [] }

-- `AssetAliases.add`
unfoldable pub add_asset_alias : Asset → String → AssetAliases → AssetAliases
unfolding insert
add_asset_alias a n k = record { aliases = insert n a k.aliases }

-- `AssetAliases.is_alias`
unfoldable pub is_asset_alias : String → AssetAliases → Bool
unfolding contains
is_asset_alias n k = contains n k.aliases

-- `AssetAliases.asset_from_alias`
unfoldable pub asset_from_alias : String → AssetAliases → Result Asset
unfolding lookup
asset_from_alias n k = require assertion_error (lookup n k.aliases)

-- `AssetAliases.known_aliases`
unfoldable pub known_aliases : AssetAliases → List String
unfolding keys
known_aliases k = keys k.aliases

-- `AssetAliases.known_assets`
unfoldable pub known_assets : AssetAliases → List Asset
unfolding values
known_assets k = values k.aliases

-- A cell of the issuer column: an account, or a text.
pub data IssuerCell : Type 0 where
  issuer : Account → IssuerCell
  label : String → IssuerCell

abbrev pub issuer_cell : Asset → IssuerCell
issuer_cell a = elim a.issuer [ none ↦ label "" | some i ↦ issuer i ]

-- `pd.DataFrame(data={...}).to_string(index=False)` on the three columns is a parameter.
abbrev pub RenderAssets : Type 0
RenderAssets = List String → List String → List IssuerCell → Result String

abbrev name_of : Option String → String
name_of none = ""
name_of (some n) = n

abbrev one_row : RenderAssets → String → Option Asset → Result String
one_row render n none = render (n ∷ []) ("NA" ∷ []) (label "NA" ∷ [])
one_row render n (some a) = render (n ∷ []) (a.currency ∷ []) (issuer_cell a ∷ [])

-- `AssetAliases.to_string`
unfoldable pub assets_to_string : RenderAssets → Option String → AssetAliases → Result String
unfolding lookup keys values
assets_to_string render nickname k =
    if given_name nickname
    then one_row render (name_of nickname) (lookup (name_of nickname) k.aliases)
    else render (keys k.aliases) (map (λ (a : Asset). a.currency) (values k.aliases))
        (map issuer_cell (values k.aliases))
