-- ===== src/Setup/Stanzas.antt =====
-- `generate_asset_stanzas` and `generate_sidechain_stanza` of bin/python/create_config_files.py.
use xbridge_witness.Base.{String, Option, none, some, List, [], ◌∷◌, map, Result, ok, ◌>>=◌}
use xbridge_witness.Base.Int.{pos}
use xbridge_witness.Base.Text.{append}
use xbridge_witness.Base.Words.{concat, join}
use xbridge_witness.Base.Decimal.{show_ℕ}
use xbridge_witness.Base.Dict.{Dict, keys}
use xbridge_witness.Value.{Number, int, Asset, Value}
use xbridge_witness.Value.Floats.{Floats}
use xbridge_witness.Common.Asset.{call_asset, asset_to_cmd_obj, xrp}
use xbridge_witness.Session.App.{text_item}
use xbridge_witness.Setup.Ports.{Ports}
use xbridge_witness.Setup.Keypairs.{Keypair}

-- A text of several lines, as its lines
abbrev pub text_of_lines : List String → String
text_of_lines = join "\n"

pub record XchainAsset : Type 0 where
  pub main_asset : Asset
  pub side_asset : Asset
  pub main_refund_penalty : Asset
  pub side_refund_penalty : Asset

module _ (F : Floats) where
  -- `XChainAsset.__init__`, on the two assets, the two values and the two penalties
  unfoldable pub init_xchain_asset :
      Asset → Asset → Number → Number → Number → Number → Result XchainAsset
  init_xchain_asset main side main_value side_value main_penalty side_penalty = do
    a ← call_asset F main (some main_value)
    b ← call_asset F side (some side_value)
    p ← call_asset F main (some main_penalty)
    q ← call_asset F side (some side_penalty)
    ok (record { main_asset = a; side_asset = b; main_refund_penalty = p; side_refund_penalty = q })

  -- `XChainAsset(XRP(0), XRP(0), 1, 1, 400, 400)`
  abbrev pub default_asset : Result XchainAsset
  default_asset = do
    zero ← xrp F (int (pos 0))
    init_xchain_asset zero zero (int (pos 1)) (int (pos 1)) (int (pos 400)) (int (pos 400))

  abbrev pub given_assets : Option (Dict XchainAsset) → Result (Dict XchainAsset)
  given_assets none = default_asset >>= λ a. ok (("xrp_xrp_sidechain_asset", a) ∷ [])
  given_assets (some d) = ok d

-- `json.dumps` is a parameter.
module _ (dumps : Value → String) where
  -- `mainchain_asset={json.dumps(...)}`
  abbrev pub asset_line : String → Asset → Result String
  asset_line k a = asset_to_cmd_obj a >>= λ v. ok (append k (append "=" (dumps v)))

  abbrev pub asset_stanza : String → XchainAsset → Result String
  asset_stanza name a = do
    main ← asset_line "mainchain_asset" a.main_asset
    side ← asset_line "sidechain_asset" a.side_asset
    main_penalty ← asset_line "mainchain_refund_penalty" a.main_refund_penalty
    side_penalty ← asset_line "sidechain_refund_penalty" a.side_refund_penalty
    ok (
        text_of_lines
          ("" ∷ concat ("[" ∷ name ∷ "]" ∷ []) ∷ main ∷ side ∷ main_penalty ∷ side_penalty ∷ []))

  unfoldable pub asset_stanzas : Dict XchainAsset → Result (List String)
  asset_stanzas [] = ok []
  asset_stanzas ((name, a) ∷ assets) = do
    stanza ← asset_stanza name a
    stanzas ← asset_stanzas assets
    ok (stanza ∷ stanzas)

  -- `generate_asset_stanzas`
  unfoldable pub generate_asset_stanzas : Floats → Option (Dict XchainAsset) → Result String
  generate_asset_stanzas F given = do
    assets ← given_assets F given
    stanzas ← asset_stanzas assets
    ok (
        text_of_lines
          (text_of_lines ("" ∷ "[sidechain_assets]" ∷ keys assets) ∷ text_of_lines stanzas ∷ []))

-- `f"{o}"` on what may be `None`
abbrev pub show_optional : Option String → String
show_optional none = "None"
show_optional (some s) = s

abbrev pub federators_stanza : List Keypair → String
federators_stanza federators =
    append
      (text_of_lines ("" ∷ "# federator signing public keys" ∷ "[sidechain_federators]" ∷ "" ∷ []))
      (concat (map (λ f. concat (f.public_key ∷ "\n" ∷ [])) federators))

abbrev pub federators_secrets_stanza : List Keypair → String
federators_secrets_stanza federators =
    append
      (text_of_lines (
        ""
        ∷ "# federator signing secret keys (for standalone-mode testing only; Normally won't be in a config file)"
        ∷ "[sidechain_federators_secrets]" ∷ "" ∷ []))
      (concat (map (λ f. concat (f.secret_key ∷ "\n" ∷ [])) federators))

abbrev pub bootstrap_federators_stanza : List Keypair → String
bootstrap_federators_stanza federators =
    append
      (text_of_lines (
        "" ∷ "# first value is federator signing public key, second is the signing pk account"
        ∷ "[sidechain_federators]" ∷ "" ∷ []))
      (concat (
        map (λ f. concat (f.public_key ∷ " " ∷ show_optional f.account_id ∷ "\n" ∷ [])) federators))

abbrev pub sidechain_stanzas : Ports → String → List Keypair → String → String → String → String
sidechain_stanzas ports id federators signing_key cfg_file assets = text_of_lines (
    ""
    ∷ "[sidechain]"
    ∷ append "signing_key=" signing_key
    ∷ append "mainchain_account=" id
    ∷ "mainchain_ip=127.0.0.1"
    ∷ append "mainchain_port_ws=" (show_ℕ ports.ws_public_port)
    ∷ append "# mainchain config file is: " cfg_file
    ∷ ""
    ∷ assets
    ∷ ""
    ∷ federators_stanza federators
    ∷ ""
    ∷ federators_secrets_stanza federators
    ∷ ""
    ∷ [])

abbrev pub bootstrap_stanzas : String → List Keypair → String
bootstrap_stanzas secret federators = text_of_lines (
    ""
    ∷ "[sidechain]"
    ∷ append "mainchain_secret=" secret
    ∷ ""
    ∷ bootstrap_federators_stanza federators
    ∷ ""
    ∷ [])

-- `generate_sidechain_stanza`: the stanzas of the side chain and those of the bootstrap file; the id and the
-- seed of the main account are texts.
unfoldable pub generate_sidechain_stanza :
    (Value → String)
    → Floats
    → Ports
    → Value
    → List Keypair
    → String
    → String
    → Option (Dict XchainAsset)
    → Result (String × String)
generate_sidechain_stanza dumps F ports account federators signing_key cfg_file given = do
  assets ← generate_asset_stanzas dumps F given
  id ← text_item "account_id" account
  secret ← text_item "master_seed" account
  ok (
    sidechain_stanzas ports id federators signing_key cfg_file assets,
    bootstrap_stanzas secret federators,
  )
