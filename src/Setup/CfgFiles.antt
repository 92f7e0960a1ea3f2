-- ===== src/Setup/CfgFiles.antt =====
-- `generate_cfg_dir`, `generate_multinode_net` and `main` of bin/python/create_config_files.py: the files that
-- they write.
use xbridge_witness.Base.{
  ℕ, ◌+◌, ◌%◌, String, Bool, true, false, Option, none, some, List, [], ◌∷◌, map, Result, ok, err,
  index_error, zero_division_error, require, if◌then◌else◌, length, get_elem?,
}
use xbridge_witness.Base.Text.{append, truthy}
use xbridge_witness.Base.Decimal.{show_ℕ}
use xbridge_witness.Base.Dict.{Dict}
use xbridge_witness.Value.{Value}
use xbridge_witness.Value.Floats.{Floats}
use xbridge_witness.Session.App.{Server}
use xbridge_witness.Session.Requests.{Requests, ◌>>=◌, ◌>>◌, lift}
use xbridge_witness.Setup.Ports.{Ports, init_ports, CfgType, dog, test, one, two}
use xbridge_witness.Setup.Keypairs.{
  Keypair, MainNetwork, SidechainNetwork, init_main_network, init_sidechain_network,
}
use xbridge_witness.Setup.Stanzas.{XchainAsset, generate_sidechain_stanza, text_of_lines}
use xbridge_witness.Setup.CfgText.{CfgArgs, list_given, sub_dir, cfg_str}

-- The file system: `Path(p).mkdir(parents=True, exist_ok=True)`, and a file that is opened and written.
pub record Disk (W : Type 0) : Type 0 where
  pub make_dir : String → W → Result (Unit {0}) × W
  pub write : String → String → W → Result (Unit {0}) × W

abbrev pub mainnet_validators : String
mainnet_validators = text_of_lines (
    "" ∷ "[validator_list_sites]" ∷ "https://vl.ripple.com" ∷ "" ∷ "[validator_list_keys]"
    ∷ "ED2677ABFFD1B33AC6FBC3062B71F1E8397C1505E1C42C64D11AD1B28FF73F4734" ∷ "" ∷ [])

abbrev pub altnet_validators : String
altnet_validators = text_of_lines (
    "" ∷ "[validator_list_sites]" ∷ "https://vl.altnet.rippletest.net" ∷ ""
    ∷ "[validator_list_keys]" ∷ "ED264807102805220DA0F312E71FC2C69E1552C9C5790F6C25E3729DEB573D5860"
    ∷ "" ∷ [])

-- Lines that each end with a newline
abbrev pub ended : List String → List String
ended [] = "" ∷ []
ended (k ∷ ks) = k ∷ ended ks

-- The text of validators.txt
abbrev pub validators_str : Bool → List String → String
validators_str main_net [] = if main_net then mainnet_validators else altnet_validators
validators_str main_net (k ∷ ks) = text_of_lines ("[validators]" ∷ ended (k ∷ ks))

abbrev pub plain_args : Ports → String → String → CfgArgs
plain_args ports cfg_type data_dir = record {
  ports = ports;
  with_shards = false;
  main_net = true;
  cfg_type = cfg_type;
  sidechain_stanza = "";
  sidechain_bootstrap_stanza = "";
  validation_seed = none;
  validators = none;
  fixed_ips = none;
  data_dir = data_dir;
  full_history = false;
  with_hooks = false;
}

-- `xs[i]`
abbrev pub at {ℓ} : {A : Type ℓ} → List A → ℕ → Result A
at xs i = require index_error (get_elem? xs i)

abbrev pub cfg_type_name : CfgType → String
cfg_type_name dog = "dog"
cfg_type_name test = "test"
cfg_type_name one = "one"
cfg_type_name two = "two"

abbrev pub is_skipped : Bool → CfgType → Bool
is_skipped true t = false
is_skipped false dog = false
is_skipped false test = false
is_skipped false _ = true

module _ {W : Type 0} (disk : Disk W) where
  abbrev pub on_disk : {A : Type 0} → (W → Result A × W) → Requests W A
  on_disk f app w = let (r, v) = f w in (r, app, v)

  unfoldable pub make_dir : String → Requests W (Unit {0})
  make_dir p = on_disk (disk.make_dir p)

  unfoldable pub write_file : String → String → Requests W (Unit {0})
  write_file p text = on_disk (disk.write p text)

  abbrev pub write_bootstrap : String → String → Requests W (Unit {0})
  write_bootstrap dir text =
      if truthy text then write_file (append dir "/sidechain_bootstrap.cfg") text else lift (ok tt)

  -- `generate_cfg_dir`, whose result is the path of the config
  unfoldable pub generate_cfg_dir : CfgArgs → Requests W String
  generate_cfg_dir a = do
    let ips = list_given a.fixed_ips
    let dir = sub_dir a ips
    make_dir dir
    make_dir (append dir "/db")
    make_dir (append dir "/shards")
    write_file (append dir "/validators.txt") (validators_str a.main_net (list_given a.validators))
    write_file (append dir "/rippled.cfg") (cfg_str a ips)
    write_bootstrap dir a.sidechain_bootstrap_stanza
    lift (ok (append dir "/rippled.cfg"))

  module _ (dumps : Value → String) (F : Floats) where
    -- The configs of the main network, from index `i` on
    unfoldable pub main_cfgs : String → List Keypair → ℕ → List Ports → Requests W (List String)
    main_cfgs out_dir validators i [] = lift (ok [])
    main_cfgs out_dir validators i (ports ∷ rest) = do
      pair ← lift (at validators i)
      path ← generate_cfg_dir (record (plain_args ports (append "mainchain_" (show_ℕ i)) out_dir) {
        validation_seed = some pair.secret_key;
      })
      paths ← main_cfgs out_dir validators (i + 1) rest
      lift (ok (path ∷ paths))

    -- `i % n`, which raises for no main server
    abbrev pub modulo : ℕ → ℕ → Result ℕ
    modulo i ℕ.zero = err zero_division_error
    modulo i (ℕ.suc n) = ok (i % ℕ.suc n)

    -- One round of the second loop
    unfoldable pub side_cfg :
        String
        → MainNetwork
        → SidechainNetwork
        → Option (Dict XchainAsset)
        → List String
        → ℕ
        → Ports
        → Requests W (Unit {0})
    side_cfg out_dir main side assets paths i ports = do
      pair ← lift (at side.validator_keypairs i)
      j ← lift (modulo i (length main.ports))
      main_ports ← lift (at main.ports j)
      federator ← lift (at side.federator_keypairs i)
      path ← lift (at paths j)
      stanzas ← lift (
          generate_sidechain_stanza dumps F main_ports side.main_account side.federator_keypairs
            federator.secret_key path assets)
      _ ← generate_cfg_dir (record (plain_args ports (append "sidechain_" (show_ℕ i)) out_dir) {
        sidechain_stanza = stanzas.0;
        sidechain_bootstrap_stanza = stanzas.1;
        validation_seed = some pair.secret_key;
        validators = some (map (λ (k : Keypair). k.public_key) side.validator_keypairs);
        fixed_ips = some side.ports;
        full_history = true;
      })
      lift (ok tt)

    unfoldable pub side_cfgs :
        String
        → MainNetwork
        → SidechainNetwork
        → Option (Dict XchainAsset)
        → List String
        → ℕ
        → List Ports
        → Requests W (Unit {0})
    side_cfgs out_dir main side assets paths i [] = lift (ok tt)
    side_cfgs out_dir main side assets paths i (ports ∷ rest) = do
      side_cfg out_dir main side assets paths i ports
      side_cfgs out_dir main side assets paths (i + 1) rest

    -- `generate_multinode_net`
    unfoldable pub generate_multinode_net :
        String → MainNetwork → SidechainNetwork → Option (Dict XchainAsset) → Requests W (Unit {0})
    generate_multinode_net out_dir main side assets = do
      paths ← main_cfgs out_dir main.validator_keypairs 0 main.ports
      side_cfgs out_dir main side assets paths 0 side.ports

    module _ (server : Server W) where
      -- A round of the loops of `main`, on the index that it starts at
      unfoldable pub standalone_pair :
          String → Option (Dict XchainAsset) → Bool → Bool → CfgType → ℕ → Requests W (Unit {0})
      standalone_pair dir assets with_shards main_net cfg_type index = do
        main ← init_main_network server 1 1 index
        main_ports ← lift (at main.ports 0)
        pair ← lift (at main.validator_keypairs 0)
        path ← generate_cfg_dir (record (plain_args main_ports (cfg_type_name cfg_type) dir) {
          with_shards = with_shards;
          main_net = main_net;
          validation_seed = some pair.secret_key;
        })
        side ← init_sidechain_network server 1 5 1 (index + 1)
        federator ← lift (at side.federator_keypairs 0)
        stanzas ← lift (
            generate_sidechain_stanza dumps F main_ports side.main_account side.federator_keypairs
              federator.secret_key path assets)
        side_ports ← lift (at side.ports 0)
        side_pair ← lift (at side.validator_keypairs 0)
        _ ← generate_cfg_dir (record (plain_args side_ports (cfg_type_name cfg_type) dir) {
          with_shards = with_shards;
          main_net = main_net;
          sidechain_stanza = stanzas.0;
          sidechain_bootstrap_stanza = stanzas.1;
          validation_seed = some side_pair.secret_key;
        })
        lift (ok tt)

      -- The loop over the kinds of configs, whose result is the next index
      unfoldable pub standalone_types :
          String → Option (Dict XchainAsset) → Bool → Bool → List CfgType → ℕ → Requests W ℕ
      standalone_types dir assets with_shards main_net [] index = lift (ok index)
      standalone_types dir assets with_shards main_net (t ∷ ts) index =
          let skipped = standalone_types dir assets with_shards main_net ts index in
          let taken = do
            standalone_pair dir assets with_shards main_net t index
            standalone_types dir assets with_shards main_net ts (index + 2)
          in if is_skipped main_net t then skipped else taken

      abbrev all_types : List CfgType
      all_types = dog ∷ test ∷ one ∷ two ∷ []

      unfoldable pub standalone_nets : String → Option (Dict XchainAsset) → Bool → ℕ → Requests W ℕ
      standalone_nets dir assets with_shards index = do
        next ← standalone_types dir assets with_shards true all_types index
        standalone_types dir assets with_shards false all_types next

      -- The first config that `main` writes, by which it starts the server that makes the keys
      abbrev pub nonvalidator_cfg : String → Requests W String
      nonvalidator_cfg dir = generate_cfg_dir (plain_args (init_ports 0) "non_validator" dir)

      -- What `main` does while that server runs
      unfoldable pub write_networks : String → Option (Dict XchainAsset) → Requests W (Unit {0})
      write_networks dir assets = do
        main ← init_main_network server 1 1 1
        side ← init_sidechain_network server 5 5 5 2
        generate_multinode_net (append dir "/sidechain_testnet") main side assets
        make_dir (append dir "/logs")
        next ← standalone_nets dir assets true 3
        _ ← standalone_nets dir assets false next
        lift (ok tt)
