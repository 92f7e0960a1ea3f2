-- ===== src/Setup/Keypairs.antt =====
-- The key pairs and the networks of bin/python/create_config_files.py: `Keypair`, `Network` and
-- `SidechainNetwork`, whose keys a server makes.
use xbridge_witness.Base.{ℕ, String, Option, none, some, List, [], ◌∷◌, map, ok}
use xbridge_witness.Value.{Value}
use xbridge_witness.Command.Types.{Body, validation_create, wallet_propose}
use xbridge_witness.Session.App.{Server, call, no_wallet_args, text_item}
use xbridge_witness.Session.Requests.{Requests, ◌>>=◌, lift}
use xbridge_witness.Setup.Ports.{Ports, init_ports, network_indexes}

pub record Keypair : Type 0 where
  pub public_key : String
  pub secret_key : String
  pub account_id : Option String

-- `Network`
pub record MainNetwork : Type 0 where
  pub validator_keypairs : List Keypair
  pub ports : List Ports

pub record SidechainNetwork : Type 0 where
  pub validator_keypairs : List Keypair
  pub ports : List Ports
  pub federator_keypairs : List Keypair
  -- what the server answers with for a new wallet
  pub main_account : Value

-- `[Ports(start_cfg_index + i) for i in range(num_nodes)]`
abbrev pub network_ports : ℕ → ℕ → List Ports
network_ports num_nodes start_cfg_index = map init_ports (network_indexes num_nodes start_cfg_index)

abbrev pub ed25519 : Body
ed25519 = wallet_propose (record no_wallet_args { key_type = some "ed25519" })

abbrev pub secp256k1 : Body
secp256k1 = wallet_propose (record no_wallet_args { key_type = some "secp256k1" })

module _ {W : Type 0} (server : Server W) where
  -- `rip(C(...))`
  unfoldable pub ask_server : Body → Requests W Value
  ask_server b app w = call server b app w

  -- One round of `generate_node_keypairs`
  abbrev pub node_keypair : Requests W Keypair
  node_keypair = do
    keys ← ask_server (validation_create none)
    public ← lift (text_item "validation_public_key" keys)
    secret ← lift (text_item "validation_seed" keys)
    lift (ok (record { public_key = public; secret_key = secret; account_id = none }))

  -- One round of `generate_federator_keypairs`
  abbrev pub federator_keypair : Requests W Keypair
  federator_keypair = do
    keys ← ask_server ed25519
    public ← lift (text_item "public_key" keys)
    secret ← lift (text_item "master_seed" keys)
    id ← lift (text_item "account_id" keys)
    lift (ok (record { public_key = public; secret_key = secret; account_id = some id }))

  -- The loop of both, over `range(n)`
  unfoldable pub generate_keypairs : ℕ → Requests W Keypair → Requests W (List Keypair)
  generate_keypairs ℕ.zero one = lift (ok [])
  generate_keypairs (ℕ.suc n) one = do
    pair ← one
    pairs ← generate_keypairs n one
    lift (ok (pair ∷ pairs))

  abbrev pub generate_node_keypairs : ℕ → Requests W (List Keypair)
  generate_node_keypairs n = generate_keypairs n node_keypair

  abbrev pub generate_federator_keypairs : ℕ → Requests W (List Keypair)
  generate_federator_keypairs n = generate_keypairs n federator_keypair

  -- `Network.__init__`
  unfoldable pub init_main_network : ℕ → ℕ → ℕ → Requests W MainNetwork
  init_main_network num_nodes num_validators start_cfg_index = do
    pairs ← generate_node_keypairs num_validators
    lift (
        ok (record { validator_keypairs = pairs; ports = network_ports num_nodes start_cfg_index }))

  -- `SidechainNetwork.__init__`
  unfoldable pub init_sidechain_network : ℕ → ℕ → ℕ → ℕ → Requests W SidechainNetwork
  init_sidechain_network num_nodes num_federators num_validators start_cfg_index = do
    network ← init_main_network num_nodes num_validators start_cfg_index
    federators ← generate_federator_keypairs num_federators
    account ← ask_server secp256k1
    lift (
        ok (record {
          validator_keypairs = network.validator_keypairs;
          ports = network.ports;
          federator_keypairs = federators;
          main_account = account;
        }))
