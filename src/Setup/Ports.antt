-- ===== src/Setup/Ports.antt =====
-- `class Ports` of bin/python/create_config_files.py, and the config indexes that its `main` gives out.
use xbridge_witness.Base.{
  ℕ, ◌+◌, ◌*◌, Bool, true, false, ◌&&◌, not, List, [], ◌∷◌, ◌++◌, if◌then◌else◌,
}

pub record Ports : Type 0 where
  pub peer_port : ℕ
  pub http_admin_port : ℕ
  pub ws_public_port : ℕ
  pub ws_admin_port : ℕ

-- `Ports.__init__`
unfoldable pub init_ports : ℕ → Ports
init_ports cfg_index = record {
  peer_port = 51235 + cfg_index;
  http_admin_port = 5005 + cfg_index;
  ws_public_port = 6005 + 2 * cfg_index;
  ws_admin_port = 6005 + 2 * cfg_index + 1;
}

-- `[Ports(start_cfg_index + i) for i in range(num_nodes)]`, the ports of a `Network`, by their indexes
unfoldable pub network_indexes : ℕ → ℕ → List ℕ
network_indexes ℕ.zero start = []
network_indexes (ℕ.suc num_nodes) start = start ∷ network_indexes num_nodes (start + 1)

-- The kinds of configs that `main` goes through.
pub data CfgType : Type 0 where
  dog test one two : CfgType

abbrev is_shared : CfgType → Bool
is_shared dog = true
is_shared test = true
is_shared _ = false

-- The inner loop of `main`: the indexes of a mainnet and of a sidenet, and the next index.
unfoldable pub cfg_type_indexes : Bool → List CfgType → ℕ → List ℕ × ℕ
unfolding network_indexes
cfg_type_indexes is_main_net [] index = ([], index)
cfg_type_indexes is_main_net (t ∷ ts) index =
    let skipped = cfg_type_indexes is_main_net ts index in
    let (rest, last) = cfg_type_indexes is_main_net ts (index + 2) in
    if not is_main_net && not (is_shared t)
    then skipped
    else (network_indexes 1 index ++ network_indexes 1 (index + 1) ++ rest, last)

abbrev cfg_types : List CfgType
cfg_types = dog ∷ test ∷ one ∷ two ∷ []

-- One value of `with_shards`: mainnet, then testnet.
unfoldable pub net_indexes : ℕ → List ℕ × ℕ
unfolding cfg_type_indexes
net_indexes index =
    let (main_net, next) = cfg_type_indexes true cfg_types index in
    let (test_net, last) = cfg_type_indexes false cfg_types next in (main_net ++ test_net, last)

-- The loops of `main`, from the index that they start at.
unfoldable pub loop_indexes : ℕ → List ℕ
unfolding net_indexes
loop_indexes index = let (shards, next) = net_indexes index in shards ++ (net_indexes next).0

-- The multi-node network: one main server, and five side servers from the next index on.
abbrev pub multinode_indexes : ℕ → List ℕ
multinode_indexes index = network_indexes 1 index ++ network_indexes 5 (index + 1)

-- All indexes that `main` gives out, in order.
unfoldable pub main_indexes : List ℕ
unfolding loop_indexes network_indexes
main_indexes = 0 ∷ (multinode_indexes 1 ++ loop_indexes 3)
