-- ===== src/Setup/CfgText.antt =====
-- `generate_cfg_dir` of bin/python/create_config_files.py: the texts of the files.
use xbridge_witness.Base.{
  ℕ, ◌+◌, String, Bool, true, false, Option, none, some, List, [], ◌∷◌, ◌++◌, ◌=ℕ◌, if◌then◌else◌,
}
use xbridge_witness.Base.Text.{append, truthy}
use xbridge_witness.Base.Words.{concat}
use xbridge_witness.Base.Decimal.{show_ℕ}
use xbridge_witness.Setup.Ports.{Ports}
use xbridge_witness.Setup.Stanzas.{text_of_lines}

-- The keyword arguments.
pub record CfgArgs : Type 0 where
  pub ports : Ports
  pub with_shards : Bool
  pub main_net : Bool
  pub cfg_type : String
  pub sidechain_stanza : String
  pub sidechain_bootstrap_stanza : String
  pub validation_seed : Option String
  pub validators : Option (List String)
  pub fixed_ips : Option (List Ports)
  pub data_dir : String
  pub full_history : Bool
  pub with_hooks : Bool

-- `if xs`, where `xs` may be `None`
abbrev pub list_given {ℓ} : {A : Type ℓ} → Option (List A) → List A
list_given none = []
list_given (some xs) = xs

abbrev pub is_given {ℓ} : {A : Type ℓ} → List A → Bool
is_given [] = false
is_given (x ∷ xs) = true

-- The loop over `enumerate(fixed_ips)`, counted from `i`
unfoldable pub fixed_lines : ℕ → ℕ → List Ports → String
fixed_lines own i [] = ""
fixed_lines own i (p ∷ ps) =
    let rest = fixed_lines own (i + 1) ps in
    if p.peer_port =ℕ own
    then rest
    else concat ("127.0.0." ∷ show_ℕ (i + 1) ∷ " " ∷ show_ℕ p.peer_port ∷ "\n" ∷ rest ∷ [])

abbrev pub public_lines : Bool → String
public_lines main_net = text_of_lines (
    "# Where to find some other servers speaking the Ripple protocol."
    ∷ "[ips]"
    ∷ (if main_net then "r.ripple.com 51235" else "r.altnet.rippletest.net 51235")
    ∷ ""
    ∷ [])

abbrev pub ips_stanza : CfgArgs → List Ports → String
ips_stanza a [] = public_lines a.main_net
ips_stanza a (p ∷ ps) =
    append (text_of_lines ("# Fixed ips for a testnet." ∷ "[ips_fixed]" ∷ "" ∷ []))
      (fixed_lines a.ports.peer_port 0 (p ∷ ps))

abbrev pub seed_stanza : Option String → String
seed_stanza none = ""
seed_stanza (some s) =
    if truthy s then text_of_lines ("" ∷ "[validation_seed]" ∷ s ∷ "        " ∷ []) else ""

-- The directory of the files
abbrev pub sub_dir : CfgArgs → List Ports → String
sub_dir a [] = concat (
    a.data_dir
    ∷ "/"
    ∷ (if a.main_net then "main" else "test")
    ∷ "."
    ∷ (if a.with_shards then "shards" else "no_shards")
    ∷ "."
    ∷ a.cfg_type
    ∷ (if truthy a.sidechain_stanza then ".sidechain" else "")
    ∷ [])
sub_dir a (p ∷ ps) = concat (a.data_dir ∷ "/" ∷ a.cfg_type ∷ [])

abbrev pub server_lines : List String
server_lines =
    "" ∷ "[server]" ∷ "port_rpc_admin_local" ∷ "port_peer" ∷ "port_ws_admin_local"
    ∷ "port_ws_public" ∷ "#ssl_key = /etc/ssl/private/server.key"
    ∷ "#ssl_cert = /etc/ssl/certs/server.crt" ∷ "" ∷ []

abbrev pub port_lines : Ports → List String
port_lines p =
    "[port_rpc_admin_local]"
    ∷ append "port = " (show_ℕ p.http_admin_port)
    ∷ "ip = 127.0.0.1"
    ∷ "admin = 127.0.0.1"
    ∷ "protocol = http"
    ∷ ""
    ∷ "[port_peer]"
    ∷ append "port = " (show_ℕ p.peer_port)
    ∷ "ip = 0.0.0.0"
    ∷ "protocol = peer"
    ∷ ""
    ∷ "[port_ws_admin_local]"
    ∷ append "port = " (show_ℕ p.ws_admin_port)
    ∷ "ip = 127.0.0.1"
    ∷ "admin = 127.0.0.1"
    ∷ "protocol = ws"
    ∷ ""
    ∷ "[port_ws_public]"
    ∷ append "port = " (show_ℕ p.ws_public_port)
    ∷ "ip = 127.0.0.1"
    ∷ "protocol = ws"
    ∷ "# protocol = wss"
    ∷ ""
    ∷ []

abbrev pub storage_lines : Bool → Bool → String → List String
storage_lines full_history is_sidechain dir =
    let disable_delete = if full_history then "#" else "" in
    "[node_size]"
    ∷ "medium"
    ∷ ""
    ∷ "[ledger_history]"
    ∷ (if full_history then "full" else "256")
    ∷ ""
    ∷ "[node_db]"
    ∷ "type=NuDB"
    ∷ concat ("path=" ∷ dir ∷ "/db/nudb" ∷ [])
    ∷ "open_files=2000"
    ∷ "filter_bits=12"
    ∷ "cache_mb=256"
    ∷ "file_size_mb=8"
    ∷ "file_size_mult=2"
    ∷ (if is_sidechain then "earliest_seq=1" else "")
    ∷ append disable_delete "online_delete=256"
    ∷ append disable_delete "advisory_delete=0"
    ∷ ""
    ∷ "[database_path]"
    ∷ append dir "/db"
    ∷ ""
    ∷ "# This needs to be an absolute directory reference, not a relative one."
    ∷ "# Modify this value as required."
    ∷ "[debug_logfile]"
    ∷ append dir "/debug.log"
    ∷ ""
    ∷ "[sntp_servers]"
    ∷ "time.windows.com"
    ∷ "time.apple.com"
    ∷ "time.nist.gov"
    ∷ "pool.ntp.org"
    ∷ ""
    ∷ []

abbrev pub startup_lines : List String
startup_lines =
    "" ∷ "[validators_file]" ∷ "validators.txt" ∷ "" ∷ "[rpc_startup]"
    ∷ "{ \"command\": \"log_level\", \"severity\": \"fatal\" }"
    ∷ "{ \"command\": \"log_level\", \"partition\": \"SidechainFederator\", \"severity\": \"trace\" }"
    ∷ "" ∷ "[ssl_verify]" ∷ "1" ∷ "" ∷ []

abbrev pub shard_lines : Bool → String → List String
shard_lines with_shards dir =
    let disable_shards = if with_shards then "" else "# " in
    ""
    ∷ append disable_shards "[shard_db]"
    ∷ append disable_shards "type=NuDB"
    ∷ concat (disable_shards ∷ "path=" ∷ dir ∷ "/shards" ∷ [])
    ∷ append disable_shards "max_historical_shards=6"
    ∷ ""
    ∷ []

abbrev pub feature_lines : Bool → List String
feature_lines with_hooks =
    ""
    ∷ "[features]"
    ∷ (if with_hooks then "Hooks" else "")
    ∷ "PayChan"
    ∷ "Flow"
    ∷ "FlowCross"
    ∷ "TickSize"
    ∷ "fix1368"
    ∷ "Escrow"
    ∷ "fix1373"
    ∷ "EnforceInvariants"
    ∷ "SortedDirectories"
    ∷ "fix1201"
    ∷ "fix1512"
    ∷ "fix1513"
    ∷ "fix1523"
    ∷ "fix1528"
    ∷ "DepositAuth"
    ∷ "Checks"
    ∷ "fix1571"
    ∷ "fix1543"
    ∷ "fix1623"
    ∷ "DepositPreauth"
    ∷ "fix1515"
    ∷ "fix1578"
    ∷ "MultiSignReserve"
    ∷ "fixTakerDryOfferRemoval"
    ∷ "fixMasterKeyAsRegularKey"
    ∷ "fixCheckThreading"
    ∷ "fixPayChanRecipientOwnerDir"
    ∷ "DeletableAccounts"
    ∷ "fixQualityUpperBound"
    ∷ "RequireFullyCanonicalSig"
    ∷ "fix1781 "
    ∷ "HardenedValidations"
    ∷ "fixAmendmentMajorityCalc"
    ∷ "NegativeUNL"
    ∷ "TicketBatch"
    ∷ "FlowSortStrands"
    ∷ "fixSTAmountCanonicalize"
    ∷ "fixRmSmallIncreasedQOffers"
    ∷ "CheckCashMakesTrustLine"
    ∷ ""
    ∷ []

-- What stands below the ports.
abbrev pub lower_lines : CfgArgs → List Ports → List String
lower_lines a ips =
    storage_lines a.full_history (truthy a.sidechain_stanza) (sub_dir a ips)
    ++ ips_stanza a ips
      ∷ (startup_lines
          ++ seed_stanza a.validation_seed
            ∷ (shard_lines a.with_shards (sub_dir a ips)
                ++ a.sidechain_stanza ∷ feature_lines a.with_hooks))

-- `cfg_str`
unfoldable pub cfg_str : CfgArgs → List Ports → String
cfg_str a ips = text_of_lines (server_lines ++ (port_lines a.ports ++ lower_lines a ips))
