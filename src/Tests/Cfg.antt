-- ===== src/Tests/Cfg.antt =====
-- The files of the configuration writer at concrete inputs.
use xbridge_witness.Base.{true, false, none, some, [], ◌∷◌, ◌≡◌, refl, ok, ◌>>=◌, arith}
use xbridge_witness.Base.Text.{append, lstrip, rstrip, strip, split}
use xbridge_witness.Base.Words.{concat, join}
use xbridge_witness.Base.Decimal.{show_ℕ}
use xbridge_witness.Config.Section.{section_header}
use xbridge_witness.Config.File.{init_config}
use xbridge_witness.Testnet.Network.{Client, init_client}
use xbridge_witness.Setup.Ports.{init_ports}
use xbridge_witness.Setup.CfgText.{CfgArgs, cfg_str, fixed_lines}
use xbridge_witness.Setup.CfgLines.{lines_of, quiet_lines, opens}
use xbridge_witness.Setup.CfgClient.{IsPlain, init_client-cfg_str}

abbrev side_args : CfgArgs
side_args = record {
  ports = init_ports 2;
  with_shards = false;
  main_net = true;
  cfg_type = "sidechain_0";
  sidechain_stanza = "\n[sidechain]\nsigning_key=s\n";
  sidechain_bootstrap_stanza = "";
  validation_seed = some "ssx";
  validators = some ("nK" ∷ []);
  fixed_ips = some (init_ports 2 ∷ init_ports 3 ∷ []);
  data_dir = "/cfgs";
  full_history = true;
  with_hooks = false;
}

-- The server's own line is left out, and the devices are counted on.
fixed_lines_test : fixed_lines 51237 0 (init_ports 2 ∷ init_ports 3 ∷ []) ≡ "127.0.0.2 51238\n"
unfolding fixed_lines init_ports show_ℕ concat
fixed_lines_test = refl

side_args-IsPlain : IsPlain side_args (init_ports 2 ∷ init_ports 3 ∷ [])
unfolding concat join lstrip rstrip strip split section_header quiet_lines opens
side_args-IsPlain = record { dir_line = ground arith; dir_start = refl; seed = refl; stanza = refl }

init_client-cfg_str_example :
    (c : Client) × ((init_config
          (some "rippled.cfg")
          (lines_of (cfg_str side_args (init_ports 2 ∷ init_ports 3 ∷ [])))
        >>= λ config. init_client "rippled" config none)
      ≡ ok c)
    × (c.websocket_uri ≡ append "ws://127.0.0.1:" (show_ℕ (init_ports 2).ws_admin_port))
    × (c.exe ≡ "rippled")
init_client-cfg_str_example =
    init_client-cfg_str "rippled.cfg" "rippled" none side_args (init_ports 2 ∷ init_ports 3 ∷ [])
      refl side_args-IsPlain
