-- ===== src/Setup/CfgClient.antt =====
-- A client of bin/python/ripple_client.py on a config that bin/python/create_config_files.py writes.
use xbridge_witness.Base.{
  ℕ, ◌+◌, String, Bool, true, false, ◌&&◌, Option, none, some, List, [], ◌∷◌, ◌++◌, ◌≡◌, refl, ◌∙◌,
  ok, ◌>>=◌, ◌=ℕ◌, arith, Bool-cases, inl, inr,
}
use xbridge_witness.Base.Text.{
  append, append-nil, append_assoc, lstrip, split, strip, rstrip, starts_with, truthy,
}
use xbridge_witness.Base.Words.{concat, join}
use xbridge_witness.Base.Decimal.{show_ℕ, IsDigits-show_ℕ}
use xbridge_witness.Base.Dict.{Dict, lookup}
use xbridge_witness.Config.Section.{Section, section_header, get_attr}
use xbridge_witness.Config.File.{parse_file, init_config, get_section}
use xbridge_witness.Config.Render.{Lacks}
use xbridge_witness.Testnet.Network.{Client, init_client}
use xbridge_witness.Setup.Ports.{Ports}
use xbridge_witness.Setup.CfgText.{
  CfgArgs, fixed_lines, public_lines, ips_stanza, seed_stanza, sub_dir, server_lines, port_lines,
  storage_lines, startup_lines, shard_lines, feature_lines, lower_lines, cfg_str,
}
use xbridge_witness.Setup.CfgLines.{
  lines_of, lines_of_all, lines_of-join, split-append, quiet, quiet_lines, quiet_lines-append,
  all_quiet, all_quiet-append, quiet_lines-lines_of_all, quiet_of_line, starts_with-lstrip-append,
  Lacks-append, opens,
}
use xbridge_witness.Setup.CfgRead.{parse_lines-quiet}
use xbridge_witness.Setup.CfgHead.{
  Lacks-newline, admin_section, public_section, head_sections, parse_lines-head, lines_of_all-head,
}

abbrev pub admin_name : String
admin_name = "port_ws_admin_local"

-- What is put into the config does not open the section of the port again, and the directory is a line that
-- does not start with a bracket.
pub record IsPlain (a : CfgArgs) (ips : List Ports) : Type 0 where
  pub dir_line : Lacks b'\n' (sub_dir a ips)
  pub dir_start : starts_with b'[' (lstrip (sub_dir a ips)) ≡ false
  pub seed : quiet admin_name (seed_stanza a.validation_seed) ≡ true
  pub stanza : quiet admin_name a.sidechain_stanza ≡ true

quiet-append : (k s t : String) → quiet k (append s (append "\n" t)) ≡ (quiet k s && quiet k t)
quiet-append k s t = rw (split-append s t) (quiet_lines-append k (lines_of s) (lines_of t))

fixed_line :
    (i p : ℕ) → quiet admin_name (concat ("127.0.0." ∷ show_ℕ i ∷ " " ∷ show_ℕ p ∷ [])) ≡ true
unfolding lstrip concat
fixed_line i p =
    quiet_of_line admin_name _
      (Lacks-append b'\n' "127.0.0." _ (ground arith) (
        Lacks-append b'\n' (show_ℕ i) _ (Lacks-newline (show_ℕ i) (IsDigits-show_ℕ i)) (
          Lacks-append b'\n' " " _ (ground arith)
            (Lacks-append b'\n' (show_ℕ p) "" (Lacks-newline (show_ℕ p) (IsDigits-show_ℕ p)) tt))))
      refl

fixed_line_parts :
    (i p : ℕ) (rest : String)
    → concat ("127.0.0." ∷ show_ℕ i ∷ " " ∷ show_ℕ p ∷ "\n" ∷ rest ∷ [])
      ≡ append (concat ("127.0.0." ∷ show_ℕ i ∷ " " ∷ show_ℕ p ∷ [])) (append "\n" rest)
unfolding concat
fixed_line_parts i p rest = simp (append_assoc, append-nil)

quiet-fixed_lines : (own i : ℕ) (ps : List Ports) → quiet admin_name (fixed_lines own i ps) ≡ true
unfolding fixed_lines
quiet-fixed_lines own i [] =
    unfold quiet_lines split opens strip lstrip rstrip section_header in refl
quiet-fixed_lines own i (p ∷ ps) = elim (Bool-cases (p.peer_port =ℕ own)) [
  | inl e ↦ rw e (quiet-fixed_lines own (i + 1) ps)
  | inr e ↦
      rw
        (
          e,
          fixed_line_parts (i + 1) p.peer_port (fixed_lines own (i + 1) ps),
          quiet-append admin_name _ (fixed_lines own (i + 1) ps),
          fixed_line (i + 1) p.peer_port,
        )
        (quiet-fixed_lines own (i + 1) ps)
]

quiet-public_lines : (b : Bool) → quiet admin_name (public_lines b) ≡ true
unfolding quiet_lines split opens strip lstrip rstrip section_header join
quiet-public_lines true = refl
quiet-public_lines false = refl

quiet-ips_stanza : (a : CfgArgs) (ips : List Ports) → quiet admin_name (ips_stanza a ips) ≡ true
unfolding join
quiet-ips_stanza a [] = quiet-public_lines a.main_net
quiet-ips_stanza a (p ∷ ps) =
    quiet-append admin_name "# Fixed ips for a testnet.\n[ips_fixed]"
      (fixed_lines a.ports.peer_port 0 (p ∷ ps))
    ∙ rw (quiet-fixed_lines a.ports.peer_port 0 (p ∷ ps))
        (unfold quiet_lines split opens strip lstrip rstrip section_header in refl)

module _ (dir : String) (line : Lacks b'\n' dir)
    (start : starts_with b'[' (lstrip dir) ≡ false) where
  path_line :
      (pre post : String)
      → Lacks b'\n' pre
      → Lacks b'\n' post
      → starts_with b'[' (lstrip pre) ≡ false
      → starts_with b'[' (lstrip post) ≡ false
      → quiet admin_name (append pre (append dir post)) ≡ true
  path_line pre post l m s t =
      quiet_of_line admin_name _ (Lacks-append b'\n' pre _ l (Lacks-append b'\n' dir post line m))
        (starts_with-lstrip-append pre _ s (starts_with-lstrip-append dir post start t))

  node_db_line : quiet admin_name (concat ("path=" ∷ dir ∷ "/db/nudb" ∷ [])) ≡ true
  unfolding lstrip concat
  node_db_line = path_line "path=" "/db/nudb" (ground arith) (ground arith) refl refl

  db_line : quiet admin_name (append dir "/db") ≡ true
  unfolding lstrip
  db_line = path_line "" "/db" tt (ground arith) refl refl

  log_line : quiet admin_name (append dir "/debug.log") ≡ true
  unfolding lstrip
  log_line = path_line "" "/debug.log" tt (ground arith) refl refl

  all_quiet-storage_lines :
      (full is_sidechain : Bool) → all_quiet admin_name (storage_lines full is_sidechain dir) ≡ true
  unfolding all_quiet
  all_quiet-storage_lines true true =
      rw (node_db_line, db_line, log_line)
        (unfold quiet_lines opens strip lstrip rstrip section_header split in refl)
  all_quiet-storage_lines true false =
      rw (node_db_line, db_line, log_line)
        (unfold quiet_lines opens strip lstrip rstrip section_header split in refl)
  all_quiet-storage_lines false true =
      rw (node_db_line, db_line, log_line)
        (unfold quiet_lines opens strip lstrip rstrip section_header split in refl)
  all_quiet-storage_lines false false =
      rw (node_db_line, db_line, log_line)
        (unfold quiet_lines opens strip lstrip rstrip section_header split in refl)

  shard_path : quiet admin_name (concat ("" ∷ "path=" ∷ dir ∷ "/shards" ∷ [])) ≡ true
  unfolding lstrip concat
  shard_path = path_line "path=" "/shards" (ground arith) (ground arith) refl refl

  no_shard_path : quiet admin_name (concat ("# " ∷ "path=" ∷ dir ∷ "/shards" ∷ [])) ≡ true
  unfolding lstrip concat
  no_shard_path = path_line "# path=" "/shards" (ground arith) (ground arith) refl refl

  all_quiet-shard_lines : (shards : Bool) → all_quiet admin_name (shard_lines shards dir) ≡ true
  unfolding all_quiet
  all_quiet-shard_lines true =
      rw shard_path (unfold quiet_lines opens strip lstrip rstrip section_header split in refl)
  all_quiet-shard_lines false =
      rw no_shard_path (unfold quiet_lines opens strip lstrip rstrip section_header split in refl)

all_quiet-startup_lines : all_quiet admin_name startup_lines ≡ true
unfolding all_quiet quiet_lines opens strip lstrip rstrip section_header split
all_quiet-startup_lines = refl

all_quiet-feature_lines : (hooks : Bool) → all_quiet admin_name (feature_lines hooks) ≡ true
unfolding all_quiet quiet_lines opens strip lstrip rstrip section_header split
all_quiet-feature_lines true = refl
all_quiet-feature_lines false = refl

all_quiet-lower_lines :
    (a : CfgArgs) (ips : List Ports)
    → IsPlain a ips
    → all_quiet admin_name (lower_lines a ips) ≡ true
unfolding all_quiet
all_quiet-lower_lines a ips h =
    rw
      (
        all_quiet-append admin_name
            (storage_lines a.full_history (truthy a.sidechain_stanza) (sub_dir a ips)) _,
        all_quiet-storage_lines (sub_dir a ips) h.dir_line h.dir_start a.full_history
            (truthy a.sidechain_stanza),
        quiet-ips_stanza a ips,
        all_quiet-append admin_name startup_lines _,
        all_quiet-startup_lines,
        h.seed,
        all_quiet-append admin_name (shard_lines a.with_shards (sub_dir a ips)) _,
        all_quiet-shard_lines (sub_dir a ips) h.dir_line h.dir_start a.with_shards,
        h.stanza,
      )
      (all_quiet-feature_lines a.with_hooks)

lines_of-cfg_str :
    (a : CfgArgs) (ips : List Ports)
    → lines_of (cfg_str a ips)
      ≡ server_lines ++ (port_lines a.ports ++ lines_of_all (lower_lines a ips))
unfolding cfg_str
lines_of-cfg_str a ips = lines_of-join "" _ ∙ lines_of_all-head a.ports (lower_lines a ips)

-- The parser returns, with the section of the port as it was written.
parse_file-cfg_str :
    (file : String) (a : CfgArgs) (ips : List Ports)
    → IsPlain a ips
    → (d : Dict Section) × (parse_file file (lines_of (cfg_str a ips)) ≡ ok d)
      × (lookup admin_name d ≡ some (admin_section a.ports))
unfolding parse_file lookup
parse_file-cfg_str file a ips h =
    let (d, e, kept) =
      parse_lines-quiet file admin_name (lines_of_all (lower_lines a ips)) 32
        (head_sections a.ports) (public_section a.ports) refl
        (quiet_lines-lines_of_all admin_name (lower_lines a ips) ∙ all_quiet-lower_lines a ips h) in
    (
      d,
      rw (lines_of-cfg_str a ips, parse_lines-head file a.ports (lines_of_all (lower_lines a ips)))
          e,
      kept,
    )

abbrev local_client : String → String → Option String → Dict Section → Ports → Client
local_client file exe log d p = record {
  config = record { file_name = some file; sections = d };
  exe = exe;
  command_log = log;
  websocket_uri = append "ws://127.0.0.1:" (show_ℕ p.ws_admin_port);
  pid = none;
}

-- A client that is made from the config file that generate_cfg_dir writes connects to the admin port of that
-- config on this machine: the parser and the constructor return, where the file has a name, the directory is a
-- line that does not start with a bracket, and neither the seed nor the side chain's stanza has a line that
-- opens the section of that port again.
pub init_client-cfg_str :
    (file exe : String) (log : Option String) (a : CfgArgs) (ips : List Ports)
    → truthy file ≡ true
    → IsPlain a ips
    → (c : Client) × ((init_config (some file) (lines_of (cfg_str a ips)) >>= λ config.
          init_client exe config log)
        ≡ ok c)
      × (c.websocket_uri ≡ append "ws://127.0.0.1:" (show_ℕ a.ports.ws_admin_port))
      × (c.exe ≡ exe)
unfolding init_config init_client get_section get_attr lookup
init_client-cfg_str file exe log a ips t h =
    let (d, e, kept) = parse_file-cfg_str file a ips h in
    (local_client file exe log d a.ports, rw (t, e, kept) refl, refl, refl)
