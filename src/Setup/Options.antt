-- ===== src/Setup/Options.antt =====
-- `class Params` of bin/python/sidechain.py up to the reading of the configs: what the command line and the
-- environment set, and `check_error`.
use xbridge_witness.Base.{
  String, Bool, false, if◌then◌else◌, Option, none, some, ◌&&◌, not, or_else,
}
use xbridge_witness.Base.Text.{truthy}

-- What `parse_args` returns
pub record Args : Type 0 where
  pub debug_sidechain : Bool
  pub debug_mainchain : Bool
  pub debug_witness : Bool
  pub standalone : Bool
  pub with_pauses : Bool
  pub interactive : Bool
  pub quiet : Bool
  pub verbose : Bool
  pub exe_mainchain : Option String
  pub exe_sidechain : Option String
  pub exe_witness : Option String
  pub cfgs_dir : Option String
  pub hooks_dir : Option String

pub record Settings : Type 0 where
  pub debug_sidechain : Bool
  pub debug_mainchain : Bool
  pub debug_witness : Bool
  pub sidechain_rr : Option String
  pub standalone : Bool
  pub with_pauses : Bool
  pub interactive : Bool
  pub quiet : Bool
  pub verbose : Bool
  pub mainchain_exe : Option String
  pub sidechain_exe : Option String
  pub witness_exe : Option String
  pub configs_dir : Option String
  pub hooks_dir : Option String

-- `os.environ`
abbrev pub Environ : Type 0
Environ = String → Option String

-- Python's test of a text or `None`
abbrev pub is_set : Option String → Bool
is_set none = false
is_set (some s) = truthy s

-- An argument that is set comes before the environment.
abbrev pub overridden : Option String → Option String → Option String
overridden env arg = if is_set arg then arg else env

-- `Params.__init__`, with the `configs_dir` that it is given
unfoldable pub init_settings : Args → Environ → Option String → Settings
init_settings args environ configs_dir = record {
  debug_sidechain = args.debug_sidechain;
  debug_mainchain = args.debug_mainchain;
  debug_witness = args.debug_witness;
  sidechain_rr = environ "RIPPLED_SIDECHAIN_RR";
  standalone = args.standalone;
  with_pauses = args.with_pauses;
  interactive = args.interactive;
  quiet = args.quiet;
  verbose = args.verbose;
  mainchain_exe = overridden (environ "RIPPLED_MAINCHAIN_EXE") args.exe_mainchain;
  sidechain_exe = overridden (environ "RIPPLED_SIDECHAIN_EXE") args.exe_sidechain;
  witness_exe = overridden (environ "RIPPLED_WITNESS_EXE") args.exe_witness;
  configs_dir =
      or_else configs_dir (overridden (environ "RIPPLED_SIDECHAIN_CFG_DIR") args.cfgs_dir);
  hooks_dir = overridden (environ "RIPPLED_SIDECHAIN_HOOKS_DIR") args.hooks_dir;
}

abbrev no_mainchain : String
no_mainchain =
    "Missing mainchain_exe location. Either set the env variable RIPPLED_MAINCHAIN_EXE or use the --exe_mainchain command line switch"

abbrev no_sidechain : String
no_sidechain =
    "Missing sidechain_exe location. Either set the env variable RIPPLED_SIDECHAIN_EXE or use the --exe_sidechain command line switch"

abbrev no_configs : String
no_configs =
    "Missing configs directory location. Either set the env variable RIPPLED_SIDECHAIN_CFG_DIR or use the --cfgs_dir command line switch"

abbrev both_set : String
both_set = "Cannot specify both verbose and quiet options at the same time"

-- `Params.check_error`
unfoldable pub check_error : Settings → Option String
check_error s =
    if not (is_set s.mainchain_exe)
    then some no_mainchain
    else (if not (is_set s.sidechain_exe)
        then some no_sidechain
        else (if not (is_set s.configs_dir)
            then some no_configs
            else (if s.verbose && s.quiet then some both_set else none)))
