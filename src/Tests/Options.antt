-- ===== src/Tests/Options.antt =====
-- The settings of the side-chain scripts at concrete inputs.
use xbridge_witness.Base.{String, true, false, Option, none, some, ◌≡◌, refl, is_some}
use xbridge_witness.Setup.Options.{Args, init_settings, check_error}

abbrev args : Args
args = record {
  debug_sidechain = false;
  debug_mainchain = false;
  debug_witness = false;
  standalone = true;
  with_pauses = false;
  interactive = true;
  quiet = false;
  verbose = false;
  exe_mainchain = some "rippled";
  exe_sidechain = some "";
  exe_witness = none;
  cfgs_dir = some "cfgs";
  hooks_dir = none;
}

abbrev environ : String → Option String
environ k = some "env"

-- An empty argument counts as none.
empty_argument_test : (init_settings args environ none).sidechain_exe ≡ some "env"
unfolding init_settings
empty_argument_test = refl

given_dir_test : (init_settings args environ (some "dir")).configs_dir ≡ some "dir"
unfolding init_settings
given_dir_test = refl

check_error_test : check_error (init_settings args environ none) ≡ none
unfolding init_settings check_error
check_error_test = refl

missing_exe_test : is_some (check_error (init_settings args (λ k. none) none)) ≡ true
unfolding init_settings check_error
missing_exe_test = refl
