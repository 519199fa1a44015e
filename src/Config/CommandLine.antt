-- ===== src/Config/CommandLine.antt =====
-- conf.c: the command line.
use curl_loader.Base.{
  ℕ, ◌+◌, Bool, true, false, Option, none, some, List, [], ◌∷◌, Run, ok, fault, ◌>>=◌, ltb, ◌==◌,
  if◌then◌else◌, length, ◌||◌,
}
use curl_loader.Config.Chars.{Text, ℤ, pos, negsuc, atoi, atol, to_int}

-- LOAD_MODE_HYPER, the default, and LOAD_MODE_SMOOTH
abbrev pub load_mode_hyper : ℕ
load_mode_hyper = 0

abbrev pub load_mode_smooth : ℕ
load_mode_smooth = 1

-- PATH_MAX
abbrev pub path_max : ℕ
path_max = 4096

-- The variables of conf.c
pub record Settings : Type 0 where
  pub connect_timeout : ℕ
  pub verbose_logging : ℕ
  pub threads_subbatches_num : ℕ
  pub snapshot_statistics_timeout : ℕ
  pub logfile_rewind_size : ℕ
  pub output_to_stdout : Bool
  pub stderr_print_client_msg : Bool
  pub loading_mode : ℕ
  pub url_logging : Bool
  pub detailed_logging : Bool
  pub warnings_skip : Bool
  pub config_file : Text
  pub config_proxy : Text
  pub error_recovery_client : Bool

abbrev pub default_settings : Settings
default_settings = record {
  connect_timeout = 5;
  verbose_logging = 0;
  threads_subbatches_num = 0;
  snapshot_statistics_timeout = 3;
  logfile_rewind_size = 1024;
  output_to_stdout = false;
  stderr_print_client_msg = false;
  loading_mode = load_mode_hyper;
  url_logging = false;
  detailed_logging = false;
  warnings_skip = false;
  config_file = [];
  config_proxy = [];
  error_recovery_client = true;
}

-- The result 0 with the settings, the result -1, or the end of the program after the help.
pub data Answer : Type 0 where
  accepted : Settings → Answer
  refused helped : Answer

-- A number, which is refused below `least`.
abbrev pub at_least : ℕ → ℤ → (ℕ → Settings) → Run Answer
at_least least (negsuc n) set = ok refused
at_least least (pos n) set = if ltb n least then ok refused else ok (accepted (set n))

-- strcpy to an array of `size` bytes
abbrev pub copy_text : ℕ → Text → Settings → Run Answer
copy_text size text set = if ltb (length text) size then ok (accepted set) else fault

-- An option with an argument
unfoldable pub set_option : Settings → ℕ → Text → Run Answer
set_option s opt optarg =
    let mode : Run Answer = elim (to_int (atol optarg)) [
      | negsuc n ↦ ok refused
      | pos n ↦
          if n == load_mode_smooth || n == load_mode_hyper
          then ok (accepted (record s { loading_mode = n }))
          else ok refused
    ] in
    if opt == b'c'
    then at_least 1 (atoi optarg) (λ n. record s { connect_timeout = n })
    else if opt == b'f'
    then copy_text (path_max + 1) optarg (record s { config_file = optarg })
    else if opt == b'i'
    then at_least 1 (atoi optarg) (λ n. record s { snapshot_statistics_timeout = n })
    else if opt == b'l'
    then at_least 2 (atol optarg) (λ n. record s { logfile_rewind_size = n })
    else if opt == b'm'
    then mode
    else if opt == b't'
    then at_least 2 (atoi optarg) (λ n. record s { threads_subbatches_num = n })
    else if opt == b'x'
    then copy_text path_max optarg (record s { config_proxy = optarg })
    else ok refused

-- An option without one
unfoldable pub set_flag : Settings → ℕ → Answer
set_flag s opt =
    if opt == b'd'
    then accepted (record s { detailed_logging = true })
    else if opt == b'e'
    then accepted (record s { error_recovery_client = false })
    else if opt == b'h'
    then helped
    else if opt == b'o'
    then accepted (record s { output_to_stdout = true })
    else if opt == b'r'
    then accepted s
    else if opt == b's'
    then accepted (record s { stderr_print_client_msg = true })
    else if opt == b'v'
    then accepted (record s { verbose_logging = s.verbose_logging + 1 })
    else if opt == b'u'
    then accepted (record s { url_logging = true })
    else if opt == b'w'
    then accepted (record s { warnings_skip = true })
    else refused

-- `options` are the results of getopt with their optarg, which is there exactly for an option with an
-- argument, and `others` says whether arguments are left that are no options.
unfoldable pub parse_command_line : Settings → List (ℕ × Option Text) → Bool → Run Answer
unfolding set_option set_flag
parse_command_line s [] others = ok (if others then refused else accepted s)
parse_command_line s ((opt, none) ∷ options) others = elim (set_flag s opt) [
  | accepted s' ↦ parse_command_line s' options others
  | refused ↦ ok refused
  | helped ↦ ok helped
]
parse_command_line s ((opt, some optarg) ∷ options) others = set_option s opt optarg >>= λ answer.
    elim answer [
      | accepted s' ↦ parse_command_line s' options others
      | refused ↦ ok refused
      | helped ↦ ok helped
    ]
