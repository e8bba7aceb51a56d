-- ===== src/Build/Resolve.antt =====
-- The part of `runBuild` in cli-cpp-legacy/src/commands/build.cpp in front of Docker: the checks of the
-- options, the profile, the Expo token and the parameters of the build.
pub mod Laws
use expo_builder_local.Prelude.{
  ℕ, Bytes, List, [], ◌∷◌, ◌++◌, Bool, true, false, not, ◌&&◌, ◌||◌, ◌==◌, bytes_eq, Option, none,
  some, codes, text, if◌then◌else◌,
}
use expo_builder_local.Config.{EblConfig, default_config, is_empty, expo_token_for}
use expo_builder_local.Detect.{ExpoProjectInfo}
use expo_builder_local.Docker.Params.{BuildParams, KeystoreConfig}
use expo_builder_local.Build.Options.{Options}
use expo_builder_local.Build.Wizard.{value_or, default_artifact, is_yes, run_build_wizard}
use expo_builder_local.Build.Console.{Console, or_default}

-- What the command finds: the terminal, the files, the environment and the configuration.
pub record Setting : Type 0 where
  -- color::enabled and color::stdinIsTty
  pub color_enabled : Bool
  pub stdin_is_tty : Bool
  -- the absolute path of the project, and whether it is a directory
  pub app_path : Bytes
  pub is_directory : Bool
  pub project : ExpoProjectInfo
  -- fs::exists, fs::absolute and filename of a path
  pub exists : Bytes → Bool
  pub absolute : Bytes → Bytes
  pub filename : Bytes → Bytes
  -- whether the project has an eas.json
  pub has_eas_json : Bool
  pub getenv : Bytes → Option Bytes
  -- the text of the project's .ebl-token
  pub token_file : Option Bytes
  pub saved_config : Option EblConfig

-- `runnerImage` of a configuration, which is the same for all
abbrev pub default_runner_image : Bytes
default_runner_image = codes "41vi4p/expo-builder-local-runner:latest"

-- The first of the checks that fails gives the message of `fail`, with the exit code 2.
unfoldable pub usage_error : Options → Setting → Option Bytes
usage_error opts setting =
    if opts.tui && opts.json
    then some
        (text "--tui and --json can't be used together - both need exclusive control of stdout.")
    else if opts.tui && (not setting.color_enabled || not setting.stdin_is_tty)
    then some
        (text "--tui needs a real terminal on both stdin and stdout - neither is piped/redirected.")
    else if not setting.is_directory
    then some (text "Not a directory: " ++ setting.app_path)
    else if not setting.project.is_expo_project
    then some
        (setting.app_path ++ text " doesn't look like an Expo project: " ++ setting.project.reason)
    else none

unfoldable pub is_artifact : Bytes → Bool
is_artifact artifact = bytes_eq artifact (codes "apk") || bytes_eq artifact (codes "aab")

unfoldable pub is_engine : Bytes → Bool
is_engine engine =
    bytes_eq engine (codes "auto")
    || bytes_eq engine (codes "gradle")
    || bytes_eq engine (codes "eas")

unfoldable pub missing_keystore : (Bytes → Bool) → Option Bytes → Option Bytes
missing_keystore exists none = none
missing_keystore exists (some path) = if exists path then none else some path

unfoldable pub keystore_error : Setting → Option Bytes → Option Bytes
keystore_error setting none = none
keystore_error setting (some path) = some (text "Keystore not found: " ++ setting.absolute path)

abbrev pub is_given : Option Bytes → Bool
is_given none = false
is_given (some s) = true

unfoldable pub option_error : Options → Setting → Option Bytes
option_error opts setting =
    if not (is_artifact (default_artifact opts))
    then some
        (text "--artifact must be \"apk\" or \"aab\", got \"" ++ default_artifact opts ++ text "\"")
    else if not (is_engine opts.engine)
    then some (
        text "--engine must be \"auto\", \"gradle\", or \"eas\", got \""
        ++ opts.engine
        ++ text "\"")
    else if opts.release && not (is_given opts.keystore)
    then some (text "--release requires --keystore <path>")
    else keystore_error setting (missing_keystore setting.exists opts.keystore)

unfoldable pub has_item : Bytes → List Bytes → Bool
has_item item [] = false
has_item item (x ∷ xs) = bytes_eq x item || has_item item xs

-- `hasPreview || easProfiles.empty() ? "preview" : easProfiles.front()`
unfoldable pub first_profile : List Bytes → Bytes
first_profile [] = codes "preview"
first_profile (p ∷ ps) = if has_item (codes "preview") (p ∷ ps) then codes "preview" else p

unfoldable pub select_profile : Options → List Bytes → Bytes
select_profile opts eas_profiles =
    value_or (if opts.prod then codes "production" else first_profile eas_profiles) opts.profile

unfoldable pub is_line_space : ℕ → Bool
is_line_space c = c == b'\n' || c == b'\r' || c == b' '

unfoldable pub push_unless_space : ℕ → Bytes → Bytes
push_unless_space c [] = if is_line_space c then [] else c ∷ []
push_unless_space c (d ∷ s) = c ∷ d ∷ s

-- the loop with pop_back
unfoldable pub trim_end : Bytes → Bytes
trim_end [] = []
trim_end (c ∷ s) = push_unless_space c (trim_end s)

unfoldable pub non_empty : Bytes → Option Bytes
non_empty [] = none
non_empty (c ∷ s) = some (c ∷ s)

-- `readProjectTokenFile` of the file's text
unfoldable pub read_project_token_file : Option Bytes → Option Bytes
read_project_token_file none = none
read_project_token_file (some content) = non_empty (trim_end content)

unfoldable pub config_token : Option EblConfig → Bytes → Bytes
config_token none owner = []
config_token (some cfg) owner = expo_token_for cfg owner

-- The flag, the environment, the project's file and the configuration, in this order.
unfoldable pub expo_token : Options → Setting → Bytes
expo_token opts setting =
    value_or
      (value_or
        (value_or (config_token setting.saved_config setting.project.owner)
          (read_project_token_file setting.token_file))
        (setting.getenv (codes "EXPO_TOKEN")))
      opts.expo_token

unfoldable pub engine_needs_token : Options → Setting → Bool
engine_needs_token opts setting =
    bytes_eq opts.engine (codes "eas")
    || (bytes_eq opts.engine (codes "auto") && setting.has_eas_json)

abbrev pub no_keystore : KeystoreConfig
no_keystore = record {
  host_path = [];
  filename = [];
  store_password = [];
  key_alias = [];
  key_password = [];
}

unfoldable pub keystore_of : Options → Setting → Bytes → KeystoreConfig
keystore_of opts setting path = record {
  host_path = setting.absolute path;
  filename = setting.filename path;
  store_password =
      value_or (value_or [] (setting.getenv (codes "EXPO_BUILDER_STORE_PASSWORD")))
        opts.store_password;
  key_alias = value_or [] opts.key_alias;
  key_password =
      value_or (value_or [] (setting.getenv (codes "EXPO_BUILDER_KEY_PASSWORD"))) opts.key_password;
}

-- if (opts.release && opts.keystore)
unfoldable pub with_keystore : Options → Setting → Bool → Option Bytes → BuildParams → BuildParams
with_keystore opts setting true (some path) params = record params {
  has_keystore = true;
  keystore = keystore_of opts setting path;
}
with_keystore opts setting true none params = params
with_keystore opts setting false keystore params = params

-- The parameters of the build with a token.
unfoldable pub build_params : Options → Setting → Bytes → BuildParams
build_params opts setting token = with_keystore opts setting opts.release opts.keystore (record {
  app_path = setting.app_path;
  artifact_type = default_artifact opts;
  profile = select_profile opts setting.project.eas_profiles;
  engine = opts.engine;
  signing_mode = (if opts.release then codes "release" else codes "debug");
  expo_token = token;
  has_keystore = false;
  keystore = no_keystore;
})

-- What `runBuild` has when it comes to Docker, or the exit codes 2 and 130 with which it returns.
pub data Resolved : Type 0 where
  -- `fail` with a message
  refused : Bytes → Resolved
  -- the wizard was cancelled
  cancelled : Resolved
  -- no token was entered
  aborted : Resolved
  -- the parameters of the build, and the token to save to the project's file, where there is one
  ready : BuildParams → Option Bytes → Resolved

module _ (console : Console) where
  open console use {World}

  -- the answer to the question whether to save a token
  unfoldable pub token_to_save : Bytes → Bytes → Option Bytes
  token_to_save answer token = if is_yes answer then some token else none

  unfoldable pub with_entered : Options → Setting → Bytes → World → Resolved × World
  with_entered opts setting [] w = (aborted, w)
  with_entered opts setting (c ∷ s) w =
      let (line, after) = console.read_line w in
      (
        ready (build_params opts setting (c ∷ s))
            (token_to_save (or_default (codes "Y") line) (c ∷ s)),
        after,
      )

  unfoldable pub resolve_token : Options → Setting → Bytes → World → Resolved × World
  resolve_token opts setting token w =
      let (entered, after) = console.read_line w in
      if is_empty token && engine_needs_token opts setting
      then (if opts.json
          then (
            refused (
                text "No Expo token found, but the \""
                ++ opts.engine
                ++ text
                    "\" engine needs one - pass --expo-token or set EXPO_TOKEN (--json never prompts)."),
            w,
          )
          else with_entered opts setting entered after)
      else (ready (build_params opts setting token) none, w)

  unfoldable pub resolve_checked : Options → Setting → Option Bytes → World → Resolved × World
  resolve_checked opts setting (some message) w = (refused message, w)
  resolve_checked opts setting none w = resolve_token opts setting (expo_token opts setting) w

  unfoldable pub resolve_options : Options → Setting → World → Resolved × World
  resolve_options opts setting w = resolve_checked opts setting (option_error opts setting) w

  unfoldable pub after_wizard : Setting → Option Options × World → Resolved × World
  after_wizard setting (none, w) = (cancelled, w)
  after_wizard setting (some opts, w) = resolve_options opts setting w

  unfoldable pub resolve_usage : Options → Setting → Option Bytes → World → Resolved × World
  resolve_usage opts setting (some message) w = (refused message, w)
  resolve_usage opts setting none w =
      if opts.tui
      then after_wizard setting (run_build_wizard console opts setting.project.eas_profiles w)
      else resolve_options opts setting w

  -- `runBuild` from the parsed options up to Docker
  unfoldable pub resolve : Options → Setting → World → Resolved × World
  resolve opts setting w = resolve_usage opts setting (usage_error opts setting) w
