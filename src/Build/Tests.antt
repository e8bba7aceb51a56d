-- ===== src/Build/Tests.antt =====
-- Runs of the parts of `ebl build`, and their theorems at work.
use expo_builder_local.Prelude.{
  inr, Bytes, List, [], ◌∷◌, ◌++◌, true, false, none, some, codes, ◌≡◌, refl, All,
}
use expo_builder_local.Prelude.Int.{pos}
use expo_builder_local.Exception.{ok, call}
use expo_builder_local.Lines.{cut, drain, drain_cut, feed, feed_all}
use expo_builder_local.Json.Access.{get, contains, as_string}
use expo_builder_local.Json.Parser.{parse}
use expo_builder_local.Tar.{Directory}
use expo_builder_local.Docker.Client.{remove_container, send_only, send_expecting}
use expo_builder_local.Docker.Single.{State, single}
use expo_builder_local.Docker.Streams.{
  is_newline, pull_handler, pull_image, stream_lines, finish, run_stream, on_pull_line,
  on_pull_event, member_text, pull_progress, detail_number,
}
use expo_builder_local.Build.Run.{ensure_runner_image, pull_only, conclude}
use expo_builder_local.Build.Run.Summary.{ArtifactMetrics}
use expo_builder_local.Build.Run.Laws.{Concludes, conclude-Concludes}
use expo_builder_local.Config.{is_empty}
use expo_builder_local.Json.Integers.{ints}
use expo_builder_local.Decimal.{print_nat}
use expo_builder_local.Detect.{no_info}
use expo_builder_local.Docker.Params.{BuildParams}
use expo_builder_local.Progress.Patterns.{behind}
use expo_builder_local.Build.Options.{Options, default_options}
use expo_builder_local.Build.Text.{
  is_final, is_control, strip_ansi_escapes, to_host_artifact_path, host_path_of, join_path,
  with_slash, format_duration,
}
use expo_builder_local.Build.Text.Laws.{IsShown, strip_ansi_escapes_lem}
use expo_builder_local.Build.Log.{Log, start, log_stream}
use expo_builder_local.Build.Log.Laws.{IsBounded, log_stream-IsBounded}
use expo_builder_local.Build.Console.{Console, or_default}
use expo_builder_local.Build.Wizard.{value_or, default_artifact, is_yes}
use expo_builder_local.Build.Resolve.{
  Setting, ready, usage_error, is_artifact, is_engine, missing_keystore, keystore_error,
  option_error, first_profile, select_profile, read_project_token_file, config_token, expo_token,
  engine_needs_token, with_keystore, build_params, token_to_save, keystore_of, with_entered,
  resolve_token, resolve_checked, resolve_options, resolve_usage, resolve,
}
use expo_builder_local.Build.Resolve.Laws.{IsValid, resolve-IsValid}

spinner :
    strip_ansi_escapes (27 ∷ codes "[1G" ++ codes "ok" ++ 27 ∷ codes "]0;t" ++ 7 ∷ codes "!")
    ≡ codes "ok!"
unfolding strip_ansi_escapes is_final is_control
spinner = refl

host_path :
    to_host_artifact_path (codes "/home/me/app") (codes "/work/app/out/a.apk")
    ≡ codes "/home/me/app/out/a.apk"
unfolding to_host_artifact_path behind host_path_of join_path with_slash
host_path = refl

duration : format_duration 125 ≡ codes "2m 5s"
unfolding format_duration print_nat
duration = refl

strip_ansi_escapes_lem_example :
    All IsShown (strip_ansi_escapes (codes "a\tb"))
    × (All IsShown (codes "a\tb") → strip_ansi_escapes (codes "a\tb") ≡ codes "a\tb")
    × (strip_ansi_escapes (strip_ansi_escapes (codes "a\tb")) ≡ strip_ansi_escapes (codes "a\tb"))
strip_ansi_escapes_lem_example = strip_ansi_escapes_lem (codes "a\tb")

abbrev output : List Bytes
output = codes "@@PHASE:gradle:Building\r\n<=> 5" ∷ codes "0% EXECUTING\n" ∷ []

log_stream-IsBounded_example :
    (rest : Bytes) × (log : Log) × (log_stream ints true (codes "/p") output ≡ ok (rest, log))
    × IsBounded log
log_stream-IsBounded_example = log_stream-IsBounded ints true (codes "/p") output

abbrev read_first : List Bytes → Bytes × List Bytes
read_first [] = ([], [])
read_first (line ∷ lines) = (line, lines)

-- A console with these lines of input, on which every menu is cancelled.
abbrev console : Console
console = record { World = List Bytes; read_line = read_first; choose = λ count first w. (none, w) }

abbrev setting : Setting
setting = record {
  color_enabled = true;
  stdin_is_tty = true;
  app_path = codes "/p";
  is_directory = true;
  project = record no_info { is_expo_project = true };
  exists = λ path. true;
  absolute = λ path. path;
  filename = λ path. path;
  has_eas_json = false;
  getenv = λ name. none;
  token_file = none;
  saved_config = none;
}

abbrev opts : Options
opts = record default_options { release = true; keystore = some (codes "k") }

abbrev params : BuildParams
params = record {
  app_path = codes "/p";
  artifact_type = codes "apk";
  profile = codes "preview";
  engine = codes "eas";
  signing_mode = codes "release";
  expo_token = codes "secret";
  has_keystore = true;
  keystore = record {
    host_path = codes "k";
    filename = codes "k";
    store_password = [];
    key_alias = [];
    key_password = [];
  };
}

resolved : resolve console opts setting (codes "secret" ∷ codes "n" ∷ []) ≡ (ready params none, [])
unfolding resolve resolve_usage usage_error resolve_options option_error is_artifact
    default_artifact value_or is_engine keystore_error missing_keystore resolve_checked expo_token
    config_token read_project_token_file resolve_token is_empty engine_needs_token with_entered
    build_params with_keystore select_profile first_profile token_to_save is_yes or_default
    keystore_of
resolved = refl

resolve-IsValid_example : IsValid setting params
resolve-IsValid_example =
    resolve-IsValid console opts setting (codes "secret" ∷ codes "n" ∷ []) [] params none resolved

abbrev state : State
state = record { present = false; networks = false }

abbrev runner : Directory
runner = record { is_dir = true; root = codes "/r"; entries = [] }

image_run : ensure_runner_image single (ok runner) (codes "r:1") state ≡ (ok tt, state)
unfolding ensure_runner_image pull_only pull_image run_stream stream_lines finish pull_handler
    feed_all feed drain drain_cut cut is_newline on_pull_line on_pull_event member_text
    pull_progress detail_number parse get contains as_string is_empty
image_run = refl

abbrev metrics : ArtifactMetrics
metrics = record {
  size_bytes = 10;
  version_name = [];
  version_code = [];
  application_id = [];
  git_commit = [];
  git_branch = [];
  sha256 = [];
}

abbrev told : Log
told = record start { artifact_path = codes "/p/app.apk" }

removal : remove_container single (codes "c1") state ≡ (call (inr tt), state)
unfolding remove_container send_only send_expecting
removal = refl

conclude-Concludes_example :
    Concludes single
      (λ e. [])
      (pos 0)
      told
      (inr metrics)
      (inr tt)
      (conclude single (λ e. []) opts (codes "c1") (pos 0) told 3 (inr metrics) state)
      state
conclude-Concludes_example =
    conclude-Concludes single (λ e. []) opts (codes "c1") (pos 0) told 3 (inr metrics) (inr tt)
      state state removal
