-- ===== src/Build/Run/Summary.antt =====
-- The result of a build: the exit code and the JSON object of --json in `runBuild` of
-- cli-cpp-legacy/src/commands/build.cpp.
use expo_builder_local.Prelude.{
  ℕ, zero, Bytes, ◌++◌, Bool, true, false, not, ◌&&◌, ◌⊎◌, codes, if◌then◌else◌,
}
use expo_builder_local.Prelude.Int.{ℤ, pos}
use expo_builder_local.Exception.{Exception, Result, ok, call, ◌>>=◌}
use expo_builder_local.Doubles.{Doubles}
use expo_builder_local.Decimal.{print_int}
use expo_builder_local.Config.{is_empty}
use expo_builder_local.Json.Value.{Json, string, boolean, number, object, end}
use expo_builder_local.Json.Access.{set}
use expo_builder_local.Build.Options.{Options}
use expo_builder_local.Build.Log.{Log}

-- `ArtifactMetrics` of cli-cpp-legacy/src/metrics.hpp
pub record ArtifactMetrics : Type 0 where
  pub size_bytes : ℕ
  pub version_name : Bytes
  pub version_code : Bytes
  pub application_id : Bytes
  pub git_commit : Bytes
  pub git_branch : Bytes
  pub sha256 : Bytes

unfoldable pub is_zero : ℤ → Bool
is_zero (pos zero) = true
is_zero _ = false

-- the first text, or the second where that is empty
unfoldable pub or_else : Bytes → Bytes → Bytes
or_else s default = if is_empty s then default else s

unfoldable pub final_error : Log → ℤ → Bytes
final_error log status =
    or_else log.error_message (codes "Build process exited with status " ++ print_int status)

module _ (fp : Doubles) where
  abbrev Value : Type 0
  Value = Json fp.Double

  abbrev of_nat : ℕ → Value
  of_nat n = number (fp.of_int (pos n))

  unfoldable pub success_json : Options → Log → ℕ → ArtifactMetrics → Result Value
  success_json opts log duration metrics = do
    j1 ← set (codes "success") (boolean true) (object end)
    j2 ← set (codes "artifactPath") (string log.artifact_path) j1
    j3 ← set (codes "sizeBytes") (of_nat metrics.size_bytes) j2
    j4 ← set (codes "versionName") (string metrics.version_name) j3
    j5 ← set (codes "versionCode") (string metrics.version_code) j4
    j6 ← set (codes "applicationId") (string metrics.application_id) j5
    j7 ← set (codes "engine") (string (or_else log.resolved_engine opts.engine)) j6
    j8 ← set (codes "buildNumber") (string log.build_number) j7
    j9 ← set (codes "durationSeconds") (of_nat duration) j8
    j10 ← set (codes "gitCommit") (string metrics.git_commit) j9
    j11 ← set (codes "gitBranch") (string metrics.git_branch) j10
    set (codes "sha256") (string metrics.sha256) j11

  unfoldable pub failure_json : Bytes → ℕ → Result Value
  failure_json message duration = do
    j1 ← set (codes "success") (boolean false) (object end)
    j2 ← set (codes "error") (string message) j1
    set (codes "durationSeconds") (of_nat duration) j2

  unfoldable pub cancelled_json : ℕ → Result Value
  cancelled_json duration = do
    j1 ← set (codes "success") (boolean false) (object end)
    j2 ← set (codes "cancelled") (boolean true) j1
    set (codes "durationSeconds") (of_nat duration) j2

  unfoldable pub has_succeeded : ℤ → Log → Bool
  has_succeeded status log = is_zero status && not (is_empty log.artifact_path)

  -- 128 + SIGINT
  unfoldable pub cancelled_summary : ℕ → Result (ℕ × Value)
  cancelled_summary duration = do j ← cancelled_json duration; ok (130, j)

  -- the catch around the whole of it: the message of the exception, and exit code 1
  unfoldable pub thrown_result : Bytes → Result (ℕ × Value)
  thrown_result message = do
    j1 ← set (codes "success") (boolean false) (object end)
    j2 ← set (codes "error") (string message) j1
    ok (1, j2)

  -- `metrics` is what `extractArtifactMetrics` throws or returns; it is called for a success only.
  unfoldable pub summary : Options → ℤ → Log → ℕ → Exception ⊎ ArtifactMetrics → Result (ℕ × Value)
  summary opts status log duration metrics =
      let success = (do m ← call metrics; j ← success_json opts log duration m; ok (0, j)) in
      let failure = (do j ← failure_json (final_error log status) duration; ok (1, j)) in
      if has_succeeded status log then success else failure
