-- ===== src/Build/Run.antt =====
-- `ensureRunnerImage` and the part of `runBuild` in cli-cpp-legacy/src/commands/build.cpp that uses
-- Docker. The output of the container, the Ctrl-C of the user and the clock are arguments.
pub mod Summary
pub mod Laws
use expo_builder_local.Prelude.{
  ℕ, Bytes, List, [], ◌∷◌, ◌++◌, Bool, true, false, not, ◌&&◌, ◌⊎◌, inl, inr, Option, none, some,
  codes, text, take, if◌then◌else◌,
}
use expo_builder_local.Prelude.Int.{ℤ, pos, negsuc}
use expo_builder_local.Exception.{Exception, Result, ok, err, runtime_error}
use expo_builder_local.Steps.{Step, ◌>>=◌, ret, lift, throw, catch}
use expo_builder_local.Decimal.{print_int}
use expo_builder_local.Tar.{Directory}
use expo_builder_local.Config.{is_empty}
use expo_builder_local.Json.Value.{Json, string, boolean, number, object, end}
use expo_builder_local.Docker.Http.{Machine}
use expo_builder_local.Docker.Params.{BuildParams}
use expo_builder_local.Docker.Client.{
  image_exists, find_running_build_container_by_app_path, ensure_volume, create_container,
  start_container, wait_container, remove_container,
}
use expo_builder_local.Docker.Streams.{build_image, pull_image}
use expo_builder_local.Build.Options.{Options}
use expo_builder_local.Build.Log.{Log}
use expo_builder_local.Build.Run.Summary.{
  ArtifactMetrics, summary, cancelled_summary, thrown_result,
}

module _ (machine : Machine) where
  open machine use {World}

  -- The build of the image from the runner's context: the directory that `resolveRunnerContextDir`
  -- finds, with its files, or the exception that it throws.
  unfoldable pub build_locally : Result Directory → Bytes → Step World (Unit {0})
  build_locally context tag = do
    dir ← lift context
    logged ← build_image machine dir tag false
    ret tt

  -- behind a pull that threw
  unfoldable pub use_cached : Result Directory → Bytes → Step World (Unit {0})
  use_cached context tag = do
    cached ← image_exists machine tag
    (if cached then ret tt else build_locally context tag)

  unfoldable pub pull_only : Bytes → Step World (Unit {0})
  pull_only tag = do events ← pull_image machine tag; ret tt

  unfoldable pub ensure_runner_image : Result Directory → Bytes → Step World (Unit {0})
  ensure_runner_image context tag = catch (pull_only tag) (λ e. use_cached context tag)

  -- The throw where a build of the project is running.
  unfoldable pub refuse_second : Bytes → Option Bytes → Step World (Unit {0})
  refuse_second app_path none = ret tt
  refuse_second app_path (some id) = throw (
      runtime_error (
        text "A build for "
        ++ app_path
        ++ text " is already running (container "
        ++ take 12 id
        ++ text "). Wait for it to finish, or stop it with: docker stop "
        ++ id))

  -- From the first request to the container, which is created and not started.
  unfoldable pub launch :
      Options → BuildParams → Bytes → Result Directory → ℕ → ℕ → Step World Bytes
  launch opts params runner_image context build_uid build_gid = do
    running ← find_running_build_container_by_app_path machine params.app_path
    alone ← refuse_second params.app_path running
    image ← ensure_runner_image context runner_image
    gradle ← ensure_volume machine opts.gradle_cache_volume
    npm ← ensure_volume machine opts.npm_cache_volume
    create_container machine params runner_image opts.gradle_cache_volume opts.npm_cache_volume
        build_uid build_gid

  -- The container's run up to its end. With `cancelled` the watcher removes the container while the
  -- main thread waits, and what that throws is only printed.
  unfoldable pub run_container : Bytes → Bool → Step World ℤ
  run_container id cancelled = do
    started ← start_container machine id
    watched ← (if cancelled then catch (remove_container machine id) (λ e. ret tt) else ret tt)
    wait_container machine id

  -- `what` is the text of an exception.
  module _ (what : Exception → Bytes) where
    -- What follows a run that was not cancelled, with the catch of `runBuild`.
    unfoldable pub conclude :
        Options
        → Bytes
        → ℤ
        → Log
        → ℕ
        → Exception ⊎ ArtifactMetrics
        → Step World (ℕ × Json machine.doubles.Double)
    conclude opts id status log duration metrics =
        catch
          (do
            removed ← remove_container machine id
            lift (summary machine.doubles opts status log duration metrics))
          (λ e. lift (thrown_result machine.doubles (what e)))

    -- What follows the creation of the container. An exception of the run is not caught: it ends the
    -- program, since the threads beside it have not been joined.
    unfoldable pub run_launched :
        Options
        → Log
        → Bool
        → ℕ
        → Exception ⊎ ArtifactMetrics
        → Exception ⊎ Bytes
        → Step World (ℕ × Json machine.doubles.Double)
    run_launched opts log cancelled duration metrics (inl e) =
        lift (thrown_result machine.doubles (what e))
    run_launched opts log cancelled duration metrics (inr id) = do
      status ← run_container id cancelled
      (if cancelled
          then lift (cancelled_summary machine.doubles duration)
          else conclude opts id status log duration metrics)

    -- The exit code, and what --json prints.
    unfoldable pub run_docker :
        Options
        → BuildParams
        → Bytes
        → Result Directory
        → ℕ
        → ℕ
        → Log
        → Bool
        → ℕ
        → Exception ⊎ ArtifactMetrics
        → Step World (ℕ × Json machine.doubles.Double)
    run_docker opts params runner_image context build_uid build_gid log cancelled duration metrics =
        do
          launched ←
              catch
                (do id ← launch opts params runner_image context build_uid build_gid; ret (inr id))
                (λ e. ret (inl e))
          run_launched opts log cancelled duration metrics launched
