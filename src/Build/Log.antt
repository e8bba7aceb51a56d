-- ===== src/Build/Log.antt =====
-- The handler `onChunk` of `runBuild` in cli-cpp-legacy/src/commands/build.cpp, and the state that it
-- changes.
pub mod Laws
use expo_builder_local.Prelude.{
  ℕ, ◌++◌, Bytes, List, [], ◌∷◌, Bool, true, false, ◌||◌, ◌==◌, Option, none, some, codes, length,
  drop, ltb, if◌then◌else◌,
}
use expo_builder_local.Exception.{Result, ok}
use expo_builder_local.Doubles.{Doubles}
use expo_builder_local.Lines.{feed_all}
use expo_builder_local.Config.{is_empty}
use expo_builder_local.Progress.Patterns.{behind, starts_with, until_colon}
use expo_builder_local.Progress.{Tracker, new, set_engine, handle_line}
use expo_builder_local.Build.Text.{to_host_artifact_path, clean_line}

-- The variables of `runBuild` that the handler changes, those of `statusState` among them, and what it
-- writes to the log.
pub record Log : Type 0 where
  pub resolved_engine : Bytes
  pub artifact_path : Bytes
  pub error_message : Bytes
  pub build_number : Bytes
  pub phase_id : Bytes
  pub phase_label : Bytes
  pub progress_percent : ℕ
  pub recent_log_lines : List Bytes
  pub full_log_buffer : List Bytes
  pub tracker : Tracker
  pub written : Bytes

abbrev pub start : Log
start = record {
  resolved_engine = [];
  artifact_path = [];
  error_message = [];
  build_number = [];
  phase_id = codes "setup";
  phase_label = codes "Starting...";
  progress_percent = 0;
  recent_log_lines = [];
  full_log_buffer = [];
  tracker = new;
  written = [];
}

-- The two limits, kRecentLogLineCap and kFullLogLineCap.
abbrev pub recent_log_line_cap : ℕ
recent_log_line_cap = 6

abbrev pub full_log_line_cap : ℕ
full_log_line_cap = 200

-- push_back, and pop_front where there are too many
unfoldable pub push_capped : ℕ → Bytes → List Bytes → List Bytes
push_capped cap line lines =
    let longer = lines ++ line ∷ [] in if ltb cap (length longer) then drop 1 longer else longer

unfoldable pub is_line_end : ℕ → Bool
is_line_end c = c == b'\r' || c == b'\n'

-- The text behind the first ':', or none of it.
unfoldable pub behind_colon : Bytes → Bytes
behind_colon [] = []
behind_colon (c ∷ s) = let rest = behind_colon s in if c == b':' then s else rest

-- A line by the markers that the handler looks for, with the text behind the marker.
pub data Marker : Type 0 where
  engine_marker artifact_marker error_marker number_marker phase_marker : Bytes → Marker
  no_marker : Marker

unfoldable pub or_marker : Option Bytes → (Bytes → Marker) → Marker → Marker
or_marker (some rest) make later = make rest
or_marker none make later = later

unfoldable pub marker_of : Bytes → Marker
marker_of line = or_marker (behind (codes "@@ENGINE:") line) engine_marker (
    or_marker (behind (codes "@@ARTIFACT:") line) artifact_marker (
      or_marker (behind (codes "@@ERROR:") line) error_marker (
        or_marker (behind (codes "@@BUILD_NUMBER:") line) number_marker
          (or_marker (behind (codes "@@PHASE:") line) phase_marker no_marker))))

module _ (fp : Doubles) (want_dashboard : Bool) (app_path : Bytes) where
  unfoldable pub apply_marker : Marker → Log → Log
  apply_marker (engine_marker rest) log = record log {
    resolved_engine = rest;
    tracker = set_engine rest log.tracker;
  }
  apply_marker (artifact_marker rest) log = record log {
    artifact_path = to_host_artifact_path app_path rest;
  }
  apply_marker (error_marker rest) log = record log { error_message = rest }
  apply_marker (number_marker rest) log = record log { build_number = rest }
  apply_marker (phase_marker rest) log =
      if want_dashboard
      then record log { phase_id = until_colon rest; phase_label = behind_colon rest }
      else log
  apply_marker no_marker log = log

  unfoldable pub set_progress : Option ℕ × Tracker → Log → Log
  set_progress (none, tracker) log = record log { tracker = tracker }
  set_progress (some percent, tracker) log = record log {
    tracker = tracker;
    progress_percent = percent;
  }

  -- the tracker is fed with every line
  unfoldable pub track : Bytes → Log → Log
  track line log =
      if want_dashboard then set_progress (handle_line fp line log.tracker) log else log

  unfoldable pub show_clean : Bytes → Log → Log
  show_clean [] log = log
  show_clean (c ∷ s) log = record log {
    recent_log_lines = push_capped recent_log_line_cap (c ∷ s) log.recent_log_lines;
    full_log_buffer = push_capped full_log_line_cap (c ∷ s) log.full_log_buffer;
  }

  unfoldable pub show_line : Bytes → Log → Log
  show_line line log =
      if want_dashboard
      then show_clean (clean_line line) log
      else record log { written = log.written ++ (line ++ codes "\n") }

  -- A round of the loop of the handler: a marker is never shown.
  unfoldable pub log_line : Bytes → Log → Log
  log_line line log =
      let tracked = track line (apply_marker (marker_of line) log) in
      if starts_with (codes "@@") line then tracked else show_line line tracked

  -- the chunks of the container's output
  unfoldable pub log_stream : List Bytes → Result (Bytes × Log)
  log_stream chunks = feed_all is_line_end (λ line log. ok (log_line line log)) chunks ([], start)
