-- ===== src/Build/Log/Laws.antt =====
-- The bounds of the dashboard's state over any output of a build.
use expo_builder_local.Prelude.{
  ℕ, zero, suc, ◌≤◌, Bytes, List, [], ◌∷◌, ◌++◌, Bool, true, false, Option, none, some, codes,
  length, length-append, drop, length-drop, ltb, ◌≡◌, ◌≢◌, refl, sym, ◌∙◌, arith, All, All-append,
  if◌then◌else◌, Bool-cases, inl, inr,
}
use expo_builder_local.Exception.{ok}
use expo_builder_local.Doubles.{Doubles}
use expo_builder_local.Lines.Keeps.{feed_all-Returns}
use expo_builder_local.Progress.{Tracker, set_engine, handle_line}
use expo_builder_local.Progress.Laws.{Moves, handle_line-Moves}
use expo_builder_local.Progress.Patterns.{starts_with}
use expo_builder_local.Build.Text.{clean_line}
use expo_builder_local.Build.Text.Laws.{IsShown, clean_line-IsShown}
use expo_builder_local.Build.Log.{
  Log, start, push_capped, Marker, marker_of, engine_marker, artifact_marker, error_marker,
  number_marker, phase_marker, no_marker, apply_marker, set_progress, track, show_clean, show_line,
  log_line, log_stream, is_line_end,
}

-- A line that the dashboard may show: it has text, and no control byte but tabs.
abbrev pub IsShownLine : Bytes → Type 0
IsShownLine line = (line ≢ []) × All IsShown line

-- The bounds of the state of the dashboard: its lines and the buffered lines are few enough and may be
-- shown, and its percentage is the tracker's and is at most 100.
abbrev pub IsBounded : Log → Type 0
IsBounded log =
    (length log.recent_log_lines ≤ 6)
    × (length log.full_log_buffer ≤ 200)
    × All IsShownLine log.recent_log_lines
    × All IsShownLine log.full_log_buffer
    × (log.progress_percent ≡ log.tracker.percent)
    × (log.progress_percent ≤ 100)

All-drop : (P : Bytes → Type 0) (n : ℕ) (xs : List Bytes) → All P xs → All P (drop n xs)
All-drop P zero xs h = h
All-drop P (suc n) [] h = tt
All-drop P (suc n) (x ∷ xs) (hx, h) = All-drop P n xs h

push_capped-bound :
    (cap : ℕ) (line : Bytes) (lines : List Bytes)
    → length lines ≤ cap
    → length (push_capped cap line lines) ≤ cap
unfolding push_capped
push_capped-bound cap line lines h =
    let n = length-append lines (line ∷ []) in
    let d = length-drop 1 (lines ++ line ∷ []) in
    elim (Bool-cases (ltb cap (length (lines ++ line ∷ [])))) [
      | inl e ↦ rw e (omega (arith, n, d, h))
      | inr e ↦ rw e (ground (arith, e))
    ]

push_capped-All :
    (cap : ℕ) (line : Bytes) (lines : List Bytes)
    → IsShownLine line
    → All IsShownLine lines
    → All IsShownLine (push_capped cap line lines)
unfolding push_capped
push_capped-All cap line lines hl h =
    let longer = All-append IsShownLine lines (line ∷ []) h (hl, tt) in
    elim (Bool-cases (ltb cap (length (lines ++ line ∷ [])))) [
      | inl e ↦ rw e (All-drop IsShownLine 1 (lines ++ line ∷ []) longer)
      | inr e ↦ rw e longer
    ]

if-IsBounded : (b : Bool) (r s : Log) → IsBounded r → IsBounded s → IsBounded (if b then r else s)
if-IsBounded true r s h k = h
if-IsBounded false r s h k = k

module _ (fp : Doubles) (want_dashboard : Bool) (app_path : Bytes) where
  apply_marker-IsBounded :
      (m : Marker) (log : Log)
      → IsBounded log
      → IsBounded (apply_marker fp want_dashboard app_path m log)
  unfolding apply_marker set_engine
  apply_marker-IsBounded (engine_marker rest) log h = h
  apply_marker-IsBounded (artifact_marker rest) log h = h
  apply_marker-IsBounded (error_marker rest) log h = h
  apply_marker-IsBounded (number_marker rest) log h = h
  apply_marker-IsBounded (phase_marker rest) log h = if-IsBounded want_dashboard _ log h h
  apply_marker-IsBounded no_marker log h = h

  set_progress-IsBounded :
      (r : Option ℕ × Tracker) (log : Log)
      → Moves log.tracker r
      → IsBounded log
      → IsBounded (set_progress fp want_dashboard app_path r log)
  unfolding set_progress
  set_progress-IsBounded (none, tracker) log m (a, b, c, d, e, f) = (a, b, c, d, e ∙ sym m, f)
  set_progress-IsBounded (some percent, tracker) log (p, q, r) (a, b, c, d, e, f) =
      (a, b, c, d, p, omega (arith, p, r (omega (arith, e, f))))

  track-IsBounded :
      (line : Bytes) (log : Log)
      → IsBounded log
      → IsBounded (track fp want_dashboard app_path line log)
  unfolding track
  track-IsBounded line log h =
      if-IsBounded want_dashboard
        (set_progress fp want_dashboard app_path (handle_line fp line log.tracker) log) log
        (set_progress-IsBounded (handle_line fp line log.tracker) log
          (handle_line-Moves fp line log.tracker) h)
        h

  show_clean-IsBounded :
      (line : Bytes) (log : Log)
      → All IsShown line
      → IsBounded log
      → IsBounded (show_clean fp want_dashboard app_path line log)
  unfolding show_clean
  show_clean-IsBounded [] log hl h = h
  show_clean-IsBounded (x ∷ s) log hl (a, b, c, d, e, f) =
      let shown : IsShownLine (x ∷ s) = ((λ p. cc), hl) in
      (
        push_capped-bound 6 (x ∷ s) log.recent_log_lines a,
        push_capped-bound 200 (x ∷ s) log.full_log_buffer b,
        push_capped-All 6 (x ∷ s) log.recent_log_lines shown c,
        push_capped-All 200 (x ∷ s) log.full_log_buffer shown d,
        e,
        f,
      )

  show_line-IsBounded :
      (line : Bytes) (log : Log)
      → IsBounded log
      → IsBounded (show_line fp want_dashboard app_path line log)
  unfolding show_line
  show_line-IsBounded line log h =
      if-IsBounded want_dashboard (show_clean fp want_dashboard app_path (clean_line line) log)
        (record log { written = log.written ++ (line ++ codes "\n") })
        (show_clean-IsBounded (clean_line line) log (clean_line-IsShown line) h) h

  log_line-IsBounded :
      (line : Bytes) (log : Log)
      → IsBounded log
      → IsBounded (log_line fp want_dashboard app_path line log)
  unfolding log_line
  log_line-IsBounded line log h =
      let tracked =
        track fp want_dashboard app_path line
          (apply_marker fp want_dashboard app_path (marker_of line) log) in
      let k : IsBounded tracked =
        track-IsBounded line _ (apply_marker-IsBounded (marker_of line) log h) in
      if-IsBounded (starts_with (codes "@@") line) tracked
        (show_line fp want_dashboard app_path line tracked) k (show_line-IsBounded line tracked k)

  -- The handler of a build's output returns on every output and every way to cut it into chunks. The
  -- state of the dashboard is then within its bounds: at most 6 lines to show and 200 buffered ones,
  -- none of them empty and none with a control byte but tabs, and the percentage of the tracker, which
  -- is at most 100.
  pub log_stream-IsBounded :
      (chunks : List Bytes)
      → (rest : Bytes) × (log : Log) × (log_stream fp want_dashboard app_path chunks
          ≡ ok (rest, log))
        × IsBounded log
  unfolding log_stream
  log_stream-IsBounded chunks =
      feed_all-Returns is_line_end (λ line log. log_line fp want_dashboard app_path line log)
        IsBounded log_line-IsBounded chunks start
        (omega arith, omega arith, tt, tt, refl, omega arith)
