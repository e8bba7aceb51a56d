-- ===== src/Progress/Laws.antt =====
-- What the progress tracker promises over any sequence of lines.
use expo_builder_local.Prelude.{
  ℕ, suc, ◌≤◌, Bytes, List, [], ◌∷◌, Bool, true, false, not, ◌&&◌, ◌==◌, Option, none, some, codes,
  ◌≡◌, refl, ◌∙◌, ap, arith, if◌then◌else◌, Bool-cases, inl, inr, drop, ◌++◌,
}
use expo_builder_local.Prelude.Int.{ℤ, pos}
use expo_builder_local.Exception.{Result, ok, err, stuck}
use expo_builder_local.Doubles.{Doubles}
use expo_builder_local.Decimal.{stoi}
use expo_builder_local.Progress.Patterns.{
  Milestone, milestones, milestone_found, gradle_percent, until_colon, behind,
}
use expo_builder_local.Progress.{
  Tracker, new, set_engine, weights, sum, base_for, index_from, phase_index_of, rounded,
  clamp_advance, advance, enter_phase, report_within, report_gradle, report_eas, report_output,
  handle_other, handle_marked, handle_line,
}

-- What a line does to the percentage: it does not fall and does not pass 100, and it is returned
-- exactly where it was set.
abbrev pub Moves : Tracker → Option ℕ × Tracker → Type 0
Moves before (some percent, after) =
    (percent ≡ after.percent)
    × (before.percent ≤ after.percent)
    × (before.percent ≤ 100 → after.percent ≤ 100)
Moves before (none, after) = after.percent ≡ before.percent

module _ (fp : Doubles) where
  advance-Moves :
      (pct : fp.Double) (before tracker : Tracker)
      → tracker.percent ≡ before.percent
      → Moves before (advance fp pct tracker)
  unfolding advance clamp_advance
  advance-Moves pct before tracker e = (refl, omega (arith, e), λ h. omega (arith, e, h))

  enter_phase-Moves : (o : Option ℕ) (tracker : Tracker) → Moves tracker (enter_phase fp o tracker)
  unfolding enter_phase
  enter_phase-Moves none tracker = refl
  enter_phase-Moves (some index) tracker = advance-Moves _ tracker _ refl

  report_within-Moves :
      (r : Result ℤ) (tracker : Tracker) → Moves tracker (report_within fp r tracker)
  unfolding report_within
  report_within-Moves (ok within) tracker = advance-Moves _ tracker tracker refl
  report_within-Moves (err e) tracker = refl
  report_within-Moves stuck tracker = refl

  report_gradle-Moves :
      (o : Option ℕ) (tracker : Tracker) → Moves tracker (report_gradle fp o tracker)
  unfolding report_gradle
  report_gradle-Moves none tracker = refl
  report_gradle-Moves (some n) tracker = advance-Moves _ tracker tracker refl

  report_eas-Moves :
      (line : Bytes) (i : ℕ) (ms : List Milestone) (tracker : Tracker)
      → Moves tracker (report_eas fp line i ms tracker)
  unfolding report_eas
  report_eas-Moves line i [] tracker = refl
  report_eas-Moves line i (m ∷ ms) tracker = elim (Bool-cases (milestone_found line m.pattern)) [
    | inl e ↦ rw e (advance-Moves _ tracker _ refl)
    | inr e ↦ rw e (report_eas-Moves line (suc i) ms tracker)
  ]

  if-Moves :
      (b : Bool) (before : Tracker) (r s : Option ℕ × Tracker)
      → Moves before r
      → Moves before s
      → Moves before (if b then r else s)
  if-Moves true before r s h k = h
  if-Moves false before r s h k = k

  report_output-Moves :
      (line : Bytes) (tracker : Tracker) → Moves tracker (report_output fp line tracker)
  unfolding report_output
  report_output-Moves line tracker =
      let left = drop tracker.milestone milestones in
      let eas = report_eas fp line tracker.milestone left tracker in
      let in_eas = tracker.is_eas && tracker.phase_index == 5 in
      if-Moves (not tracker.is_eas && tracker.phase_index == 4) tracker
        (report_gradle fp (gradle_percent line) tracker) (if in_eas then eas else (none, tracker))
        (report_gradle-Moves (gradle_percent line) tracker)
        (if-Moves in_eas tracker eas (none, tracker)
          (report_eas-Moves line tracker.milestone left tracker) refl)

  handle_marked-Moves :
      (line : Bytes) (phase progress : Option Bytes) (tracker : Tracker)
      → Moves tracker (handle_marked fp line phase progress tracker)
  unfolding handle_marked handle_other
  handle_marked-Moves line (some rest) progress tracker = enter_phase-Moves _ tracker
  handle_marked-Moves line none (some rest) tracker = report_within-Moves (stoi rest) tracker
  handle_marked-Moves line none none tracker = report_output-Moves line tracker

  -- No line makes the percentage fall or pass 100, whatever the arithmetic on doubles gives, and
  -- `handleLine` returns a number exactly where it sets the percentage, which is that number.
  pub handle_line-Moves :
      (line : Bytes) (tracker : Tracker) → Moves tracker (handle_line fp line tracker)
  unfolding handle_line
  handle_line-Moves line tracker = handle_marked-Moves line _ _ tracker

  -- The lines of a build, with the changes of the engine among them.
  pub data Event : Type 0 where
    line : Bytes → Event
    engine : Bytes → Event

  abbrev pub step : Event → Tracker → Tracker
  step (line s) tracker = (handle_line fp s tracker).1
  step (engine s) tracker = set_engine s tracker

  abbrev pub run : List Event → Tracker → Tracker
  run [] tracker = tracker
  run (event ∷ events) tracker = run events (step event tracker)

  moved :
      (before : Tracker) (r : Option ℕ × Tracker)
      → Moves before r
      → (before.percent ≤ r.1.percent) × (before.percent ≤ 100 → r.1.percent ≤ 100)
  moved before (some percent, after) (h, k, l) = (k, l)
  moved before (none, after) h = (omega (arith, h), λ l. omega (arith, h, l))

  step_moved :
      (event : Event) (tracker : Tracker)
      → (tracker.percent ≤ (step event tracker).percent)
        × (tracker.percent ≤ 100 → (step event tracker).percent ≤ 100)
  unfolding set_engine
  step_moved (line s) tracker = moved tracker _ (handle_line-Moves s tracker)
  step_moved (engine s) tracker = (omega arith, λ h. h)

  pub run_bounds :
      (events : List Event) (tracker : Tracker)
      → tracker.percent ≤ 100
      → (tracker.percent ≤ (run events tracker).percent) × ((run events tracker).percent ≤ 100)
  run_bounds [] tracker h = (omega arith, h)
  run_bounds (event ∷ events) tracker h =
      let (k, l) = step_moved event tracker in
      let (m, n) = run_bounds events (step event tracker) (l h) in (omega (arith, k, m), n)

  -- Rounding a whole number up to 100 gives that number back: the sum with a half is exact.
  abbrev pub RoundsWhole : Type 0
  RoundsWhole = (n : ℕ) → n ≤ 100 → rounded fp (fp.of_int (pos n)) ≡ pos n

  at_done : (is_eas : Bool) → base_for is_eas 7 ≡ 100
  unfolding base_for weights sum
  at_done true = refl
  at_done false = refl

  -- The marker of the last phase.
  abbrev pub done_marker : Bytes → Event
  done_marker label = line (codes "@@PHASE:done:" ++ label)

  done_step :
      (label : Bytes) (tracker : Tracker)
      → (step (done_marker label) tracker).percent
        ≡ clamp_advance fp (fp.of_int (pos (base_for tracker.is_eas 7))) tracker.percent
  unfolding handle_line behind handle_marked until_colon phase_index_of index_from enter_phase
      advance
  done_step label tracker = refl

  done_percent :
      RoundsWhole
      → (label : Bytes) (tracker : Tracker) → tracker.percent ≤ 100
      → (step (done_marker label) tracker).percent ≡ 100
  unfolding clamp_advance
  done_percent rounds label tracker h =
      let e : rounded fp (fp.of_int (pos (base_for tracker.is_eas 7))) ≡ pos 100 =
        ap (λ n. rounded fp (fp.of_int (pos n))) (at_done tracker.is_eas)
        ∙ rounds 100 (omega arith) in
      done_step label tracker ∙ rw e (omega (arith, h))

  run-append :
      (front events : List Event) (tracker : Tracker)
      → run (front ++ events) tracker ≡ run events (run front tracker)
  run-append [] events tracker = refl
  run-append (event ∷ front) events tracker = run-append front events (step event tracker)

  -- A build that has begun its last phase is at 100 percent, whatever lines and whatever engine came
  -- before the marker and whatever follow it, if rounding gives whole numbers up to 100 back.
  pub run-done :
      RoundsWhole
      → (front events : List Event) (label : Bytes)
      → (run (front ++ done_marker label ∷ events) new).percent ≡ 100
  run-done rounds front events label =
      let before = run front new in
      let at_front = run_bounds front new (omega arith) in
      let reached = done_percent rounds label before at_front.1 in
      let after = step (done_marker label) before in
      let bounds = run_bounds events after (omega (arith, reached)) in
      rw (run-append front (done_marker label ∷ events) new)
        (omega (arith, reached, bounds.0, bounds.1))
