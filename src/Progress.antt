-- ===== src/Progress.antt =====
-- cli-cpp-legacy/src/build_progress_tracker.cpp: `BuildProgressTracker`.
pub mod Patterns
pub mod Laws
mod Tests
use expo_builder_local.Prelude.{
  ℕ, zero, suc, ◌+◌, min, max, Bytes, List, [], ◌∷◌, Bool, true, false, not, ◌&&◌, ◌==◌, bytes_eq,
  Option, none, some, codes, drop, take, length, if◌then◌else◌,
}
use expo_builder_local.Prelude.Int.{ℤ, pos, pos_part}
use expo_builder_local.Exception.{Result, ok, err, stuck}
use expo_builder_local.Doubles.{Doubles}
use expo_builder_local.Decimal.{stoi}
use expo_builder_local.Progress.Patterns.{
  Milestone, milestones, milestone_found, gradle_percent, until_colon, behind,
}

-- kPhaseOrder
abbrev pub phase_order : List Bytes
phase_order =
    codes "setup"
    ∷ codes "install"
    ∷ codes "prebuild"
    ∷ codes "signing"
    ∷ codes "gradle"
    ∷ codes "eas"
    ∷ codes "collect"
    ∷ codes "done"
    ∷ []

abbrev pub gradle_weights : List ℕ
gradle_weights = 2 ∷ 15 ∷ 10 ∷ 3 ∷ 65 ∷ 0 ∷ 5 ∷ 0 ∷ []

abbrev pub eas_weights : List ℕ
eas_weights = 2 ∷ 15 ∷ 0 ∷ 3 ∷ 0 ∷ 75 ∷ 5 ∷ 0 ∷ []

-- the loop of `phaseIndexOf` from index `i` on; none in the place of -1
unfoldable pub index_from : ℕ → Bytes → List Bytes → Option ℕ
index_from i id [] = none
index_from i id (phase ∷ phases) =
    let later = index_from (suc i) id phases in if bytes_eq id phase then some i else later

unfoldable pub phase_index_of : Bytes → Option ℕ
phase_index_of id = index_from 0 id phase_order

-- The fields of the class; `is_eas` says that engine_ is "eas", and not "gradle". The percentage is
-- not negative.
pub record Tracker : Type 0 where
  pub is_eas : Bool
  pub phase_index : ℕ
  pub percent : ℕ
  pub milestone : ℕ

abbrev pub new : Tracker
new = record { is_eas = false; phase_index = 0; percent = 0; milestone = 0 }

unfoldable pub set_engine : Bytes → Tracker → Tracker
set_engine engine tracker = record tracker { is_eas = bytes_eq engine (codes "eas") }

unfoldable pub weights : Bool → List ℕ
weights is_eas = if is_eas then eas_weights else gradle_weights

unfoldable pub sum : List ℕ → ℕ
sum [] = 0
sum (n ∷ ns) = n + sum ns

unfoldable pub head_or_zero : List ℕ → ℕ
head_or_zero [] = 0
head_or_zero (n ∷ ns) = n

-- `baseForCurrentPhase` and `weightForCurrentPhase`
unfoldable pub base_for : Bool → ℕ → ℕ
base_for is_eas phase_index = sum (take phase_index (weights is_eas))

unfoldable pub weight_for : Bool → ℕ → ℕ
weight_for is_eas phase_index = head_or_zero (drop phase_index (weights is_eas))

module _ (fp : Doubles) where
  open fp use {Double, of_int, to_int, add, mul, div}

  abbrev of_nat : ℕ → Double
  of_nat n = of_int (pos n)

  -- static_cast<int>(pct + 0.5)
  unfoldable pub rounded : Double → ℤ
  rounded pct = to_int (add pct (div (of_nat 1) (of_nat 2)))

  -- `clampAdvance`, what it returns and stores
  unfoldable pub clamp_advance : Double → ℕ → ℕ
  clamp_advance pct percent = max percent (min 100 (pos_part (rounded pct)))

  unfoldable pub advance : Double → Tracker → Option ℕ × Tracker
  advance pct tracker =
      let percent = clamp_advance pct tracker.percent in
      (some percent, record tracker { percent = percent })

  -- The percentage at so many hundredths of the current phase.
  unfoldable pub within_phase : ℕ → Tracker → Double
  within_phase hundredths tracker = add (of_nat (base_for tracker.is_eas tracker.phase_index)) (
      mul (of_nat (weight_for tracker.is_eas tracker.phase_index))
        (div (of_nat hundredths) (of_nat 100)))

  unfoldable pub enter_phase : Option ℕ → Tracker → Option ℕ × Tracker
  enter_phase none tracker = (none, tracker)
  enter_phase (some index) tracker =
      advance (of_nat (base_for tracker.is_eas index))
        (record tracker { phase_index = index; milestone = 0 })

  -- std::max(0, std::min(100, within)), or no change where std::stoi throws
  unfoldable pub report_within : Result ℤ → Tracker → Option ℕ × Tracker
  report_within (ok within) tracker =
      advance (within_phase (min 100 (pos_part within)) tracker) tracker
  report_within (err e) tracker = (none, tracker)
  report_within stuck tracker = (none, tracker)

  unfoldable pub report_gradle : Option ℕ → Tracker → Option ℕ × Tracker
  report_gradle none tracker = (none, tracker)
  report_gradle (some n) tracker = advance (within_phase n tracker) tracker

  -- the loop over the milestones from index `i` on
  unfoldable pub report_eas : Bytes → ℕ → List Milestone → Tracker → Option ℕ × Tracker
  report_eas line i [] tracker = (none, tracker)
  report_eas line i (m ∷ ms) tracker =
      let later = report_eas line (suc i) ms tracker in
      if milestone_found line m.pattern
      then advance (within_phase m.hundredths tracker) (record tracker { milestone = suc i })
      else later

  unfoldable pub report_output : Bytes → Tracker → Option ℕ × Tracker
  report_output line tracker =
      let left = drop tracker.milestone milestones in
      if not tracker.is_eas && tracker.phase_index == 4
      then report_gradle (gradle_percent line) tracker
      else if tracker.is_eas && tracker.phase_index == 5
      then report_eas line tracker.milestone left tracker
      else (none, tracker)

  unfoldable pub handle_other : Bytes → Option Bytes → Tracker → Option ℕ × Tracker
  handle_other line (some rest) tracker = report_within (stoi rest) tracker
  handle_other line none tracker = report_output line tracker

  unfoldable pub handle_marked : Bytes → Option Bytes → Option Bytes → Tracker → Option ℕ × Tracker
  handle_marked line (some rest) progress tracker =
      enter_phase (phase_index_of (until_colon rest)) tracker
  handle_marked line none progress tracker = handle_other line progress tracker

  -- `handleLine`
  unfoldable pub handle_line : Bytes → Tracker → Option ℕ × Tracker
  handle_line line tracker =
      handle_marked line (behind (codes "@@PHASE:") line) (behind (codes "@@PROGRESS:") line)
        tracker
