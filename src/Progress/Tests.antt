-- ===== src/Progress/Tests.antt =====
-- Runs of the progress tracker, and its theorems at work.
use expo_builder_local.Prelude.{List, [], ◌∷◌, ◌++◌, true, some, codes, ◌≡◌, refl}
use expo_builder_local.Json.Integers.{ints}
use expo_builder_local.Decimal.{is_digit, is_space, skip_space}
use expo_builder_local.Progress.Patterns.{
  gradle_percent, milestone_found, word_or_chain, activity_behind_space, starts_with_activity,
  digits_then_activity, or_else, starts_with, found_icase, found_chain, found_in_line,
  starts_with_icase, lower,
}
use expo_builder_local.Progress.{new, handle_line, rounded}
use expo_builder_local.Progress.Laws.{
  Moves, Event, line, engine, run, done_marker, RoundsWhole, handle_line-Moves, run-done,
}

gradle_run : gradle_percent (codes "<====--> 1263%  EXECUTING [2s]") ≡ some 263
unfolding gradle_percent digits_then_activity activity_behind_space starts_with_activity starts_with
    skip_space is_digit is_space or_else
gradle_run = refl

prebuild_run :
    milestone_found
      (codes "run PREBUILD now")
      (word_or_chain (codes "Prebuild") (codes "Running") (codes "prebuild"))
    ≡ true
unfolding milestone_found found_icase found_chain found_in_line starts_with_icase lower
prebuild_run = refl

handle_line-Moves_example : Moves new (handle_line ints (codes "@@PROGRESS:50") new)
handle_line-Moves_example = handle_line-Moves ints (codes "@@PROGRESS:50") new

ints-RoundsWhole : RoundsWhole ints
unfolding rounded
ints-RoundsWhole n h = refl

abbrev front : List (Event ints)
front = engine (codes "eas") ∷ line (codes "@@PHASE:eas:Building") ∷ []

abbrev back : List (Event ints)
back = line (codes "@@PHASE:setup:Again") ∷ []

run-done_example : (run ints (front ++ done_marker ints (codes "Done") ∷ back) new).percent ≡ 100
run-done_example = run-done ints ints-RoundsWhole front back (codes "Done")
