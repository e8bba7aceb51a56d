-- ===== src/Progress/Patterns.antt =====
-- The patterns of cli-cpp-legacy/src/build_progress_tracker.cpp, written out: a regular expression is
-- searched for at every position of a line, the leftmost first.
use expo_builder_local.Prelude.{
  ℕ, zero, suc, ◌+◌, ◌-◌, ◌*◌, Bytes, List, [], ◌∷◌, Bool, true, false, ◌&&◌, ◌||◌, ◌==◌, leb, not,
  drop, length, Option, none, some, codes, if◌then◌else◌,
}
use expo_builder_local.Decimal.{is_digit, is_space, skip_space}

-- The text behind a prefix, `rfind(prefix, 0) == 0` with the `substr` behind it.
unfoldable pub behind : Bytes → Bytes → Option Bytes
behind [] line = some line
behind (c ∷ prefix) [] = none
behind (c ∷ prefix) (d ∷ line) = let rest = behind prefix line in if c == d then rest else none

-- The text in front of the first ':', or all of it.
unfoldable pub until_colon : Bytes → Bytes
until_colon [] = []
until_colon (c ∷ s) = let rest = until_colon s in if c == b':' then [] else c ∷ rest

unfoldable pub starts_with : Bytes → Bytes → Bool
starts_with [] line = true
starts_with (c ∷ prefix) [] = false
starts_with (c ∷ prefix) (d ∷ line) = c == d && starts_with prefix line

-- (EXECUTING|CONFIGURING|INITIALIZING)
unfoldable pub starts_with_activity : Bytes → Bool
starts_with_activity s =
    starts_with (codes "EXECUTING") s
    || starts_with (codes "CONFIGURING") s
    || starts_with (codes "INITIALIZING") s

-- \s+ and the activity; no activity begins with a space.
unfoldable pub activity_behind_space : Bytes → Bool
activity_behind_space [] = false
activity_behind_space (c ∷ s) = is_space c && starts_with_activity (skip_space s)

-- The rest of (\d{1,3})%\s+(...) behind a first digit, with so many digits left and the value so far.
unfoldable pub digits_then_activity : ℕ → ℕ → Bytes → Option ℕ
digits_then_activity left n [] = none
digits_then_activity zero n (c ∷ s) = if c == b'%' && activity_behind_space s then some n else none
digits_then_activity (suc left) n (c ∷ s) =
    let more = digits_then_activity left (n * 10 + (c - b'0')) s in
    if is_digit c then more else if c == b'%' && activity_behind_space s then some n else none

unfoldable pub or_else : Option ℕ → Option ℕ → Option ℕ
or_else (some n) later = some n
or_else none later = later

-- The number of the leftmost match of `gradleProgressRegex`.
unfoldable pub gradle_percent : Bytes → Option ℕ
gradle_percent [] = none
gradle_percent (c ∷ s) =
    let later = gradle_percent s in
    let here = digits_then_activity 2 (c - b'0') s in
    if is_digit c then or_else here later else later

-- The lower case of a byte in the C locale, for std::regex::icase.
unfoldable pub lower : ℕ → ℕ
lower c = if leb b'A' c && leb c b'Z' then c + 32 else c

unfoldable pub starts_with_icase : Bytes → Bytes → Bool
starts_with_icase [] line = true
starts_with_icase (c ∷ prefix) [] = false
starts_with_icase (c ∷ prefix) (d ∷ line) = lower c == lower d && starts_with_icase prefix line

unfoldable pub found_icase : Bytes → Bytes → Bool
found_icase word [] = starts_with_icase word []
found_icase word (c ∷ line) = starts_with_icase word (c ∷ line) || found_icase word line

-- .* and a word: a '.' matches no line terminator.
unfoldable pub found_in_line : Bytes → Bytes → Bool
found_in_line word [] = starts_with_icase word []
found_in_line word (c ∷ line) =
    starts_with_icase word (c ∷ line) || (not (c == b'\n' || c == b'\r') && found_in_line word line)

pub data Pattern : Type 0 where
  -- a text
  word : Bytes → Pattern
  -- one text or another
  either : Bytes → Bytes → Pattern
  -- a text, or two texts with .* between them
  word_or_chain : Bytes → Bytes → Bytes → Pattern

-- the first text with the second somewhere behind it
unfoldable pub found_chain : Bytes → Bytes → Bytes → Bool
found_chain first second [] = false
found_chain first second (c ∷ line) =
    (starts_with_icase first (c ∷ line) && found_in_line second (drop (length first) (c ∷ line)))
    || found_chain first second line

-- std::regex_search with a pattern of `easMilestones`
unfoldable pub milestone_found : Bytes → Pattern → Bool
milestone_found line (word w) = found_icase w line
milestone_found line (either v w) = found_icase v line || found_icase w line
milestone_found line (word_or_chain w first second) =
    found_icase w line || found_chain first second line

-- `EasMilestone`, with its fraction in hundredths
pub record Milestone : Type 0 where
  pub pattern : Pattern
  pub hundredths : ℕ

-- easMilestones
abbrev pub milestones : List Milestone
milestones =
    record { pattern = word (codes "Resolving credentials"); hundredths = 10 }
    ∷ record { pattern = word (codes "Compressing project"); hundredths = 20 }
    ∷ record {
      pattern = word_or_chain (codes "Prebuild") (codes "Running") (codes "prebuild");
      hundredths = 35;
    }
    ∷ record { pattern = word (codes "Installing"); hundredths = 45 }
    ∷ record { pattern = either (codes "Running gradle") (codes "Gradle build"); hundredths = 55 }
    ∷ record { pattern = word (codes "BUILD SUCCESSFUL"); hundredths = 95 }
    ∷ []
