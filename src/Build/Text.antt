-- ===== src/Build/Text.antt =====
-- The helpers on texts of cli-cpp-legacy/src/commands/build.cpp: `toHostArtifactPath`,
-- `stripAnsiEscapes`, `formatDuration` and the trimming of a log line.
pub mod Laws
use expo_builder_local.Prelude.{
  ℕ, ◌/◌, ◌%◌, Bytes, [], ◌∷◌, ◌++◌, Bool, true, false, not, ◌&&◌, ◌||◌, ◌==◌, ltb, leb, Option,
  none, some, codes, if◌then◌else◌,
}
use expo_builder_local.Decimal.{print_nat}
use expo_builder_local.Progress.Patterns.{behind}
use expo_builder_local.Docker.Params.{container_app_dir}

-- The text of a path with a slash behind it, unless it has one.
unfoldable pub with_slash : Bytes → Bytes
with_slash [] = []
with_slash (c ∷ []) = if c == b'/' then c ∷ [] else c ∷ b'/' ∷ []
with_slash (c ∷ d ∷ a) = c ∷ with_slash (d ∷ a)

-- `fs::path(a) / b`, where paths are written with slashes: an absolute `b` takes the place of `a`.
unfoldable pub join_path : Bytes → Bytes → Bytes
join_path a [] = with_slash a
join_path a (c ∷ b) = if c == b'/' then c ∷ b else with_slash a ++ c ∷ b

unfoldable pub host_path_of : Bytes → Bytes → Option Bytes → Bytes
host_path_of app_path container_path none = container_path
host_path_of app_path container_path (some rest) = join_path app_path rest

unfoldable pub to_host_artifact_path : Bytes → Bytes → Bytes
to_host_artifact_path app_path container_path =
    host_path_of app_path container_path (behind (container_app_dir ++ codes "/") container_path)

-- the escape character
abbrev pub esc : ℕ
esc = 27

-- the last byte of a CSI sequence
unfoldable pub is_final : ℕ → Bool
is_final c = leb 64 c && leb c 126

-- a C0 control byte other than tab
unfoldable pub is_control : ℕ → Bool
is_control c = ltb c 32 && not (c == b'\t')

unfoldable mutual
  -- `stripAnsiEscapes`, with what follows the index of the loop
  pub strip_ansi_escapes : Bytes → Bytes
  strip_ansi_escapes [] = []
  strip_ansi_escapes (c ∷ []) = if is_control c then [] else c ∷ []
  strip_ansi_escapes (c ∷ next ∷ s) =
      let csi = strip_csi s in
      let osc = strip_osc s in
      let dropped = strip_ansi_escapes s in
      let rest = strip_ansi_escapes (next ∷ s) in
      if c == esc
      then (if next == b'[' then csi else if next == b']' then osc else dropped)
      else if is_control c
      then rest
      else c ∷ rest

  -- the inner loop of a CSI sequence, and the loop behind it
  pub strip_csi : Bytes → Bytes
  strip_csi [] = []
  strip_csi (c ∷ s) =
      let behind_it = strip_ansi_escapes s in
      let more = strip_csi s in if is_final c then behind_it else more

  -- the inner loop of an OSC sequence, up to a BEL or ESC '\', and the loop behind it
  pub strip_osc : Bytes → Bytes
  strip_osc [] = []
  strip_osc (c ∷ []) = []
  strip_osc (c ∷ next ∷ s) =
      let behind_bel = strip_ansi_escapes (next ∷ s) in
      let behind_st = strip_ansi_escapes s in
      let more = strip_osc (next ∷ s) in
      if c == 7 then behind_bel else if c == esc && next == b'\\' then behind_st else more

unfoldable pub is_blank : ℕ → Bool
is_blank c = c == b' ' || c == b'\t'

-- from find_first_not_of on
unfoldable pub trim_front : Bytes → Bytes
trim_front [] = []
trim_front (c ∷ s) = let rest = trim_front s in if is_blank c then rest else c ∷ s

unfoldable pub keep_unless_blank : ℕ → Bytes → Bytes
keep_unless_blank c [] = if is_blank c then [] else c ∷ []
keep_unless_blank c (d ∷ s) = c ∷ d ∷ s

-- up to find_last_not_of
unfoldable pub trim_back : Bytes → Bytes
trim_back [] = []
trim_back (c ∷ s) = keep_unless_blank c (trim_back s)

-- The line without its escapes and without the blanks around it.
unfoldable pub clean_line : Bytes → Bytes
clean_line line = trim_back (trim_front (strip_ansi_escapes line))

-- `formatDuration` of seconds, which are not negative
unfoldable pub format_duration : ℕ → Bytes
format_duration seconds =
    let m = seconds / 60 in
    let s = print_nat (seconds % 60) ++ codes "s" in
    if ltb 0 m then print_nat m ++ (codes "m " ++ s) else s
