-- ===== src/Build/Options/Tests.antt =====
-- Runs of the reading of arguments, and its theorem at work.
use expo_builder_local.Prelude.{[], ◌∷◌, true, some, codes, ◌≡◌, refl}
use expo_builder_local.Build.Options.{
  Options, default_options, classify, take_argument, parse_loop, parse_args, parsed, stopped,
}
use expo_builder_local.Build.Options.Laws.{args_of, parse_args-args_of}

missing_value : parse_args (codes "app" ∷ codes "--engine" ∷ []) ≡ stopped 2
unfolding parse_args parse_loop classify take_argument
missing_value = refl

two_paths : parse_args (codes "a" ∷ codes "--status" ∷ codes "b" ∷ []) ≡ stopped 2
unfolding parse_args parse_loop classify take_argument
two_paths = refl

abbrev opts : Options
opts = record default_options {
  path = codes "app";
  prod = true;
  keystore = some (codes "--help");
  logs = true;
}

parse_args-args_of_example : parse_args (args_of opts) ≡ parsed opts
parse_args-args_of_example = parse_args-args_of opts refl
