-- ===== src/Build/Options.antt =====
-- `Options` and `parseArgs` of cli-cpp-legacy/src/commands/build.cpp.
pub mod Laws
mod Tests
use expo_builder_local.Prelude.{
  ℕ, Bytes, List, [], ◌∷◌, Bool, true, false, ◌||◌, ◌==◌, bytes_eq, Option, none, some, codes,
  if◌then◌else◌,
}

pub record Options : Type 0 where
  pub path : Bytes
  pub prod : Bool
  pub artifact : Option Bytes
  pub profile : Option Bytes
  pub engine : Bytes
  pub release : Bool
  pub keystore : Option Bytes
  pub store_password : Option Bytes
  pub key_alias : Option Bytes
  pub key_password : Option Bytes
  pub expo_token : Option Bytes
  pub runner_image : Option Bytes
  pub gradle_cache_volume : Bytes
  pub npm_cache_volume : Bytes
  pub docker_socket : Bytes
  pub json : Bool
  pub logs : Bool
  pub tui : Bool

-- The values of an `Options` that nothing has set.
abbrev pub default_options : Options
default_options = record {
  path = codes ".";
  prod = false;
  artifact = none;
  profile = none;
  engine = codes "eas";
  release = false;
  keystore = none;
  store_password = none;
  key_alias = none;
  key_password = none;
  expo_token = none;
  runner_image = none;
  gradle_cache_volume = codes "expo-builder-local_gradle-cache";
  npm_cache_volume = codes "expo-builder-local_npm-cache";
  docker_socket = codes "/var/run/docker.sock";
  json = false;
  logs = false;
  tui = false;
}

-- What an argument is, by the tests of the loop in their order.
pub data Argument : Type 0 where
  help : Argument
  -- a flag, with what it does to the options
  flag : (Options → Options) → Argument
  -- a flag with a value behind it
  valued : (Bytes → Options → Options) → Argument
  unknown : Argument
  positional : Argument

abbrev is_dashed : Bytes → Bool
is_dashed [] = false
is_dashed (c ∷ s) = c == b'-'

unfoldable pub classify : Bytes → Argument
classify arg =
    if bytes_eq arg (codes "-h") || bytes_eq arg (codes "--help")
    then help
    else if bytes_eq arg (codes "--prod")
    then flag (λ opts. record opts { prod = true })
    else if bytes_eq arg (codes "-a") || bytes_eq arg (codes "--artifact")
    then valued (λ v opts. record opts { artifact = some v })
    else if bytes_eq arg (codes "-p") || bytes_eq arg (codes "--profile")
    then valued (λ v opts. record opts { profile = some v })
    else if bytes_eq arg (codes "-e") || bytes_eq arg (codes "--engine")
    then valued (λ v opts. record opts { engine = v })
    else if bytes_eq arg (codes "--release")
    then flag (λ opts. record opts { release = true })
    else if bytes_eq arg (codes "--keystore")
    then valued (λ v opts. record opts { keystore = some v })
    else if bytes_eq arg (codes "--store-password")
    then valued (λ v opts. record opts { store_password = some v })
    else if bytes_eq arg (codes "--key-alias")
    then valued (λ v opts. record opts { key_alias = some v })
    else if bytes_eq arg (codes "--key-password")
    then valued (λ v opts. record opts { key_password = some v })
    else if bytes_eq arg (codes "--expo-token")
    then valued (λ v opts. record opts { expo_token = some v })
    else if bytes_eq arg (codes "--runner-image")
    then valued (λ v opts. record opts { runner_image = some v })
    else if bytes_eq arg (codes "--gradle-cache-volume")
    then valued (λ v opts. record opts { gradle_cache_volume = v })
    else if bytes_eq arg (codes "--npm-cache-volume")
    then valued (λ v opts. record opts { npm_cache_volume = v })
    else if bytes_eq arg (codes "--docker-socket")
    then valued (λ v opts. record opts { docker_socket = v })
    else if bytes_eq arg (codes "--json")
    then flag (λ opts. record opts { json = true })
    else if bytes_eq arg (codes "--logs")
    then flag (λ opts. record opts { logs = true })
    else if bytes_eq arg (codes "--status")
    then flag (λ opts. opts)
    else if bytes_eq arg (codes "--tui")
    then flag (λ opts. record opts { tui = true })
    else if is_dashed arg
    then unknown
    else positional

-- The options, or an exit code where parseArgs returns false: it has printed the usage or an error.
pub data Parsed : Type 0 where
  parsed : Options → Parsed
  stopped : ℕ → Parsed

-- A round of the loop, with the rounds that follow it. `value` are the argument behind this one and
-- the rounds behind that, where there is one.
unfoldable pub take_argument :
    Argument
    → Bytes
    → Bool
    → Options
    → (Bool → Options → Parsed)
    → Option (Bytes × (Bool → Options → Parsed))
    → Parsed
take_argument help arg saw_positional opts next value = stopped 0
take_argument (flag set) arg saw_positional opts next value = next saw_positional (set opts)
take_argument (valued set) arg saw_positional opts next (some (v, after)) =
    after saw_positional (set v opts)
take_argument (valued set) arg saw_positional opts next none = stopped 2
take_argument unknown arg saw_positional opts next value = stopped 2
take_argument positional arg true opts next value = stopped 2
take_argument positional arg false opts next value = next true (record opts { path = arg })

-- the loop over the arguments
unfoldable pub parse_loop : List Bytes → Bool → Options → Parsed
parse_loop [] saw_positional opts = parsed opts
parse_loop (arg ∷ []) saw_positional opts =
    take_argument (classify arg) arg saw_positional opts (λ saw o. parsed o) none
parse_loop (arg ∷ value ∷ args) saw_positional opts =
    take_argument (classify arg) arg saw_positional opts (λ saw o. parse_loop (value ∷ args) saw o)
      (some (value, λ saw o. parse_loop args saw o))

unfoldable pub parse_args : List Bytes → Parsed
parse_args args = parse_loop args false default_options
