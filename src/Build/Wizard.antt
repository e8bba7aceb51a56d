-- ===== src/Build/Wizard.antt =====
-- `runBuildWizard` of cli-cpp-legacy/src/commands/build.cpp.
use expo_builder_local.Prelude.{
  ℕ, suc, Bytes, List, [], ◌∷◌, Bool, false, ◌||◌, ◌==◌, bytes_eq, Option, none, some, codes,
  length, get_elem?, if◌then◌else◌,
}
use expo_builder_local.Config.{is_empty}
use expo_builder_local.Build.Options.{Options}
use expo_builder_local.Build.Console.{
  Console, ◌>>=◌, ret, cancel, or_default, prompt_string, prompt_hidden,
}

unfoldable pub value_or : Bytes → Option Bytes → Bytes
value_or default none = default
value_or default (some s) = s

unfoldable pub default_artifact : Options → Bytes
default_artifact opts = value_or (if opts.prod then codes "aab" else codes "apk") opts.artifact

unfoldable pub default_profile : Options → Bytes
default_profile opts =
    value_or (if opts.prod then codes "production" else codes "preview") opts.profile

-- The index of the last item that is the value, or the index so far.
unfoldable pub last_index : Bytes → ℕ → ℕ → List Bytes → ℕ
last_index value found i [] = found
last_index value found i (item ∷ items) =
    last_index value (if bytes_eq item value then i else found) (suc i) items

unfoldable pub item_at : List Bytes → ℕ → Bytes
item_at items i = value_or [] (get_elem? items i)

-- kEngineValues
abbrev pub engine_values : List Bytes
engine_values = codes "auto" ∷ codes "gradle" ∷ codes "eas" ∷ []

-- The answer begins with 'y' or 'Y'.
unfoldable pub is_yes : Bytes → Bool
is_yes [] = false
is_yes (c ∷ s) = c == b'y' || c == b'Y'

-- A field that an empty answer leaves as it is.
unfoldable pub unless_empty : Bytes → Option Bytes → Option Bytes
unless_empty [] old = old
unless_empty (c ∷ s) old = some (c ∷ s)

module _ (console : Console) where
  open console use {World, choose}

  abbrev Ask : Type 0 → Type 0
  Ask A = World → Option A × World

  unfoldable pub ask_profile : Options → List Bytes → Ask Bytes
  ask_profile opts [] = do
    entered ← prompt_string console (default_profile opts)
    ret (or_default (default_profile opts) entered)
  ask_profile opts (p ∷ ps) = do
    choice ← choose (length (p ∷ ps)) (last_index (default_profile opts) 0 0 (p ∷ ps))
    ret (item_at (p ∷ ps) choice)

  -- the questions for a keystore
  unfoldable pub ask_keystore : Options → Ask Options
  ask_keystore opts = do
    keystore_path ← prompt_string console (value_or [] opts.keystore)
    given ← (if is_empty keystore_path then cancel else ret keystore_path)
    store_pw ← prompt_hidden console
    alias ← prompt_string console (value_or [] opts.key_alias)
    key_pw ← prompt_hidden console
    ret (record opts {
      keystore = some given;
      store_password = unless_empty store_pw opts.store_password;
      key_alias = unless_empty alias opts.key_alias;
      key_password = unless_empty key_pw opts.key_password;
    })

  -- `runBuildWizard` for a project with these profiles: the options, or none where it is cancelled.
  unfoldable pub run_build_wizard : Options → List Bytes → Ask Options
  run_build_wizard opts eas_profiles = do
    artifact_choice ← choose 2 (if bytes_eq (default_artifact opts) (codes "aab") then 1 else 0)
    profile ← ask_profile opts eas_profiles
    engine_choice ← choose 3 (last_index opts.engine 0 0 engine_values)
    sign_choice ← choose 2 (if opts.release then 1 else 0)
    let chosen : Options = record opts {
      artifact = some (if artifact_choice == 1 then codes "aab" else codes "apk");
      profile = some profile;
      engine = item_at engine_values engine_choice;
      release = sign_choice == 1;
    }
    signed ← (if sign_choice == 1 then ask_keystore chosen else ret chosen)
    proceed ← prompt_string console (codes "Y")
    (if is_yes proceed then ret signed else cancel)
