-- ===== src/Detect.antt =====
-- cli-cpp-legacy/src/detect.cpp: `detectExpoProject`. The directory is an argument: the text of each
-- of its files, none where it cannot be read.
pub mod Laws
mod Tests
use expo_builder_local.Prelude.{
  ℕ, Bytes, List, [], ◌∷◌, ◌++◌, Bool, true, false, ◌||◌, Option, none, some, codes, text,
  if◌then◌else◌,
}
use expo_builder_local.Exception.{Result, ok, err, stuck, json_error, ◌>>=◌}
use expo_builder_local.Doubles.{Doubles}
use expo_builder_local.Json.Value.{Json, Fields, object, end, field}
use expo_builder_local.Json.Access.{get, contains, as_string}
use expo_builder_local.Json.Parser.{parse}

pub record ExpoProjectInfo : Type 0 where
  pub is_expo_project : Bool
  pub name : Bytes
  pub version : Bytes
  pub owner : Bytes
  pub eas_profiles : List Bytes
  pub reason : Bytes

abbrev pub no_info : ExpoProjectInfo
no_info = record {
  is_expo_project = false;
  name = [];
  version = [];
  owner = [];
  eas_profiles = [];
  reason = [];
}

abbrev refused : Bytes → ExpoProjectInfo
refused reason = record no_info { reason = reason }

module _ {D : Type 0} where
  -- the keys of members(), in their order
  unfoldable pub keys : Fields D → List Bytes
  keys end = []
  keys (field k v fs) = k ∷ keys fs

  unfoldable pub has_expo : Json D → Bool
  has_expo pkg =
      contains (codes "expo") (get (codes "dependencies") pkg)
      || contains (codes "expo") (get (codes "devDependencies") pkg)

  unfoldable pub profiles_of : Json D → List Bytes
  profiles_of (object fs) = keys fs
  profiles_of _ = []

  -- catch (const JsonError&) around what reads an optional file
  unfoldable pub or_unread {ℓ} : {A : Type ℓ} → A → (Json D → A) → Result (Json D) → Result A
  or_unread unread read (ok value) = ok (read value)
  or_unread unread read (err (json_error what)) = ok unread
  or_unread unread read (err e) = err e
  or_unread unread read stuck = stuck

module _ (fp : Doubles) where
  abbrev Value : Type 0
  Value = Json fp.Double

  unfoldable pub read_optional {ℓ} : {A : Type ℓ} → A → (Value → A) → Option Bytes → Result A
  read_optional unread read none = ok unread
  read_optional unread read (some s) = or_unread unread read (parse fp s)

  -- "expo.owner" of app.json
  unfoldable pub owner_of : Value → Bytes
  owner_of app = as_string [] (get (codes "owner") (get (codes "expo") app))

  unfoldable pub profiles_in : Value → List Bytes
  profiles_in eas = profiles_of (get (codes "build") eas)

  -- behind the test for the dependency
  unfoldable pub detect_expo : (Bytes → Option Bytes) → Value → Result ExpoProjectInfo
  detect_expo files pkg = do
    owner ← read_optional [] owner_of (files (codes "app.json"))
    profiles ← read_optional [] profiles_in (files (codes "eas.json"))
    ok (record {
      is_expo_project = true;
      name = as_string [] (get (codes "name") pkg);
      version = as_string [] (get (codes "version") pkg);
      owner = owner;
      eas_profiles = profiles;
      reason = [];
    })

  unfoldable pub detect_package : (Bytes → Option Bytes) → Result Value → Result ExpoProjectInfo
  detect_package files (ok pkg) =
      if has_expo pkg
      then detect_expo files pkg
      else ok (refused (text "package.json has no 'expo' dependency"))
  detect_package files (err (json_error what)) =
      ok (refused (text "package.json exists but could not be parsed: " ++ what))
  detect_package files (err e) = err e
  detect_package files stuck = stuck

  unfoldable pub detect_text :
      (Bytes → Option Bytes) → Bytes → Option Bytes → Result ExpoProjectInfo
  detect_text files dir_path none = ok (refused (text "No package.json found in " ++ dir_path))
  detect_text files dir_path (some s) = detect_package files (parse fp s)

  unfoldable pub detect_expo_project : (Bytes → Option Bytes) → Bytes → Result ExpoProjectInfo
  detect_expo_project files dir_path = detect_text files dir_path (files (codes "package.json"))
