-- ===== src/Detect/Tests.antt =====
-- A run of the detection, and its theorem at work.
use expo_builder_local.Prelude.{
  Bytes, [], ◌∷◌, Option, none, some, codes, bytes_eq, true, ◌↔◌, ◌≡◌, refl, if◌then◌else◌,
}
use expo_builder_local.Exception.{ok}
use expo_builder_local.Json.Access.{get, contains, lookup, as_string}
use expo_builder_local.Json.Parser.{parse}
use expo_builder_local.Json.Integers.{ints}
use expo_builder_local.Detect.{
  ExpoProjectInfo, no_info, keys, has_expo, profiles_of, or_unread, read_optional, owner_of,
  profiles_in, detect_expo, detect_package, detect_text, detect_expo_project,
}
use expo_builder_local.Detect.Laws.{HasExpo, detect_expo_project_ok}

abbrev files : Bytes → Option Bytes
files name =
    if bytes_eq name (codes "package.json")
    then some (codes "{\"name\":\"app\",\"dependencies\":{\"expo\":\"~52\"}}")
    else if bytes_eq name (codes "eas.json")
    then some (codes "{\"build\":{\"preview\":{},\"production\":{}}}")
    else none

abbrev info : ExpoProjectInfo
info = record no_info {
  is_expo_project = true;
  name = codes "app";
  eas_profiles = codes "preview" ∷ codes "production" ∷ [];
}

detected : detect_expo_project ints files (codes "/p") ≡ ok info
unfolding detect_expo_project detect_text detect_package detect_expo has_expo read_optional
    or_unread owner_of profiles_in profiles_of keys get contains lookup as_string parse
detected = refl

detect_expo_project_ok_example : (info.is_expo_project ≡ true) ↔ HasExpo ints files
detect_expo_project_ok_example = detect_expo_project_ok ints files (codes "/p") info detected
