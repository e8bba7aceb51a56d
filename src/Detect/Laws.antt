-- ===== src/Detect/Laws.antt =====
-- Which directories are Expo projects.
use expo_builder_local.Prelude.{
  Bytes, [], true, false, Option, none, some, codes, ◌≡◌, ◌⊎◌, arith, refl, ap, Bool-cases, inl,
  inr, ◌↔◌,
}
use expo_builder_local.Exception.{
  Result, ok, err, stuck, ok_inj, json_error, runtime_error, invalid_argument, out_of_range,
  >>=-eq-ok,
}
use expo_builder_local.Doubles.{Doubles}
use expo_builder_local.Json.Value.{Json}
use expo_builder_local.Json.Access.{get, contains}
use expo_builder_local.Json.Parser.{parse}
use expo_builder_local.Detect.{
  ExpoProjectInfo, read_optional, owner_of, profiles_in, has_expo, detect_expo, detect_package,
  detect_text, detect_expo_project,
}

module _ (fp : Doubles) where
  -- package.json has a member "expo" in its "dependencies" or in its "devDependencies".
  abbrev pub HasDependency : Json fp.Double → Type 0
  HasDependency pkg =
      (contains (codes "expo") (get (codes "dependencies") pkg) ≡ true)
      ⊎ (contains (codes "expo") (get (codes "devDependencies") pkg) ≡ true)

  has_expo_iff : (pkg : Json fp.Double) → (has_expo pkg ≡ true) ↔ HasDependency pkg
  unfolding has_expo
  has_expo_iff pkg = (λ h. ground arith, λ h. ground arith)

  -- The text of package.json is read and has the dependency.
  abbrev pub HasExpo : (Bytes → Option Bytes) → Type 0
  HasExpo files =
      (s : Bytes) × (pkg : Json fp.Double) × (files (codes "package.json") ≡ some s)
      × (parse fp s ≡ ok pkg)
      × HasDependency pkg

  detect_expo_ok :
      (files : Bytes → Option Bytes) (pkg : Json fp.Double) (info : ExpoProjectInfo)
      → detect_expo fp files pkg ≡ ok info
      → info.is_expo_project ≡ true
  unfolding detect_expo
  detect_expo_ok files pkg info h =
      let (owner, e1, h1) =
        >>=-eq-ok (read_optional fp [] (owner_of fp) (files (codes "app.json"))) _ h in
      let (profiles, e2, h2) =
        >>=-eq-ok (read_optional fp [] (profiles_in fp) (files (codes "eas.json"))) _ h1 in
      let same = ok_inj h2 in rw (← same) refl

  detect_package_ok :
      (files : Bytes → Option Bytes) (r : Result (Json fp.Double)) (info : ExpoProjectInfo)
      → detect_package fp files r ≡ ok info
      → info.is_expo_project ≡ true
      → (pkg : Json fp.Double) × (r ≡ ok pkg) × (has_expo pkg ≡ true)
  unfolding detect_package
  detect_package_ok files (ok pkg) info h p = elim (Bool-cases (has_expo pkg)) [
    | inl e ↦ (pkg, refl, e)
    | inr e ↦
        let q : false ≡ info.is_expo_project = ap (λ x. x.is_expo_project) (ok_inj (rw e at h)) in
        absurd (cc)
  ]
  detect_package_ok files (err (json_error what)) info h p =
      let q : false ≡ info.is_expo_project = ap (λ x. x.is_expo_project) (ok_inj h) in absurd (cc)
  detect_package_ok files (err (runtime_error what)) info h p = absurd (cc)
  detect_package_ok files (err invalid_argument) info h p = absurd (cc)
  detect_package_ok files (err out_of_range) info h p = absurd (cc)
  detect_package_ok files stuck info h p = absurd (cc)

  expo_found :
      (files : Bytes → Option Bytes) (s : Bytes) (info : ExpoProjectInfo)
      → files (codes "package.json") ≡ some s
      → detect_package fp files (parse fp s) ≡ ok info
      → HasExpo files
      → info.is_expo_project ≡ true
  unfolding detect_package
  expo_found files s info e h (s2, pkg, f, g, k) =
      let same : s2 ≡ s = cc in
      let read : parse fp s ≡ ok pkg = rw same at g in
      detect_expo_ok files pkg info (rw (read, (has_expo_iff pkg).1 k) at h)

  detect_text_ok :
      (files : Bytes → Option Bytes) (dir_path : Bytes) (o : Option Bytes) (info : ExpoProjectInfo)
      → files (codes "package.json") ≡ o
      → detect_text fp files dir_path o ≡ ok info
      → (info.is_expo_project ≡ true) ↔ HasExpo files
  unfolding detect_text
  detect_text_ok files dir_path none info e h =
      let q : false ≡ info.is_expo_project = ap (λ x. x.is_expo_project) (ok_inj h) in
      (λ p. absurd (cc), λ (s, pkg, f, g, k). absurd (cc))
  detect_text_ok files dir_path (some s) info e h = (
    λ p.
        let (pkg, q, k) = detect_package_ok files (parse fp s) info h p in
        (s, pkg, e, q, (has_expo_iff pkg).0 k),
    λ x. expo_found files s info e h x,
  )

  -- Where the detection returns, the directory is an Expo project exactly if its package.json is read
  -- and has a member "expo" in its "dependencies" or in its "devDependencies".
  pub detect_expo_project_ok :
      (files : Bytes → Option Bytes) (dir_path : Bytes) (info : ExpoProjectInfo)
      → detect_expo_project fp files dir_path ≡ ok info
      → (info.is_expo_project ≡ true) ↔ HasExpo files
  unfolding detect_expo_project
  detect_expo_project_ok files dir_path info h =
      detect_text_ok files dir_path (files (codes "package.json")) info refl h
