-- ===== src/Build/Resolve/Laws.antt =====
-- What holds of the parameters with which a build begins.
use expo_builder_local.Prelude.{
  ℕ, Bytes, [], ◌∷◌, Bool, true, false, not, ◌&&◌, bytes_eq, Option, none, some, codes, ◌≡◌, refl,
  sym, ◌∙◌, ap, arith, Bool-cases, inl, inr, if◌then◌else◌,
}
use expo_builder_local.Config.{is_empty}
use expo_builder_local.Docker.Params.{BuildParams}
use expo_builder_local.Build.Options.{Options}
use expo_builder_local.Build.Wizard.{default_artifact}
use expo_builder_local.Build.Console.{Console}
use expo_builder_local.Build.Resolve.{
  Setting, is_artifact, is_engine, is_given, missing_keystore, keystore_error, option_error,
  usage_error, engine_needs_token, expo_token, with_keystore, keystore_of, build_params, Resolved,
  refused, cancelled, aborted, ready, with_entered, resolve_token, resolve_checked, resolve_options,
  after_wizard, resolve_usage, resolve,
}

-- Parameters that the runner accepts: a known artifact and a known engine, a token for the engine that
-- needs one, and with the release signing, and with no other, a keystore that exists.
abbrev pub IsValid : Setting → BuildParams → Type 0
IsValid setting params =
    (is_artifact params.artifact_type ≡ true)
    × (is_engine params.engine ≡ true)
    × (params.engine ≡ codes "eas" → is_empty params.expo_token ≡ false)
    × (params.has_keystore ≡ bytes_eq params.signing_mode (codes "release"))
    × (params.has_keystore ≡ true
        → (path : Bytes) × (setting.exists path ≡ true)
          × (params.keystore.host_path ≡ setting.absolute path))

-- Options that the checks let pass.
abbrev pub IsChecked : Options → Setting → Type 0
IsChecked opts setting =
    (is_artifact (default_artifact opts) ≡ true)
    × (is_engine opts.engine ≡ true)
    × (opts.release ≡ true → is_given opts.keystore ≡ true)
    × (missing_keystore setting.exists opts.keystore ≡ none)

keystore_error-none :
    (setting : Setting) (o : Option Bytes) → keystore_error setting o ≡ none → o ≡ none
unfolding keystore_error
keystore_error-none setting none h = refl
keystore_error-none setting (some path) h = cc

option_error-IsChecked :
    (opts : Options) (setting : Setting) → option_error opts setting ≡ none → IsChecked opts setting
unfolding option_error
option_error-IsChecked opts setting h = elim (Bool-cases (is_artifact (default_artifact opts))) [
  | inr e ↦ absurd (cc (rw e at h))
  | inl e ↦ elim (Bool-cases (is_engine opts.engine)) [
    | inr f ↦ absurd (cc (rw (e, f) at h))
    | inl f ↦ elim (Bool-cases (opts.release && not (is_given opts.keystore))) [
      | inl g ↦ absurd (cc (rw (e, f, g) at h))
      | inr g ↦ (e, f, λ r. ground arith, keystore_error-none setting _ (rw (e, f, g) at h))
    ]
  ]
]

-- The token is there where the options need one.
abbrev HasToken : Options → Setting → Bytes → Type 0
HasToken opts setting token = (is_empty token && engine_needs_token opts setting) ≡ false

eas_needs_token :
    (opts : Options) (setting : Setting) (token : Bytes)
    → HasToken opts setting token
    → opts.engine ≡ codes "eas"
    → is_empty token ≡ false
unfolding engine_needs_token
eas_needs_token opts setting token h e =
    let f : bytes_eq opts.engine (codes "eas") ≡ true = rw e refl in ground arith

missing_none :
    (exists : Bytes → Bool) (path : Bytes)
    → missing_keystore exists (some path) ≡ none
    → exists path ≡ true
unfolding missing_keystore
missing_none exists path h = elim (Bool-cases (exists path)) [
  | inl e ↦ e
  | inr e ↦ absurd (cc (rw e at h))
]

-- The keystore of parameters that have none so far.
with_keystore-IsValid :
    (opts : Options) (setting : Setting) (release : Bool) (o : Option Bytes) (p : BuildParams)
    → is_artifact p.artifact_type ≡ true
    → is_engine p.engine ≡ true
    → (p.engine ≡ codes "eas" → is_empty p.expo_token ≡ false)
    → p.has_keystore ≡ false
    → bytes_eq p.signing_mode (codes "release") ≡ release
    → (release ≡ true → is_given o ≡ true)
    → missing_keystore setting.exists o ≡ none
    → IsValid setting (with_keystore opts setting release o p)
unfolding with_keystore keystore_of
with_keystore-IsValid opts setting true none p a b t n r g m = absurd (cc (g refl))
with_keystore-IsValid opts setting true (some path) p a b t n r g m =
    (a, b, t, sym r, λ h. (path, missing_none setting.exists path m, refl))
with_keystore-IsValid opts setting false o p a b t n r g m = (a, b, t, n ∙ sym r, λ h. absurd (cc))

is_release :
    (b : Bool) → bytes_eq (if b then codes "release" else codes "debug") (codes "release") ≡ b
is_release true = refl
is_release false = refl

build_params-IsValid :
    (opts : Options) (setting : Setting) (token : Bytes)
    → IsChecked opts setting
    → HasToken opts setting token
    → IsValid setting (build_params opts setting token)
unfolding build_params
build_params-IsValid opts setting token (a, b, c, d) h =
    with_keystore-IsValid opts setting opts.release opts.keystore _ a b
      (eas_needs_token opts setting token h) refl (is_release opts.release) c d

-- What an outcome in front of Docker promises.
abbrev IsReady : Setting → Resolved → Type 0
IsReady setting (ready params save) = IsValid setting params
IsReady setting (refused message) = Unit
IsReady setting cancelled = Unit
IsReady setting aborted = Unit

entered_token :
    (opts : Options) (setting : Setting) (c : ℕ) (s : Bytes) → HasToken opts setting (c ∷ s)
unfolding is_empty
entered_token opts setting c s = refl

module _ (console : Console) where
  open console use {World}

  if-IsReady :
      (setting : Setting) (b : Bool) (r s : Resolved × World)
      → (b ≡ true → IsReady setting r.0)
      → (b ≡ false → IsReady setting s.0)
      → IsReady setting (if b then r else s).0
  if-IsReady setting true r s h k = h refl
  if-IsReady setting false r s h k = k refl

  with_entered-IsReady :
      (opts : Options) (setting : Setting) (entered : Bytes) (w : World)
      → IsChecked opts setting
      → IsReady setting (with_entered console opts setting entered w).0
  unfolding with_entered
  with_entered-IsReady opts setting [] w k = tt
  with_entered-IsReady opts setting (c ∷ s) w k =
      build_params-IsValid opts setting (c ∷ s) k (entered_token opts setting c s)

  resolve_token-IsReady :
      (opts : Options) (setting : Setting) (token : Bytes) (w : World)
      → IsChecked opts setting
      → IsReady setting (resolve_token console opts setting token w).0
  unfolding resolve_token
  resolve_token-IsReady opts setting token w k =
      if-IsReady setting (is_empty token && engine_needs_token opts setting) _ _
        (λ e.
          if-IsReady setting opts.json _ _ (λ f. tt)
            (λ f.
              with_entered-IsReady opts setting (console.read_line w).0 (console.read_line w).1 k))
        (λ e. build_params-IsValid opts setting token k e)

  resolve_checked-IsReady :
      (opts : Options) (setting : Setting) (o : Option Bytes) (w : World)
      → option_error opts setting ≡ o
      → IsReady setting (resolve_checked console opts setting o w).0
  unfolding resolve_checked
  resolve_checked-IsReady opts setting (some message) w e = tt
  resolve_checked-IsReady opts setting none w e =
      resolve_token-IsReady opts setting (expo_token opts setting) w
        (option_error-IsChecked opts setting e)

  resolve_options-IsReady :
      (opts : Options) (setting : Setting) (w : World)
      → IsReady setting (resolve_options console opts setting w).0
  unfolding resolve_options
  resolve_options-IsReady opts setting w =
      resolve_checked-IsReady opts setting (option_error opts setting) w refl

  after_wizard-IsReady :
      (setting : Setting) (r : Option Options × World)
      → IsReady setting (after_wizard console setting r).0
  unfolding after_wizard
  after_wizard-IsReady setting (none, w) = tt
  after_wizard-IsReady setting (some opts, w) = resolve_options-IsReady opts setting w

  resolve_usage-IsReady :
      (opts : Options) (setting : Setting) (o : Option Bytes) (w : World)
      → IsReady setting (resolve_usage console opts setting o w).0
  unfolding resolve_usage
  resolve_usage-IsReady opts setting (some message) w = tt
  resolve_usage-IsReady opts setting none w =
      if-IsReady setting opts.tui _ _ (λ e. after_wizard-IsReady setting _)
        (λ e. resolve_options-IsReady opts setting w)

  resolve-IsReady :
      (opts : Options) (setting : Setting) (w : World)
      → IsReady setting (resolve console opts setting w).0
  unfolding resolve
  resolve-IsReady opts setting w = resolve_usage-IsReady opts setting (usage_error opts setting) w

  -- A build that comes to Docker, with or without the wizard, has valid parameters: the artifact is
  -- "apk" or "aab", the engine is one of the three, the eas engine has a token, and the parameters
  -- have a keystore exactly with the release signing, which is then that of a file that exists.
  pub resolve-IsValid :
      (opts : Options) (setting : Setting) (w w' : World) (params : BuildParams)
      (save : Option Bytes)
      → resolve console opts setting w ≡ (ready params save, w')
      → IsValid setting params
  resolve-IsValid opts setting w w' params save h =
      let e : (resolve console opts setting w).0 ≡ ready params save = ap (λ x. x.0) h in
      rw e at (resolve-IsReady opts setting w)
