-- ===== src/Build/Options/Laws.antt =====
-- Every setting of the options can be written as arguments.
use expo_builder_local.Prelude.{
  Bytes, List, [], ◌∷◌, ◌++◌, Bool, true, false, ◌==◌, Option, none, some, codes, ◌≡◌, refl, ◌∙◌,
  if◌then◌else◌,
}
use expo_builder_local.Build.Options.{
  Options, default_options, classify, parsed, take_argument, parse_loop, parse_args, flag, valued,
  positional,
}

abbrev pub flag_args : Bytes → Bool → List Bytes
flag_args name b = if b then name ∷ [] else []

abbrev pub optional_args : Bytes → Option Bytes → List Bytes
optional_args name none = []
optional_args name (some v) = name ∷ v ∷ []

-- The arguments that set the options, in three parts.
abbrev pub first_args : Options → List Bytes → List Bytes
first_args opts rest =
    flag_args (codes "--prod") opts.prod
    ++ (optional_args (codes "--artifact") opts.artifact
        ++ (optional_args (codes "--profile") opts.profile
            ++ (optional_args (codes "--engine") (some opts.engine)
                ++ (flag_args (codes "--release") opts.release ++ rest))))

abbrev pub signing_args : Options → List Bytes → List Bytes
signing_args opts rest =
    optional_args (codes "--keystore") opts.keystore
    ++ (optional_args (codes "--store-password") opts.store_password
        ++ (optional_args (codes "--key-alias") opts.key_alias
            ++ (optional_args (codes "--key-password") opts.key_password
                ++ (optional_args (codes "--expo-token") opts.expo_token
                    ++ (optional_args (codes "--runner-image") opts.runner_image ++ rest)))))

abbrev pub last_args : Options → List Bytes → List Bytes
last_args opts rest =
    optional_args (codes "--gradle-cache-volume") (some opts.gradle_cache_volume)
    ++ (optional_args (codes "--npm-cache-volume") (some opts.npm_cache_volume)
        ++ (optional_args (codes "--docker-socket") (some opts.docker_socket)
            ++ (flag_args (codes "--json") opts.json
                ++ (flag_args (codes "--logs") opts.logs
                    ++ (flag_args (codes "--tui") opts.tui ++ rest)))))

-- The arguments that set all options, the path last.
abbrev pub args_of : Options → List Bytes
args_of opts = first_args opts (signing_args opts (last_args opts (opts.path ∷ [])))

-- A flag sets its field, and no flag leaves it.
flag_step :
    (name : Bytes) (set : Options → Options) (at : Bool → Options) (b : Bool) (args : List Bytes)
    → classify name ≡ flag set
    → at true ≡ set (at false)
    → parse_loop (flag_args name b ++ args) false (at false) ≡ parse_loop args false (at b)
unfolding parse_loop take_argument
flag_step name set at true [] e h = rw (e, h) refl
flag_step name set at true (a ∷ args) e h = rw (e, h) refl
flag_step name set at false args e h = refl

-- A flag with a value sets its field, and no flag leaves it.
optional_step :
    (name : Bytes) (set : Bytes → Options → Options) (at : Option Bytes → Options)
    (v : Option Bytes) (args : List Bytes)
    → classify name ≡ valued set
    → ((s : Bytes) → at (some s) ≡ set s (at none))
    → parse_loop (optional_args name v ++ args) false (at none) ≡ parse_loop args false (at v)
unfolding parse_loop take_argument
optional_step name set at none args e h = refl
optional_step name set at (some s) args e h = rw (e, h s) refl

value_step :
    (name : Bytes) (set : Bytes → Options → Options) (o : Options) (v : Bytes) (args : List Bytes)
    → classify name ≡ valued set
    → parse_loop (name ∷ v ∷ args) false o ≡ parse_loop args false (set v o)
unfolding parse_loop take_argument
value_step name set o v args e = rw e refl

abbrev set_first : Options → Options
set_first opts = record (default_options) {
  prod = opts.prod;
  artifact = opts.artifact;
  profile = opts.profile;
  engine = opts.engine;
  release = opts.release;
}

set_first_lem :
    (opts : Options) (rest : List Bytes)
    → parse_loop (first_args opts rest) false (default_options)
      ≡ parse_loop rest false (set_first opts)
unfolding classify
set_first_lem opts rest =
    flag_step (codes "--prod") (λ o. record o { prod = true })
      (λ b. record (default_options) { prod = b }) opts.prod _ refl refl
    ∙ (optional_step (codes "--artifact") (λ s o. record o { artifact = some s })
          (λ v. record (record (default_options) { prod = opts.prod }) { artifact = v })
          opts.artifact _ refl (λ s. refl)
        ∙ (optional_step (codes "--profile") (λ s o. record o { profile = some s })
              (λ v.
                record (record (default_options) { prod = opts.prod; artifact = opts.artifact }) {
                  profile = v;
                })
              opts.profile _ refl (λ s. refl)
            ∙ (value_step (codes "--engine") (λ s o. record o { engine = s })
                  (record (default_options) {
                    prod = opts.prod;
                    artifact = opts.artifact;
                    profile = opts.profile;
                  })
                  opts.engine _ refl
                ∙ (flag_step (codes "--release") (λ o. record o { release = true })
                    (λ b.
                      record (record (default_options) {
                        prod = opts.prod;
                        artifact = opts.artifact;
                        profile = opts.profile;
                        engine = opts.engine;
                      }) { release = b })
                    opts.release _ refl refl))))

abbrev set_signing : Options → Options
set_signing opts = record (set_first opts) {
  keystore = opts.keystore;
  store_password = opts.store_password;
  key_alias = opts.key_alias;
  key_password = opts.key_password;
  expo_token = opts.expo_token;
  runner_image = opts.runner_image;
}

set_signing_lem :
    (opts : Options) (rest : List Bytes)
    → parse_loop (signing_args opts rest) false (set_first opts)
      ≡ parse_loop rest false (set_signing opts)
unfolding classify
set_signing_lem opts rest =
    optional_step (codes "--keystore") (λ s o. record o { keystore = some s })
      (λ v. record (set_first opts) { keystore = v }) opts.keystore _ refl (λ s. refl)
    ∙ (optional_step (codes "--store-password") (λ s o. record o { store_password = some s })
          (λ v. record (record (set_first opts) { keystore = opts.keystore }) {
            store_password = v;
          })
          opts.store_password _ refl (λ s. refl)
        ∙ (optional_step (codes "--key-alias") (λ s o. record o { key_alias = some s })
              (λ v.
                record (record (set_first opts) {
                  keystore = opts.keystore;
                  store_password = opts.store_password;
                }) { key_alias = v })
              opts.key_alias _ refl (λ s. refl)
            ∙ (optional_step (codes "--key-password") (λ s o. record o { key_password = some s })
                  (λ v.
                    record (record (set_first opts) {
                      keystore = opts.keystore;
                      store_password = opts.store_password;
                      key_alias = opts.key_alias;
                    }) { key_password = v })
                  opts.key_password _ refl (λ s. refl)
                ∙ (optional_step (codes "--expo-token") (λ s o. record o { expo_token = some s })
                      (λ v.
                        record (record (set_first opts) {
                          keystore = opts.keystore;
                          store_password = opts.store_password;
                          key_alias = opts.key_alias;
                          key_password = opts.key_password;
                        }) { expo_token = v })
                      opts.expo_token _ refl (λ s. refl)
                    ∙ (optional_step (codes "--runner-image")
                        (λ s o. record o { runner_image = some s })
                        (λ v.
                          record (record (set_first opts) {
                            keystore = opts.keystore;
                            store_password = opts.store_password;
                            key_alias = opts.key_alias;
                            key_password = opts.key_password;
                            expo_token = opts.expo_token;
                          }) { runner_image = v })
                        opts.runner_image _ refl (λ s. refl))))))

abbrev set_last : Options → Options
set_last opts = record (set_signing opts) {
  gradle_cache_volume = opts.gradle_cache_volume;
  npm_cache_volume = opts.npm_cache_volume;
  docker_socket = opts.docker_socket;
  json = opts.json;
  logs = opts.logs;
  tui = opts.tui;
}

set_last_lem :
    (opts : Options) (rest : List Bytes)
    → parse_loop (last_args opts rest) false (set_signing opts)
      ≡ parse_loop rest false (set_last opts)
unfolding classify
set_last_lem opts rest =
    value_step (codes "--gradle-cache-volume") (λ s o. record o { gradle_cache_volume = s })
      (set_signing opts) opts.gradle_cache_volume _ refl
    ∙ (value_step (codes "--npm-cache-volume") (λ s o. record o { npm_cache_volume = s })
          (record (set_signing opts) { gradle_cache_volume = opts.gradle_cache_volume })
          opts.npm_cache_volume _ refl
        ∙ (value_step (codes "--docker-socket") (λ s o. record o { docker_socket = s })
              (record (set_signing opts) {
                gradle_cache_volume = opts.gradle_cache_volume;
                npm_cache_volume = opts.npm_cache_volume;
              })
              opts.docker_socket _ refl
            ∙ (flag_step (codes "--json") (λ o. record o { json = true })
                  (λ b.
                    record (record (set_signing opts) {
                      gradle_cache_volume = opts.gradle_cache_volume;
                      npm_cache_volume = opts.npm_cache_volume;
                      docker_socket = opts.docker_socket;
                    }) { json = b })
                  opts.json _ refl refl
                ∙ (flag_step (codes "--logs") (λ o. record o { logs = true })
                      (λ b.
                        record (record (set_signing opts) {
                          gradle_cache_volume = opts.gradle_cache_volume;
                          npm_cache_volume = opts.npm_cache_volume;
                          docker_socket = opts.docker_socket;
                          json = opts.json;
                        }) { logs = b })
                      opts.logs _ refl refl
                    ∙ (flag_step (codes "--tui") (λ o. record o { tui = true })
                        (λ b.
                          record (record (set_signing opts) {
                            gradle_cache_volume = opts.gradle_cache_volume;
                            npm_cache_volume = opts.npm_cache_volume;
                            docker_socket = opts.docker_socket;
                            json = opts.json;
                            logs = opts.logs;
                          }) { tui = b })
                        opts.tui _ refl refl)))))

-- A path that is no option.
abbrev pub IsPath : Bytes → Type 0
IsPath [] = Unit
IsPath (c ∷ s) = (c == b'-') ≡ false

path_is_positional : (path : Bytes) → IsPath path → classify path ≡ positional
unfolding classify
path_is_positional [] h = refl
path_is_positional (c ∷ s) h = rw h refl

path_step :
    (opts : Options)
    → IsPath opts.path
    → parse_loop (opts.path ∷ []) false (set_last opts) ≡ parsed opts
unfolding parse_loop take_argument
path_step opts h = rw (path_is_positional opts.path h) refl

-- Every setting of the options is read from some arguments: from those that name each option with
-- its value, in a fixed order, if the path does not begin with a dash.
pub parse_args-args_of :
    (opts : Options) → IsPath opts.path → parse_args (args_of opts) ≡ parsed opts
unfolding parse_args
parse_args-args_of opts h =
    set_first_lem opts _ ∙ (set_signing_lem opts _ ∙ (set_last_lem opts _ ∙ path_step opts h))
