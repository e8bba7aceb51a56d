-- ===== src/Docker/Bodies.antt =====
-- The JSON that the methods of cli-cpp-legacy/src/docker_client.cpp send: filters, volumes,
-- networks, build containers and service containers.
pub mod Laws
use expo_builder_local.Prelude.{
  ℕ, Bytes, List, [], ◌∷◌, ◌++◌, Bool, true, false, ◌&&◌, bytes_eq, codes, if◌then◌else◌,
}
use expo_builder_local.Exception.{Result, ok, ◌>>=◌}
use expo_builder_local.Decimal.{print_nat}
use expo_builder_local.Json.Value.{Json, Items, Fields, string, boolean, array, object, nil, end}
use expo_builder_local.Json.Access.{set, push_back}
use expo_builder_local.WinPath.{to_docker_bind_path}
use expo_builder_local.Config.{is_empty}
use expo_builder_local.Docker.Params.{
  container_app_dir, app_path_label, KeystoreConfig, BuildParams, ServiceContainerSpec,
}

-- What `createContainer` pushes to `env` in front of the test for a keystore.
unfoldable pub plain_env : BuildParams → ℕ → ℕ → List Bytes
plain_env params build_uid build_gid =
    (codes "APP_DIR=" ++ container_app_dir)
    ∷ (codes "ARTIFACT_TYPE=" ++ params.artifact_type)
    ∷ (codes "PROFILE=" ++ params.profile)
    ∷ (codes "ENGINE=" ++ params.engine)
    ∷ (codes "SIGNING_MODE=" ++ params.signing_mode)
    ∷ (codes "BUILD_UID=" ++ print_nat build_uid)
    ∷ (codes "BUILD_GID=" ++ print_nat build_gid)
    ∷ (if is_empty params.expo_token then [] else (codes "EXPO_TOKEN=" ++ params.expo_token) ∷ [])

unfoldable pub uses_keystore : BuildParams → Bool
uses_keystore params = bytes_eq params.signing_mode (codes "release") && params.has_keystore

unfoldable pub keystore_path : KeystoreConfig → Bytes
keystore_path keystore = codes "/keystores/" ++ keystore.filename

unfoldable pub keystore_env : KeystoreConfig → List Bytes
keystore_env keystore =
    (codes "KEYSTORE_PATH=" ++ keystore_path keystore)
    ∷ (codes "KEYSTORE_PASSWORD=" ++ keystore.store_password)
    ∷ (codes "KEY_ALIAS=" ++ keystore.key_alias)
    ∷ (codes "KEY_PASSWORD="
        ++ (if is_empty keystore.key_password
            then keystore.store_password
            else keystore.key_password))
    ∷ []

-- all that is pushed to `env`
unfoldable pub container_env : BuildParams → ℕ → ℕ → List Bytes
container_env params build_uid build_gid =
    plain_env params build_uid build_gid
    ++ (if uses_keystore params then keystore_env params.keystore else [])

-- all that is pushed to `binds`
unfoldable pub container_binds : Bool → BuildParams → Bytes → Bytes → List Bytes
container_binds windows params gradle_cache_volume npm_cache_volume =
    (to_docker_bind_path windows params.app_path ++ codes ":" ++ container_app_dir)
    ∷ (gradle_cache_volume ++ codes ":/cache/gradle")
    ∷ (npm_cache_volume ++ codes ":/cache/npm")
    ∷ (if uses_keystore params
        then (to_docker_bind_path windows params.keystore.host_path
            ++ codes ":"
            ++ keystore_path params.keystore
            ++ codes ":ro")
          ∷ []
        else [])

module _ {D : Type 0} where
  -- push_back of one text after the other
  unfoldable pub push_all : List Bytes → Json D → Result (Json D)
  push_all [] values = ok values
  push_all (s ∷ ss) values = do longer ← push_back (string s) values; push_all ss longer

  -- the filter on images by their tag
  unfoldable pub image_filters : Bytes → Result (Json D)
  image_filters tag = do
    refs ← push_back (string tag) (array nil)
    set (codes "reference") refs (object end)

  -- the filter on containers by a label, which is `kAppPathLabel` or that with a path
  unfoldable pub label_filters : Bytes → Result (Json D)
  label_filters label = do
    values ← push_back (string label) (array nil)
    set (codes "label") values (object end)

  unfoldable pub volume_body : Bytes → Result (Json D)
  volume_body name = set (codes "Name") (string name) (object end)

  unfoldable pub network_body : Bytes → Result (Json D)
  network_body name = do
    body ← set (codes "Name") (string name) (object end)
    set (codes "CheckDuplicate") (boolean true) body

  -- The body of `createContainer` for its environment and its bind mounts.
  unfoldable pub container_body : Bytes → Bytes → List Bytes → List Bytes → Result (Json D)
  container_body app_path runner_image env_texts bind_texts = do
    env ← push_all env_texts (array nil)
    binds ← push_all bind_texts (array nil)
    host0 ← set (codes "Binds") binds (object end)
    host_config ← set (codes "AutoRemove") (boolean false) host0
    labels ← set app_path_label (string app_path) (object end)
    b1 ← set (codes "Image") (string runner_image) (object end)
    b2 ← set (codes "Env") env b1
    b3 ← set (codes "Labels") labels b2
    b4 ← set (codes "Tty") (boolean true) b3
    b5 ← set (codes "OpenStdin") (boolean false) b4
    b6 ← set (codes "AttachStdout") (boolean true) b5
    b7 ← set (codes "AttachStderr") (boolean true) b6
    b8 ← set (codes "WorkingDir") (string container_app_dir) b7
    set (codes "HostConfig") host_config b8

  -- one binding of a service's port
  unfoldable pub port_binding : Bytes → Result (Json D)
  port_binding host_port = do
    b1 ← set (codes "HostIp") (string (codes "127.0.0.1")) (object end)
    b2 ← set (codes "HostPort") (string host_port) b1
    push_back b2 (array nil)

  -- the loop over portBindings, with the two objects so far
  unfoldable pub port_maps : List (Bytes × Bytes) → Json D → Json D → Result (Json D × Json D)
  port_maps [] exposed bound = ok (exposed, bound)
  port_maps ((container_port, host_port) ∷ ports) exposed bound = do
    exposed2 ← set container_port (object end) exposed
    binding ← port_binding host_port
    bound2 ← set container_port binding bound
    port_maps ports exposed2 bound2

  -- hostConfig.set of the network, where the service has one
  unfoldable pub set_network : Bytes → Json D → Result (Json D)
  set_network network host_config =
      if is_empty network
      then ok host_config
      else set (codes "NetworkMode") (string network) host_config

  unfoldable pub service_body : ServiceContainerSpec → Result (Json D)
  service_body spec = do
    env ← push_all spec.env (array nil)
    binds ← push_all spec.binds (array nil)
    ports ← port_maps spec.port_bindings (object end) (object end)
    policy ← set (codes "Name") (string (codes "unless-stopped")) (object end)
    h1 ← set (codes "Binds") binds (object end)
    h2 ← set (codes "PortBindings") ports.1 h1
    h3 ← set (codes "RestartPolicy") policy h2
    host_config ← set_network spec.network h3
    b1 ← set (codes "Image") (string spec.image) (object end)
    b2 ← set (codes "Env") env b1
    b3 ← set (codes "ExposedPorts") ports.0 b2
    set (codes "HostConfig") host_config b3
