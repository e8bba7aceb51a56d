-- ===== src/Docker/Params.antt =====
-- The structs and constants of cli-cpp-legacy/src/docker_client.hpp.
use expo_builder_local.Prelude.{Bytes, List, Bool, codes}

-- kContainerAppDir
abbrev pub container_app_dir : Bytes
container_app_dir = codes "/work/app"

-- kAppPathLabel
abbrev pub app_path_label : Bytes
app_path_label = codes "com.expo-builder-local.app-path"

pub record KeystoreConfig : Type 0 where
  pub host_path : Bytes
  pub filename : Bytes
  pub store_password : Bytes
  pub key_alias : Bytes
  pub key_password : Bytes

pub record BuildParams : Type 0 where
  pub app_path : Bytes
  pub artifact_type : Bytes
  pub profile : Bytes
  pub engine : Bytes
  pub signing_mode : Bytes
  pub expo_token : Bytes
  pub has_keystore : Bool
  pub keystore : KeystoreConfig

pub record ServiceContainerSpec : Type 0 where
  pub name : Bytes
  pub image : Bytes
  pub env : List Bytes
  pub binds : List Bytes
  pub network : Bytes
  -- the container's port and the host's
  pub port_bindings : List (Bytes × Bytes)

-- `DockerClient::BuildContainerInfo`
pub record BuildContainerInfo : Type 0 where
  pub id : Bytes
  pub state : Bytes
