-- ===== src/Docker/Client.antt =====
-- The methods of `DockerClient` that send requests, without the streams.
pub mod Laws
use expo_builder_local.Prelude.{
  ℕ, Bytes, ◌++◌, Bool, true, false, ◌||◌, ◌==◌, ltb, List, Option, none, some, codes, text,
  if◌then◌else◌,
}
use expo_builder_local.Prelude.Int.{ℤ}
use expo_builder_local.Steps.{Step, ◌>>=◌, ret, lift, throw, check, catch}
use expo_builder_local.Url.{url_encode}
use expo_builder_local.Config.{is_empty}
use expo_builder_local.Json.Value.{Json}
use expo_builder_local.Json.Dump.{dump}
use expo_builder_local.Json.Parser.{parse}
use expo_builder_local.DockerStats.{ContainerStats}
use expo_builder_local.Docker.Http.{HttpResponse, Request, Machine, plain, post_json}
use expo_builder_local.Docker.Params.{
  app_path_label, BuildParams, ServiceContainerSpec, BuildContainerInfo,
}
use expo_builder_local.Docker.Bodies.{
  image_filters, label_filters, volume_body, network_body, container_body, container_env,
  container_binds, service_body,
}
use expo_builder_local.Docker.Replies.{
  http_error, false_on_json_error, message_of, read_images, read_first_id, read_infos, read_id,
  read_status_code, read_stats, read_running,
}

module _ (machine : Machine) where
  open machine use {World, send, doubles, windows}

  -- A request whose status `expected` accepts.
  unfoldable pub send_expecting : (ℕ → Bool) → Bytes → Request → Step World HttpResponse
  send_expecting expected what request = do
    res ← send request
    fine ← check (expected res.status) (http_error what res.status res.body)
    ret res

  -- `ping`, behind its catch
  unfoldable pub ping : Step World Bool
  ping =
      catch (do res ← send (plain (codes "GET") (codes "/_ping")); ret (res.status == 200))
        (λ e. ret false)

  unfoldable pub image_exists : Bytes → Step World Bool
  image_exists tag = do
    filters ← lift (image_filters tag)
    res ←
        send_expecting (λ status. status == 200) (text "Failed to query Docker images")
          (plain (codes "GET") (codes "/images/json?filters=" ++ url_encode (dump doubles filters)))
    count ← lift (read_images doubles res.body)
    ret (ltb 0 count)

  unfoldable pub find_running_build_container_by_app_path : Bytes → Step World (Option Bytes)
  find_running_build_container_by_app_path app_path = do
    filters ← lift (label_filters (app_path_label ++ codes "=" ++ app_path))
    res ←
        send_expecting (λ status. status == 200) (text "Failed to query Docker containers")
          (plain (codes "GET")
            (codes "/containers/json?filters=" ++ url_encode (dump doubles filters)))
    lift (read_first_id doubles res.body)

  unfoldable pub list_build_containers : Step World (List BuildContainerInfo)
  list_build_containers = do
    filters ← lift (label_filters app_path_label)
    res ←
        send_expecting (λ status. status == 200) (text "Failed to list build containers")
          (plain (codes "GET")
            (codes "/containers/json?all=1&filters=" ++ url_encode (dump doubles filters)))
    lift (read_infos doubles res.body)

  -- A request after which only the status counts.
  unfoldable pub send_only : (ℕ → Bool) → Bytes → Request → Step World (Unit {0})
  send_only expected what request = do res ← send_expecting expected what request; ret tt

  unfoldable pub remove_volume : Bytes → Step World (Unit {0})
  remove_volume name =
      send_only (λ status. status == 204 || status == 404)
        (text "Failed to remove volume \"" ++ name ++ text "\"")
        (plain (codes "DELETE") (codes "/volumes/" ++ url_encode name))

  unfoldable pub remove_image : Bytes → Step World (Unit {0})
  remove_image tag =
      send_only (λ status. status == 200 || status == 404)
        (text "Failed to remove image \"" ++ tag ++ text "\"")
        (plain (codes "DELETE") (codes "/images/" ++ url_encode tag))

  unfoldable pub ensure_volume : Bytes → Step World (Unit {0})
  ensure_volume name = do
    body ← lift (volume_body name)
    send_only (λ status. status == 201 || status == 200)
        (text "Failed to create Docker volume \"" ++ name ++ text "\"")
        (post_json (codes "/volumes/create") (dump doubles body))

  unfoldable pub create_network : Bytes → Step World (Unit {0})
  create_network name = do
    body ← lift (network_body name)
    send_only (λ status. status == 201)
        (text "Failed to create Docker network \"" ++ name ++ text "\"")
        (post_json (codes "/networks/create") (dump doubles body))

  unfoldable pub ensure_network : Bytes → Step World (Unit {0})
  ensure_network name = do
    existing ← send (plain (codes "GET") (codes "/networks/" ++ name))
    if existing.status == 200 then ret tt else create_network name

  -- the throw of a create request that another status than 201 answers
  unfoldable pub refused : Bytes → HttpResponse → Step World (Unit {0})
  refused what res = do
    message ← lift (message_of res.body (parse doubles res.body))
    throw (http_error what res.status message)

  unfoldable pub require_created : Bytes → HttpResponse → Step World (Unit {0})
  require_created what res = if res.status == 201 then ret tt else refused what res

  -- The id of the container that a create request made.
  unfoldable pub created : Bytes → HttpResponse → Step World Bytes
  created what res = do fine ← require_created what res; lift (read_id doubles res.body)

  unfoldable pub create_container : BuildParams → Bytes → Bytes → Bytes → ℕ → ℕ → Step World Bytes
  create_container params runner_image gradle_cache_volume npm_cache_volume build_uid build_gid = do
    body ← lift (
        container_body params.app_path runner_image (container_env params build_uid build_gid)
          (container_binds windows params gradle_cache_volume npm_cache_volume))
    res ← send (post_json (codes "/containers/create") (dump doubles body))
    created (text "Failed to create build container") res

  unfoldable pub start_container : Bytes → Step World (Unit {0})
  start_container id =
      send_only (λ status. status == 204 || status == 304) (text "Failed to start build container")
        (plain (codes "POST") (codes "/containers/" ++ id ++ codes "/start"))

  -- no timeout
  unfoldable pub wait_request : Bytes → Request
  wait_request id = record (plain (codes "POST") (codes "/containers/" ++ id ++ codes "/wait")) {
    timeout_seconds = 0;
  }

  unfoldable pub wait_container : Bytes → Step World ℤ
  wait_container id = do
    res ←
        send_expecting (λ status. status == 200) (text "Failed waiting for the build container")
          (wait_request id)
    lift (read_status_code doubles res.body)

  unfoldable pub stats_request : Bytes → Request
  stats_request id =
      record (plain (codes "GET") (codes "/containers/" ++ id ++ codes "/stats?stream=false")) {
        timeout_seconds = 10;
      }

  unfoldable pub get_container_stats : Bytes → Step World (ContainerStats doubles.Double)
  get_container_stats id = do
    res ←
        send_expecting (λ status. status == 200) (text "Failed to fetch container stats")
          (stats_request id)
    lift (read_stats doubles res.body)

  unfoldable pub remove_container : Bytes → Step World (Unit {0})
  remove_container id =
      send_only (λ status. status == 204 || status == 404) (text "Failed to remove build container")
        (plain (codes "DELETE") (codes "/containers/" ++ id ++ codes "?force=1"))

  unfoldable pub inspect_request : Bytes → Request
  inspect_request name = plain (codes "GET") (codes "/containers/" ++ name ++ codes "/json")

  -- what `findContainerIdByName` makes of the response
  unfoldable pub inspected : Bytes → HttpResponse → Step World (Option Bytes)
  inspected name res =
      let found = (do
        fine ← check (res.status == 200) (
            http_error (text "Failed to inspect container \"" ++ name ++ text "\"") res.status
              res.body)
        id ← lift (read_id doubles res.body)
        ret (some id)) in
      if res.status == 404 then ret none else found

  unfoldable pub find_container_id_by_name : Bytes → Step World (Option Bytes)
  find_container_id_by_name name = do res ← send (inspect_request name); inspected name res

  unfoldable pub is_container_running : Bytes → Step World Bool
  is_container_running id = do
    res ← send (inspect_request id)
    (if res.status == 200
        then lift (false_on_json_error (read_running doubles res.body))
        else ret false)

  unfoldable pub remove_found : Option Bytes → Step World (Unit {0})
  remove_found none = ret tt
  remove_found (some id) = remove_container id

  unfoldable pub remove_container_by_name : Bytes → Step World (Unit {0})
  remove_container_by_name name = do id ← find_container_id_by_name name; remove_found id

  unfoldable pub join_network : Bytes → Step World (Unit {0})
  join_network network = if is_empty network then ret tt else ensure_network network

  unfoldable pub create_service_container : ServiceContainerSpec → Step World Bytes
  create_service_container spec = do
    removed ← remove_container_by_name spec.name
    joined ← join_network spec.network
    body ← lift (service_body spec)
    res ←
        send
          (post_json (codes "/containers/create?name=" ++ url_encode spec.name) (dump doubles body))
    created (text "Failed to create \"" ++ spec.name ++ text "\"") res
