-- ===== src/Docker/Replies.antt =====
-- What the methods of `DockerClient` read from the bodies of responses.
use expo_builder_local.Prelude.{
  ℕ, zero, suc, Bytes, List, [], ◌∷◌, ◌++◌, Bool, false, ◌==◌, Option, none, some, codes, text,
  if◌then◌else◌,
}
use expo_builder_local.Prelude.Int.{ℤ, pos}
use expo_builder_local.Exception.{
  Exception, json_error, runtime_error, Result, ok, err, stuck, ◌>>=◌,
}
use expo_builder_local.Doubles.{Doubles}
use expo_builder_local.Decimal.{print_nat}
use expo_builder_local.Config.{to_int32}
use expo_builder_local.Json.Value.{Json}
use expo_builder_local.Json.Access.{at_key, at_index, as_string, as_bool, as_int, contains, size}
use expo_builder_local.Json.Parser.{parse}
use expo_builder_local.DockerStats.{ContainerStats, parse_docker_stats}
use expo_builder_local.Docker.Params.{BuildContainerInfo}

-- The exception for a status that a method does not expect, with the body of the response.
unfoldable pub http_error : Bytes → ℕ → Bytes → Exception
http_error what status body =
    runtime_error (what ++ text " (HTTP " ++ print_nat status ++ text "): " ++ body)

-- catch (const JsonError&)
unfoldable pub false_on_json_error : Result Bool → Result Bool
false_on_json_error (err (json_error what)) = ok false
false_on_json_error r = r

module _ {D : Type 0} where
  -- The text of a member of an object.
  unfoldable pub text_at : Bytes → Json D → Result Bytes
  text_at key value = do member ← at_key key value; ok (as_string [] member)

  unfoldable pub first_id : Json D → Result (Option Bytes)
  first_id containers =
      let first = (do
        container ← at_index 0 containers
        id ← text_at (codes "Id") container
        ok (some id)) in
      if size containers == 0 then ok none else first

  -- what the loop over the containers pushes for one of them
  unfoldable pub container_info : ℕ → Json D → Result BuildContainerInfo
  container_info i containers = do
    container ← at_index i containers
    id ← text_at (codes "Id") container
    state ← text_at (codes "State") container
    ok (record { id = id; state = state })

  -- the loop from index `i` on, with so many containers to go
  unfoldable pub container_infos : ℕ → ℕ → Json D → Result (List BuildContainerInfo)
  container_infos zero i containers = ok []
  container_infos (suc left) i containers = do
    info ← container_info i containers
    infos ← container_infos left (suc i) containers
    ok (info ∷ infos)

  -- The message of an error response: its member "message", or the whole body where there is none.
  unfoldable pub message_of : Bytes → Result (Json D) → Result Bytes
  message_of body (ok value) =
      let message = text_at (codes "message") value in
      if contains (codes "message") value then message else ok body
  message_of body (err (json_error what)) = ok body
  message_of body (err e) = err e
  message_of body stuck = stuck

module _ (fp : Doubles) where
  unfoldable pub read_images : Bytes → Result ℕ
  read_images body = do images ← parse fp body; ok (size images)

  unfoldable pub read_first_id : Bytes → Result (Option Bytes)
  read_first_id body = do containers ← parse fp body; first_id containers

  unfoldable pub read_infos : Bytes → Result (List BuildContainerInfo)
  read_infos body = do containers ← parse fp body; container_infos (size containers) 0 containers

  unfoldable pub read_id : Bytes → Result Bytes
  read_id body = do value ← parse fp body; text_at (codes "Id") value

  -- the exit code, as an int
  unfoldable pub read_status_code : Bytes → Result ℤ
  read_status_code body = do
    value ← parse fp body
    code ← at_key (codes "StatusCode") value
    ok (to_int32 (as_int fp (pos 0) code))

  unfoldable pub known_stats : Option (ContainerStats fp.Double) → Result (ContainerStats fp.Double)
  known_stats none = err (runtime_error (text "Malformed stats response from Docker"))
  known_stats (some stats) = ok stats

  unfoldable pub read_stats : Bytes → Result (ContainerStats fp.Double)
  read_stats body = do value ← parse fp body; known_stats (parse_docker_stats fp value)

  unfoldable pub read_running : Bytes → Result Bool
  read_running body = do
    value ← parse fp body
    state ← at_key (codes "State") value
    running ← at_key (codes "Running") state
    ok (as_bool false running)
