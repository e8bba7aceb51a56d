-- ===== src/Docker/Services.antt =====
-- Containers with names and networks, as the Docker Engine API documents them, and the methods of
-- `DockerClient` for service containers against that.
pub mod Create
use expo_builder_local.Prelude.{
  ℕ, Bytes, ◌++◌, Bool, true, false, ◌||◌, ◌==◌, Option, none, some, codes, text, ◌≡◌, ◌≢◌, refl,
  sym, ◌∙◌, ap, ◌⊎◌, inl, inr, arith, Bool-cases, if◌then◌else◌,
}
use expo_builder_local.Exception.{Result, ok, err, stuck}
use expo_builder_local.Steps.{and_then, and_then_ok, check_ok, lift_ok, ret_ok, check, lift}
use expo_builder_local.Url.{url_encode}
use expo_builder_local.Config.{is_empty}
use expo_builder_local.Json.Value.{Json}
use expo_builder_local.Json.Dump.{dump}
use expo_builder_local.Docker.Http.{HttpResponse, Request, Machine, plain, post_json}
use expo_builder_local.Docker.Params.{ServiceContainerSpec}
use expo_builder_local.Docker.Bodies.{network_body, service_body}
use expo_builder_local.Docker.Replies.{read_id}
use expo_builder_local.Docker.Client.Laws.{send_only_ok}
use expo_builder_local.Docker.Client.{
  send_expecting, send_only, inspect_request, inspected, find_container_id_by_name,
  remove_container, remove_found, remove_container_by_name, create_network, ensure_network,
  join_network, created, create_service_container,
}

abbrev pub delete_request : Bytes → Request
delete_request id = plain (codes "DELETE") (codes "/containers/" ++ id ++ codes "?force=1")

abbrev pub network_request : Bytes → Request
network_request name = plain (codes "GET") (codes "/networks/" ++ name)

abbrev pub network_create_request : Bytes → Request
network_create_request body = post_json (codes "/networks/create") body

abbrev pub create_request : Bytes → Bytes → Request
create_request name body = post_json (codes "/containers/create?name=" ++ url_encode name) body

-- The daemon's containers and networks, and what its API documents of the requests on them. A
-- response with another status than these promises nothing.
pub record Engine (machine : Machine) : Type 1 where
  -- a name that is no prefix of a container's id
  pub IsName : Bytes → Type 0
  -- the id of the container of a name
  pub named : machine.World → Bytes → Option Bytes
  -- whether a request for a network of the name finds one, by its name or its id
  pub has_network : machine.World → Bytes → Bool
  -- two containers have different ids
  pub named_once :
      (w : machine.World) (n m id : Bytes) → named w n ≡ some id → named w m ≡ some id → n ≡ m
  pub inspect_404 :
      (w w' : machine.World) (name : Bytes) (res : HttpResponse)
      → IsName name
      → machine.send (inspect_request machine name) w ≡ (ok res, w')
      → res.status ≡ 404
      → named w name ≡ none
  pub inspect_200 :
      (w w' : machine.World) (name id : Bytes) (res : HttpResponse)
      → IsName name
      → machine.send (inspect_request machine name) w ≡ (ok res, w')
      → res.status ≡ 200
      → read_id machine.doubles res.body ≡ ok id
      → named w name ≡ some id
  pub inspect_keeps :
      (w w' : machine.World) (name : Bytes) (res : HttpResponse)
      → IsName name
      → machine.send (inspect_request machine name) w ≡ (ok res, w')
      → (n : Bytes) → named w' n ≡ named w n
  -- after 204 and 404 there is no container of the id, and the others are as before, if the id was
  -- that of a container
  pub delete_gone :
      (w w' : machine.World) (id : Bytes) (res : HttpResponse)
      → machine.send (delete_request id) w ≡ (ok res, w')
      → (res.status == 204 || res.status == 404) ≡ true
      → (n : Bytes) → named w n ≡ some id
      → named w' n ≡ none
  pub delete_keeps :
      (w w' : machine.World) (id : Bytes) (res : HttpResponse)
      → machine.send (delete_request id) w ≡ (ok res, w')
      → (n m : Bytes) → named w m ≡ some id
      → named w n ≢ some id
      → named w' n ≡ named w n
  pub network_200 :
      (w w' : machine.World) (name : Bytes) (res : HttpResponse)
      → machine.send (network_request name) w ≡ (ok res, w')
      → (res.status == 200) ≡ true
      → has_network w' name ≡ true
  pub network_keeps :
      (w w' : machine.World) (name : Bytes) (res : HttpResponse)
      → machine.send (network_request name) w ≡ (ok res, w')
      → (n : Bytes) → named w' n ≡ named w n
  pub network_201 :
      (w w' : machine.World) (name : Bytes) (body : Json machine.doubles.Double)
      (res : HttpResponse)
      → network_body name ≡ ok body
      → machine.send (network_create_request (dump machine.doubles body)) w ≡ (ok res, w')
      → (res.status == 201) ≡ true
      → has_network w' name ≡ true
  pub network_create_keeps :
      (w w' : machine.World) (body : Bytes) (res : HttpResponse)
      → machine.send (network_create_request body) w ≡ (ok res, w')
      → (n : Bytes) → named w' n ≡ named w n
  -- The daemon refuses a name that is in use with 409, so that 201 is for a name that is free.
  pub create_201 :
      (w w' : machine.World) (name body id : Bytes) (res : HttpResponse)
      → IsName name
      → named w name ≡ none
      → machine.send (create_request name body) w ≡ (ok res, w')
      → (res.status == 201) ≡ true
      → read_id machine.doubles res.body ≡ ok id
      → named w' name ≡ some id
  pub create_keeps :
      (w w' : machine.World) (name body : Bytes) (res : HttpResponse)
      → IsName name
      → machine.send (create_request name body) w ≡ (ok res, w')
      → ((n : Bytes) → n ≢ name → named w' n ≡ named w n)
        × ((n : Bytes) → has_network w' n ≡ has_network w n)

module _ (machine : Machine) (engine : Engine machine) where
  open machine use {World, send, doubles}
  open engine use {IsName, named, has_network}

  -- Every container but those of one name is as before.
  abbrev pub OthersKept : Bytes → World → World → Type 0
  OthersKept name w w' = (n : Bytes) → n ≢ name → named w' n ≡ named w n

  inspected_ok :
      (name : Bytes) (w w1 w' : World) (res : HttpResponse) (o : Option Bytes)
      → IsName name
      → send (inspect_request machine name) w ≡ (ok res, w1)
      → inspected machine name res w1 ≡ (ok o, w')
      → (named w name ≡ o) × (w1 ≡ w')
  unfolding inspected
  inspected_ok name w w1 w' res o hn hs h = elim (Bool-cases (res.status == 404)) [
    | inl e ↦
        let (q, same) = ret_ok none w1 (rw e at h) in
        (engine.inspect_404 w w1 name res hn hs (ground (arith, e)) ∙ q, same)
    | inr e ↦
        let (u, w2, e1, h1) = and_then_ok _ _ (rw e at h) in
        let (fine, same1) = check_ok (res.status == 200) _ w1 e1 in
        let (id, w3, e2, h2) = and_then_ok _ _ h1 in
        let (read, same2) = lift_ok _ w2 e2 in
        let (q, same3) = ret_ok (some id) w3 h2 in
        (
          engine.inspect_200 w w1 name id res hn hs (ground (arith, fine)) read ∙ q,
          same1 ∙ (same2 ∙ same3),
        )
  ]

  find_ok :
      (name : Bytes) (w w' : World) (o : Option Bytes)
      → IsName name
      → find_container_id_by_name machine name w ≡ (ok o, w')
      → (named w name ≡ o) × ((n : Bytes) → named w' n ≡ named w n)
  unfolding find_container_id_by_name
  find_ok name w w' o hn h =
      let (res, w1, e1, h1) = and_then_ok _ _ h in
      let (q, same) = inspected_ok name w w1 w' res o hn e1 h1 in
      (q, λ n. ap (λ v. named v n) (sym same) ∙ engine.inspect_keeps w w1 name res hn e1 n)

  remove_ok :
      (id : Bytes) (w w' : World)
      → remove_container machine id w ≡ (ok tt, w')
      → ((n : Bytes) → named w n ≡ some id → named w' n ≡ none)
        × ((n m : Bytes) → named w m ≡ some id → named w n ≢ some id → named w' n ≡ named w n)
  unfolding remove_container
  remove_ok id w w' h =
      let (res, sent, fine) = send_only_ok machine _ _ _ w w' h in
      (
        λ n k. engine.delete_gone w w' id res sent fine n k,
        λ n m k l. engine.delete_keeps w w' id res sent n m k l,
      )

  remove_found_ok :
      (name : Bytes) (w w1 w' : World) (o : Option Bytes)
      → named w name ≡ o
      → ((n : Bytes) → named w1 n ≡ named w n)
      → remove_found machine o w1 ≡ (ok tt, w')
      → (named w' name ≡ none) × OthersKept name w w'
  unfolding remove_found
  remove_found_ok name w w1 w' none e keeps h =
      let (q, same) = ret_ok tt w1 h in (rw same at (keeps name ∙ e), λ n k. rw same at (keeps n))
  remove_found_ok name w w1 w' (some id) e keeps h =
      let (gone, kept) = remove_ok id w1 w' h in
      (
        gone name (keeps name ∙ e),
        λ n k.
            kept n name (keeps name ∙ e)
              (λ p. k (engine.named_once w n name id (sym (keeps n) ∙ p) e))
            ∙ keeps n,
      )

  -- `removeContainerByName` leaves no container of the name, if it returns, and every container of
  -- another name as it was.
  pub remove_by_name_ok :
      (name : Bytes) (w w' : World)
      → IsName name
      → remove_container_by_name machine name w ≡ (ok tt, w')
      → (named w' name ≡ none) × OthersKept name w w'
  unfolding remove_container_by_name
  remove_by_name_ok name w w' hn h =
      let (o, w1, e1, h1) = and_then_ok _ _ h in
      let (q, keeps) = find_ok name w w1 o hn e1 in remove_found_ok name w w1 w' o q keeps h1
