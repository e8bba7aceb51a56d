-- ===== src/Docker/Tests.antt =====
-- Runs of the Docker client, and its theorems at work.
use expo_builder_local.Prelude.{[], ◌∷◌, ◌++◌, true, false, ◌||◌, ◌==◌, codes, text, ◌≡◌, refl}
use expo_builder_local.Prelude.Int.{ℤ}
use expo_builder_local.Exception.{ok}
use expo_builder_local.Decimal.{read_int}
use expo_builder_local.Url.{url_encode}
use expo_builder_local.Json.Value.{Json, object}
use expo_builder_local.Json.Access.{at_key, as_string}
use expo_builder_local.Json.Dump.{dump}
use expo_builder_local.Json.Parser.{parse}
use expo_builder_local.Json.Integers.{ints, ints-PrintLaws}
use expo_builder_local.Docker.Http.{plain}
use expo_builder_local.Docker.Params.{ServiceContainerSpec}
use expo_builder_local.Docker.Bodies.Laws.{
  container_body_lem, parse-container_body, container_fields,
}
use expo_builder_local.Docker.Replies.{read_id, text_at}
use expo_builder_local.Docker.Client.{
  send_expecting, send_only, inspect_request, inspected, find_container_id_by_name,
  remove_container, remove_found, remove_container_by_name, remove_image, remove_volume,
  start_container,
}
use expo_builder_local.Docker.Client.Laws.{StatusOutcome, removals-StatusOutcome}
use expo_builder_local.Docker.Single.{State, web, web_id, single}

abbrev spec : ServiceContainerSpec
spec = record {
  name = web;
  image = codes "web:1";
  env = codes "A=1" ∷ [];
  binds = [];
  network = codes "ebl-net";
  port_bindings = (codes "3000/tcp", codes "3000") ∷ [];
}

abbrev before : State
before = record { present = true; networks = false }

abbrev after : State
after = record { present = true; networks = true }

abbrev removed : State
removed = record { present = false; networks = false }

remove_run : remove_container_by_name single web before ≡ (ok tt, removed)
unfolding remove_container_by_name find_container_id_by_name remove_found inspect_request inspected
    remove_container send_only send_expecting read_id parse read_int at_key text_at as_string
remove_run = refl

removals-StatusOutcome_example :
    StatusOutcome single
      (λ status. status == 204 || status == 404)
      (text "Failed to remove volume \"" ++ web_id ++ text "\"")
      (single.send (plain (codes "DELETE") (codes "/volumes/" ++ url_encode web_id)) before)
      (remove_volume single web_id before)
    × StatusOutcome single
        (λ status. status == 200 || status == 404)
        (text "Failed to remove image \"" ++ web_id ++ text "\"")
        (single.send (plain (codes "DELETE") (codes "/images/" ++ url_encode web_id)) before)
        (remove_image single web_id before)
    × StatusOutcome single
        (λ status. status == 204 || status == 404)
        (text "Failed to remove build container")
        (single.send
          (plain (codes "DELETE") (codes "/containers/" ++ web_id ++ codes "?force=1"))
          before)
        (remove_container single web_id before)
    × StatusOutcome single
        (λ status. status == 204 || status == 304)
        (text "Failed to start build container")
        (single.send
          (plain (codes "POST") (codes "/containers/" ++ web_id ++ codes "/start"))
          before)
        (start_container single web_id before)
removals-StatusOutcome_example = removals-StatusOutcome single web_id before

abbrev body : Json ℤ
body = object (container_fields (codes "/p") (codes "runner") (codes "A=\"1\"" ∷ []) [])

parse-container_body_example : parse ints (dump ints body) ≡ ok body
parse-container_body_example =
    parse-container_body ints ints-PrintLaws (codes "/p") (codes "runner") (codes "A=\"1\"" ∷ []) []
      (container_body_lem (codes "/p") (codes "runner") (codes "A=\"1\"" ∷ []) [])
