-- ===== src/Docker/Services/Create.antt =====
-- `ensureNetwork` and `createServiceContainer` against the daemon's containers and networks.
use expo_builder_local.Prelude.{
  Bytes, true, false, ◌==◌, none, ◌≡◌, sym, ◌∙◌, ap, inl, inr, Bool-cases,
}
use expo_builder_local.Exception.{ok}
use expo_builder_local.Steps.{lift, and_then_ok, lift_ok, ret_ok}
use expo_builder_local.Config.{is_empty}
use expo_builder_local.Docker.Http.{HttpResponse, Machine}
use expo_builder_local.Docker.Params.{ServiceContainerSpec}
use expo_builder_local.Json.Value.{Json}
use expo_builder_local.Json.Dump.{dump}
use expo_builder_local.Docker.Bodies.{network_body, service_body}
use expo_builder_local.Docker.Client.{create_network, ensure_network}
use expo_builder_local.Docker.Client.Laws.{send_only_ok}
use expo_builder_local.Docker.Services.{Engine, create_request, network_request}

module _ (machine : Machine) (engine : Engine machine) where
  open machine use {World, send, doubles}
  open engine use {IsName, named, has_network}

  -- The containers are as before, and there is a network of the name.
  abbrev Networked : Bytes → World → World → Type 0
  Networked network w w' = ((n : Bytes) → named w' n ≡ named w n) × (has_network w' network ≡ true)

  create_network-Networked :
      (name : Bytes) (w w' : World)
      → create_network machine name w ≡ (ok tt, w')
      → Networked name w w'
  unfolding create_network
  create_network-Networked name w w' h =
      let (body, w1, e1, h1) = and_then_ok (lift (network_body name) w) _ h in
      let (made, same1) = lift_ok (network_body name) w e1 in
      let (res, sent, fine) = send_only_ok machine _ _ _ w1 w' h1 in
      (
        λ n. engine.network_create_keeps w1 w' _ res sent n ∙ ap (λ v. named v n) (sym same1),
        engine.network_201 w1 w' name body res made sent fine,
      )

  pub ensure_network-Networked :
      (name : Bytes) (w w' : World)
      → ensure_network machine name w ≡ (ok tt, w')
      → Networked name w w'
  unfolding ensure_network
  ensure_network-Networked name w w' h =
      let (res, w1, e1, h1) = and_then_ok (send (network_request name) w) _ h in
      elim (Bool-cases (res.status == 200)) [
        | inl e ↦
            let (q, same) = ret_ok tt w1 (rw e at h1) in
            (
              λ n. rw same at (engine.network_keeps w w1 name res e1 n),
              rw same at (engine.network_200 w w1 name res e1 e),
            )
        | inr e ↦
            let (kept, there) = create_network-Networked name w1 w' (rw e at h1) in
            (λ n. kept n ∙ engine.network_keeps w w1 name res e1 n, there)
      ]

  -- The last change of the daemon's containers is a request to create one of the specification, sent
  -- where no container has its name and its network exists, if it names one.
  abbrev pub CreatesWhereFree : ServiceContainerSpec → World → Type 0
  CreatesWhereFree spec w' =
      (w : World) × (body : Json doubles.Double) × (res : HttpResponse) × (service_body spec
        ≡ ok body)
      × (named w spec.name ≡ none)
      × (is_empty spec.network ≡ false → has_network w spec.network ≡ true)
      × (send (create_request spec.name (dump doubles body)) w ≡ (ok res, w'))
