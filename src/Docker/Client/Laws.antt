-- ===== src/Docker/Client/Laws.antt =====
-- When the methods of `DockerClient` return, and what they throw.
use expo_builder_local.Prelude.{
  ℕ, Bytes, ◌++◌, Bool, true, false, ◌||◌, ◌==◌, codes, text, ◌≡◌, refl, ◌∙◌,
}
use expo_builder_local.Exception.{Result, ok, err, stuck}
use expo_builder_local.Steps.{and_then, check, and_then_ok, check_ok, ret_ok}
use expo_builder_local.Url.{url_encode}
use expo_builder_local.Docker.Http.{HttpResponse, Request, Machine, plain}
use expo_builder_local.Docker.Replies.{http_error}
use expo_builder_local.Docker.Client.{
  send_expecting, send_only, remove_volume, remove_image, remove_container, start_container,
}

module _ (machine : Machine) where
  open machine use {World, send}

  -- What a method makes of the outcome of its request, where only the status counts: it returns on
  -- an expected status, throws `http_error` on another, and passes an exception on.
  abbrev pub StatusOutcome :
      (ℕ → Bool) → Bytes → Result HttpResponse × World → Result (Unit {0}) × World → Type 0
  StatusOutcome expected what (ok res, w) outcome =
      (expected res.status ≡ true → outcome ≡ (ok tt, w))
      × (expected res.status ≡ false → outcome ≡ (err (http_error what res.status res.body), w))
  StatusOutcome expected what (err e, w) outcome = outcome ≡ (err e, w)
  StatusOutcome expected what (stuck, w) outcome = outcome ≡ (stuck, w)

  answered :
      (expected : ℕ → Bool) (what : Bytes) (res : HttpResponse) (w : World) (b : Bool)
      → expected res.status ≡ b
      → StatusOutcome expected what
          (ok res, w)
          (and_then
            (and_then (check b (http_error what res.status res.body) w) (λ fine w2. (ok res, w2)))
            (λ res2 w2. (ok tt, w2)))
  answered expected what res w true e = (λ h. refl, λ h. absurd (cc h))
  answered expected what res w false e = (λ h. absurd (cc h), λ h. refl)

  outcome-StatusOutcome :
      (expected : ℕ → Bool) (what : Bytes) (r : Result HttpResponse × World)
      → StatusOutcome expected what r (
          and_then
            (and_then r (λ res w.
              and_then
                (check (expected res.status) (http_error what res.status res.body) w)
                (λ fine w2. (ok res, w2))))
            (λ res w. (ok tt, w)))
  outcome-StatusOutcome expected what (ok res, w) =
      answered expected what res w (expected res.status) refl
  outcome-StatusOutcome expected what (err e, w) = refl
  outcome-StatusOutcome expected what (stuck, w) = refl

  send_only-StatusOutcome :
      (expected : ℕ → Bool) (what : Bytes) (request : Request) (w : World)
      → StatusOutcome expected what (send request w) (send_only machine expected what request w)
  unfolding send_only send_expecting
  send_only-StatusOutcome expected what request w =
      outcome-StatusOutcome expected what (send request w)

  pub send_only_ok :
      (expected : ℕ → Bool) (what : Bytes) (request : Request) (w w' : World)
      → send_only machine expected what request w ≡ (ok tt, w')
      → (res : HttpResponse) × (send request w ≡ (ok res, w')) × (expected res.status ≡ true)
  unfolding send_only send_expecting
  send_only_ok expected what request w w' h =
      let (res1, w1, e1, h1) = and_then_ok _ _ h in
      let (res, w2, e2, h2) = and_then_ok (send request w) _ e1 in
      let (u, w3, e3, h3) = and_then_ok _ _ h2 in
      let (fine, same1) = check_ok (expected res.status) _ w2 e3 in
      let (q3, same2) = ret_ok res w3 h3 in
      let (q4, same3) = ret_ok tt w1 h1 in
      let same : w2 ≡ w' = same1 ∙ (same2 ∙ same3) in (res, rw same at e2, fine)

  -- `removeVolume` deletes the volume of the escaped name and returns exactly where the daemon
  -- answers 204 or 404, so that a missing volume is no error; `removeImage` the same with 200 or 404,
  -- `removeContainer` with 204 or 404, and `startContainer` with 204 or 304. On every other status
  -- they throw an exception with the status and the body, and an exception of the request is passed
  -- on. Each sends one request.
  pub removals-StatusOutcome :
      (name : Bytes) (w : World)
      → StatusOutcome
          (λ status. status == 204 || status == 404)
          (text "Failed to remove volume \"" ++ name ++ text "\"")
          (send (plain (codes "DELETE") (codes "/volumes/" ++ url_encode name)) w)
          (remove_volume machine name w)
        × StatusOutcome
            (λ status. status == 200 || status == 404)
            (text "Failed to remove image \"" ++ name ++ text "\"")
            (send (plain (codes "DELETE") (codes "/images/" ++ url_encode name)) w)
            (remove_image machine name w)
        × StatusOutcome
            (λ status. status == 204 || status == 404)
            (text "Failed to remove build container")
            (send (plain (codes "DELETE") (codes "/containers/" ++ name ++ codes "?force=1")) w)
            (remove_container machine name w)
        × StatusOutcome
            (λ status. status == 204 || status == 304)
            (text "Failed to start build container")
            (send (plain (codes "POST") (codes "/containers/" ++ name ++ codes "/start")) w)
            (start_container machine name w)
  unfolding remove_volume remove_image remove_container start_container
  removals-StatusOutcome name w = (
    send_only-StatusOutcome _ _ _ w,
    send_only-StatusOutcome _ _ _ w,
    send_only-StatusOutcome _ _ _ w,
    send_only-StatusOutcome _ _ _ w,
  )
