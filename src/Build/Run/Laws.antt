-- ===== src/Build/Run/Laws.antt =====
-- Where the image of a build comes from, and what its result says.
use expo_builder_local.Prelude.{
  ℕ, zero, suc, Bytes, List, [], ◌∷◌, Bool, true, false, ◌==◌, codes, ◌≡◌, ◌≢◌, refl, ◌⊎◌, inl, inr,
  ◌↔◌, Bool-cases, arith,
}
use expo_builder_local.Prelude.Int.{ℤ, pos, negsuc}
use expo_builder_local.Exception.{Exception, Result, ok, err, call, ◌>>=◌}
use expo_builder_local.Doubles.{Doubles}
use expo_builder_local.Steps.{lift, handled}
use expo_builder_local.Tar.{Directory}
use expo_builder_local.Config.{is_empty}
use expo_builder_local.Json.Value.{Json, boolean}
use expo_builder_local.Json.Access.{get, lookup, set, set_field}
use expo_builder_local.Docker.Http.{Machine}
use expo_builder_local.Docker.Client.{image_exists, remove_container}
use expo_builder_local.Docker.Streams.{PullEvent, build_image, pull_image}
use expo_builder_local.Build.Options.{Options}
use expo_builder_local.Build.Log.{Log}
use expo_builder_local.Build.Run.{conclude}
use expo_builder_local.Build.Run.Summary.{
  ArtifactMetrics, is_zero, final_error, success_json, failure_json, has_succeeded, thrown_result,
  summary,
}

module _ (machine : Machine) (context : Result Directory) (tag : Bytes) where
  open machine use {World}

  -- The image was pulled.
  abbrev pub Pulled : World → World → Type 0
  Pulled w w' = (events : List PullEvent) × (pull_image machine tag w ≡ (ok events, w'))

  -- The image was there.
  abbrev pub Cached : World → World → Type 0
  Cached w w' = image_exists machine tag w ≡ (ok true, w')

  -- The image was not there, and was built from the context.
  abbrev pub Built : World → World → Type 0
  Built w w' =
      (w1 : World) × (dir : Directory) × (logged : List Bytes) × (image_exists machine tag w
        ≡ (ok false, w1))
      × (context ≡ ok dir)
      × (build_image machine dir tag false w1 ≡ (ok logged, w'))

  -- The pull threw, and left the world so.
  abbrev pub PullFailed : World → World → Type 0
  PullFailed w w' = (e : Exception) × (pull_image machine tag w ≡ (err e, w'))

is_zero→eq : (z : ℤ) → is_zero z ≡ true → z ≡ pos 0
unfolding is_zero
is_zero→eq (pos zero) h = refl
is_zero→eq (pos (suc n)) h = cc
is_zero→eq (negsuc n) h = cc

non-empty : (s : Bytes) → is_empty s ≡ false → s ≢ []
unfolding is_empty
non-empty [] h = λ p. cc
non-empty (c ∷ s) h = λ p. cc

is_empty-false : (s : Bytes) → s ≢ [] → is_empty s ≡ false
unfolding is_empty
is_empty-false [] h = absurd (h refl)
is_empty-false (c ∷ s) h = refl

module _ (fp : Doubles) where
  -- The object of a call that returns one, with its member "success".
  abbrev Says : Bool → Result (Json fp.Double) → Type 0
  Says b r = (j : Json fp.Double) × (r ≡ ok j) × (get (codes "success") j ≡ boolean b)

  success-Says :
      (opts : Options) (log : Log) (duration : ℕ) (metrics : ArtifactMetrics)
      → Says true (success_json fp opts log duration metrics)
  unfolding success_json set set_field get lookup
  success-Says opts log duration metrics = (_, refl, refl)

  failure-Says : (message : Bytes) (duration : ℕ) → Says false (failure_json fp message duration)
  unfolding failure_json set set_field get lookup
  failure-Says message duration = (_, refl, refl)

  succeeded_iff :
      (status : ℤ) (log : Log)
      → (has_succeeded fp status log ≡ true) ↔ ((status ≡ pos 0) × (log.artifact_path ≢ []))
  unfolding has_succeeded
  succeeded_iff status log = (
    λ h. (is_zero→eq status (ground arith), non-empty log.artifact_path (ground arith)),
    λ (e, k).
        let z : is_zero status ≡ true = unfold is_zero in rw e refl in
        rw (z, is_empty-false log.artifact_path k) refl,
  )

  thrown-Says :
      (message : Bytes)
      → (j : Json fp.Double) × (thrown_result fp message ≡ ok (1, j))
        × (get (codes "success") j ≡ boolean false)
  unfolding thrown_result set set_field get lookup
  thrown-Says message = (_, refl, refl)

  -- What the result of a build says: "success" is true exactly for exit code 0.
  abbrev pub SaysCode : ℕ × Json fp.Double → Type 0
  SaysCode (code, j) = get (codes "success") j ≡ boolean (code == 0)

module _ (machine : Machine) (what : Exception → Bytes) where
  open machine use {World, doubles}

  -- The container was removed, its status was 0, it had told an artifact, and the metrics of the
  -- artifact could be read.
  abbrev pub IsDone : ℤ → Log → Exception ⊎ ArtifactMetrics → Exception ⊎ Unit {0} → Type 0
  IsDone status log metrics removed =
      (removed ≡ inr tt)
      × (status ≡ pos 0)
      × (log.artifact_path ≢ [])
      × ((m : ArtifactMetrics) × (metrics ≡ inr m))

  -- A result for a build that was not cancelled, with the world that it leaves.
  abbrev pub Concludes :
      ℤ
      → Log
      → Exception ⊎ ArtifactMetrics
      → Exception ⊎ Unit {0}
      → Result (ℕ × Json doubles.Double) × World
      → World
      → Type 0
  Concludes status log metrics removed outcome w' =
      (result : ℕ × Json doubles.Double) × (outcome ≡ (ok result, w'))
      × SaysCode doubles result
      × ((result.0 ≡ 0) ↔ IsDone status log metrics removed)

  one-ne-zero : {A : Type 0} → ◌≡◌ {A = ℕ} 1 0 → A
  one-ne-zero h = absurd (omega (arith, h))

  summary-Concludes :
      (opts : Options) (status : ℤ) (log : Log) (duration : ℕ)
      (metrics : Exception ⊎ ArtifactMetrics) (w : World)
      → Concludes status log metrics
          (inr tt)
          (handled
            (lift (summary doubles opts status log duration metrics) w)
            (λ e. lift (thrown_result doubles (what e))))
          w
  unfolding summary
  summary-Concludes opts status log duration metrics w =
      elim (Bool-cases (has_succeeded doubles status log)) [
        | inr e ↦
            let (j, made, told) = failure-Says doubles (final_error log status) duration in
            (
              (1, j),
              rw (e, made) refl,
              told,
              (
                λ c. one-ne-zero c,
                λ (r, s, p, m). let f = (succeeded_iff doubles status log).1 (s, p) in absurd (cc),
              ),
            )
        | inl e ↦ rw e (with_metrics metrics e)
      ]
    where
      with_metrics :
          (metrics : Exception ⊎ ArtifactMetrics)
          → has_succeeded doubles status log ≡ true
          → Concludes status log metrics
              (inr tt)
              (handled
                (lift
                  (call metrics >>= λ m.
                    success_json doubles opts log duration m >>= λ j. ok (0, j))
                  w)
                (λ x. lift (thrown_result doubles (what x))))
              w
      with_metrics (inl x) e =
          let (j, made, told) = thrown-Says doubles (what x) in
          ((1, j), rw made refl, told, (λ c. one-ne-zero c, λ (r, s, p, (m, q)). absurd (cc)))
      with_metrics (inr m) e =
          let (j, made, told) = success-Says doubles opts log duration m in
          let (zero_status, named) = (succeeded_iff doubles status log).0 e in
          ((0, j), rw made refl, told, (λ c. (refl, zero_status, named, (m, refl)), λ d. refl))

  -- After the run of a build that was not cancelled, whatever the removal of the container and the
  -- reading of the artifact's metrics throw or return, there is a result. Its exit code is 0 exactly
  -- if the container was removed, its status was 0, it had told an artifact, and the metrics could be
  -- read; and "success" is true exactly for exit code 0.
  pub conclude-Concludes :
      (opts : Options) (id : Bytes) (status : ℤ) (log : Log) (duration : ℕ)
      (metrics : Exception ⊎ ArtifactMetrics) (removed : Exception ⊎ Unit {0}) (w w' : World)
      → remove_container machine id w ≡ (call removed, w')
      → Concludes status log metrics removed
          (conclude machine what opts id status log duration metrics w)
          w'
  unfolding conclude
  conclude-Concludes opts id status log duration metrics (inr u) w w' h =
      rw h (summary-Concludes opts status log duration metrics w')
  conclude-Concludes opts id status log duration metrics (inl x) w w' h =
      let (j, made, told) = thrown-Says doubles (what x) in
      ((1, j), rw (h, made) refl, told, (λ c. one-ne-zero c, λ (r, s, p, m). absurd (cc)))
