-- ===== src/Docker/Streams/Laws.antt =====
-- What a stream of events makes of the calls that read it, and how an image's tag is split.
use expo_builder_local.Prelude.{
  ℕ, Bytes, List, [], ◌∷◌, ◌++◌, Bool, true, false, ◌==◌, ◌||◌, Option, none, some, codes, ◌≡◌, ◌≢◌,
  refl, sym, ◌∙◌, ap, arith, inl, inr, ◌⊎◌, Bool-cases, ==_iff, All,
}
use expo_builder_local.Exception.{
  Result, ok, err, stuck, Exception, json_error, runtime_error, invalid_argument, out_of_range,
}
use expo_builder_local.Steps.{lift, and_then_ok, check_ok, lift_ok, ret_ok}
use expo_builder_local.Config.{is_empty}
use expo_builder_local.Tar.{Directory, create_tar}
use expo_builder_local.Lines.{feed, feed_all}
use expo_builder_local.Lines.Laws.{concat, feed_all-feed, feed_all-ne-stuck}
use expo_builder_local.Json.Parser.Total.{parse-ne-stuck}
use expo_builder_local.Docker.Http.{Request, Machine, plain}
use expo_builder_local.Docker.Streams.{
  is_newline, Progress, PullEvent, started, colon_before, last_colon, has_slash, tagged, split_tag,
  on_build_line, on_pull_line, build_handler, pull_handler, stream_lines, finish, run_stream, Value,
  build_request, build_image, pull_path, pull_image,
}

empty-eq : (s : Bytes) → is_empty s ≡ true → s ≡ []
unfolding is_empty
empty-eq [] h = refl
empty-eq (c ∷ s) h = cc

module _ (machine : Machine) where
  open machine use {World, open_stream, doubles}

  -- The stream of a request, read as one text, leaves the progress, and it ends with the status.
  abbrev pub Reads :
      {Call : Type 0}
      → (Bytes → Progress Call → Result (Progress Call))
      → Request
      → World
      → Progress Call
      → ℕ
      → World
      → Type 0
  Reads handle request w progress status w' =
      (rest : Bytes) × (feed is_newline handle (concat (open_stream request w).0.chunks)
          ([], started)
        ≡ ok (rest, progress))
      × ((open_stream request w).0.ending ≡ ok status)
      × ((open_stream request w).1 ≡ w')

  stream_lines-Reads :
      {Call : Type 0} (handle : Bytes → Progress Call → Result (Progress Call)) (request : Request)
      (w w' : World) (progress : Progress Call) (status : ℕ)
      → stream_lines machine handle request w ≡ (ok (progress, status), w')
      → Reads handle request w progress status w'
  unfolding stream_lines
  stream_lines-Reads handle request w w' progress status h =
      let delivery = (open_stream request w).0 in
      let (buffer, w1, e1, h1) =
        and_then_ok
          (feed_all is_newline handle delivery.chunks ([], started), (open_stream request w).1) _
          h in
      let (read, same1) =
        lift_ok (feed_all is_newline handle delivery.chunks ([], started)) (open_stream request w).1
          e1 in
      let (end_status, w2, e2, h2) = and_then_ok (lift delivery.ending w1) _ h1 in
      let (ended, same2) = lift_ok delivery.ending w1 e2 in
      let (q, same3) = ret_ok (buffer.1, end_status) w2 h2 in
      (
        buffer.0,
        sym (feed_all-feed is_newline handle delivery.chunks [] started tt)
            ∙ (read ∙ ap (λ p. ok (buffer.0, p)) (ap (λ x. x.0) q)),
        ended ∙ ap (λ x. ok x.1) q,
        same1 ∙ (same2 ∙ same3),
      )

  finish_ok :
      {Call : Type 0} (failed : Bytes → Exception) (refused : ℕ → Exception) (p : Progress Call)
      (status : ℕ) (calls : List Call) (w w' : World)
      → finish machine failed refused p status w ≡ (ok calls, w')
      → (p ≡ record { calls = calls; first_error = [] }) × (status ≡ 200) × (w ≡ w')
  unfolding finish
  finish_ok {Call} failed refused p status calls w w' h =
      let (u1, w1, e1, h1) = and_then_ok _ _ h in
      let (none_told, same1) = check_ok (is_empty p.first_error) _ w e1 in
      let (u2, w2, e2, h2) = and_then_ok _ _ h1 in
      let (fine, same2) = check_ok (status == 200) _ w1 e2 in
      let (q, same3) = ret_ok p.calls w2 h2 in
      (
        ap {A = Bytes} {B = Progress Call} (λ e. record p { first_error = e })
              (empty-eq p.first_error none_told)
            ∙ ap {A = List Call} {B = Progress Call} (λ c. record { calls = c; first_error = [] })
                q,
        ground (arith, fine),
        same1 ∙ (same2 ∙ same3),
      )

  run_stream-Reads :
      {Call : Type 0} (handle : Bytes → Progress Call → Result (Progress Call)) (request : Request)
      (failed : Bytes → Exception) (refused : ℕ → Exception) (w w' : World) (calls : List Call)
      → run_stream machine handle request failed refused w ≡ (ok calls, w')
      → Reads handle request w (record { calls = calls; first_error = [] }) 200 w'
  unfolding run_stream
  run_stream-Reads handle request failed refused w w' calls h =
      let (streamed, w1, e1, h1) = and_then_ok (stream_lines machine handle request w) _ h in
      let (p, status, same) = finish_ok failed refused streamed.0 streamed.1 calls w1 w' h1 in
      let (rest, read, ended, left) =
        stream_lines-Reads handle request w w1 streamed.0 streamed.1 e1 in
      (rest, read ∙ ap (λ x. ok (rest, x)) p, ended ∙ ap ok status, left ∙ same)

  -- What the stream gave to a `buildImage` that returns.
  pub build_image-Reads :
      (dir : Directory) (tag : Bytes) (no_cache : Bool) (w w' : World) (calls : List Bytes)
      → build_image machine dir tag no_cache w ≡ (ok calls, w')
      → (tar : Bytes) × (create_tar dir ≡ ok tar)
        × Reads
            (build_handler machine)
            (build_request machine tag no_cache tar)
            w
            (record { calls = calls; first_error = [] })
            200
            w'
  unfolding build_image
  build_image-Reads dir tag no_cache w w' calls h =
      let (tar, w1, e1, h1) = and_then_ok (lift (create_tar dir) w) _ h in
      let (archived, same1) = lift_ok (create_tar dir) w e1 in
      (tar, archived, rw (← same1) at (run_stream-Reads _ _ _ _ w1 w' calls h1))

  -- What the stream gave to a `pullImage` that returns.
  pub pull_image-Reads :
      (tag : Bytes) (w w' : World) (calls : List PullEvent)
      → pull_image machine tag w ≡ (ok calls, w')
      → Reads
          (pull_handler machine)
          (plain (codes "POST") (pull_path machine tag))
          w
          (record { calls = calls; first_error = [] })
          200
          w'
  unfolding pull_image
  pull_image-Reads tag w w' calls h = run_stream-Reads _ _ _ _ w w' calls h

  on_build_line-ne-stuck :
      (line : Bytes) (r : Result (Value machine)) (p : Progress Bytes)
      → r ≢ stuck
      → on_build_line line r p ≢ stuck
  unfolding on_build_line
  on_build_line-ne-stuck line (ok event) p h = λ e. cc
  on_build_line-ne-stuck line (err (json_error what)) p h = λ e. cc
  on_build_line-ne-stuck line (err (runtime_error what)) p h = λ e. cc
  on_build_line-ne-stuck line (err invalid_argument) p h = λ e. cc
  on_build_line-ne-stuck line (err out_of_range) p h = λ e. cc
  on_build_line-ne-stuck line stuck p h = absurd (h refl)

  build_handler-ne-stuck :
      (line : Bytes) (p : Progress Bytes) → build_handler machine line p ≢ stuck
  unfolding build_handler
  build_handler-ne-stuck [] p = λ e. cc
  build_handler-ne-stuck (c ∷ s) p =
      on_build_line-ne-stuck (c ∷ s) _ p (parse-ne-stuck doubles (c ∷ s))

  on_pull_line-ne-stuck :
      (r : Result (Value machine)) (p : Progress PullEvent)
      → r ≢ stuck
      → on_pull_line machine r p ≢ stuck
  unfolding on_pull_line
  on_pull_line-ne-stuck (ok event) p h = λ e. cc
  on_pull_line-ne-stuck (err (json_error what)) p h = λ e. cc
  on_pull_line-ne-stuck (err (runtime_error what)) p h = λ e. cc
  on_pull_line-ne-stuck (err invalid_argument) p h = λ e. cc
  on_pull_line-ne-stuck (err out_of_range) p h = λ e. cc
  on_pull_line-ne-stuck stuck p h = absurd (h refl)

  pull_handler-ne-stuck :
      (line : Bytes) (p : Progress PullEvent) → pull_handler machine line p ≢ stuck
  unfolding pull_handler
  pull_handler-ne-stuck [] p = λ e. cc
  pull_handler-ne-stuck (c ∷ s) p = on_pull_line-ne-stuck _ p (parse-ne-stuck doubles (c ∷ s))

  -- The loops of `buildImage` and `pullImage` end on every stream of chunks, whatever its bytes are.
  pub streams-ne-stuck :
      (chunks : List Bytes)
      → (feed_all is_newline (build_handler machine) chunks ([], started) ≢ stuck)
        × (feed_all is_newline (pull_handler machine) chunks ([], started) ≢ stuck)
  streams-ne-stuck chunks = (
    feed_all-ne-stuck is_newline (build_handler machine) chunks [] started tt
        build_handler-ne-stuck,
    feed_all-ne-stuck is_newline (pull_handler machine) chunks [] started tt pull_handler-ne-stuck,
  )

colon_before_lem :
    (c : ℕ) (s before after : Bytes) (o : Option (Bytes × Bytes))
    → colon_before c s o ≡ some (before, after)
    → ((b a : Bytes) → o ≡ some (b, a) → b ++ b':' ∷ a ≡ s)
    → before ++ b':' ∷ after ≡ c ∷ s
unfolding colon_before
colon_before_lem c s before after (some (b, a)) h k =
    let p : c ∷ b ≡ before = cc in
    let q : a ≡ after = cc in rw (← p, ← q) (ap (λ l. c ∷ l) (k b a refl))
colon_before_lem c s before after none h k = elim (Bool-cases (c == b':')) [
  | inl e ↦
      let g : ◌≡◌ {A = Option (Bytes × Bytes)} (some ([], s)) (some (before, after)) = rw e at h in
      let p : [] ≡ before = cc in
      let q : s ≡ after = cc in
      rw (← p, ← q) (ap {A = ℕ} {B = Bytes} (λ d. d ∷ s) (sym ((==_iff c b':').0 e)))
  | inr e ↦ let g : ◌≡◌ {A = Option (Bytes × Bytes)} none (some (before, after)) = rw e at h in cc
]

last_colon_lem :
    (tag before after : Bytes)
    → last_colon tag ≡ some (before, after)
    → before ++ b':' ∷ after ≡ tag
unfolding last_colon
last_colon_lem [] before after h = cc
last_colon_lem (c ∷ s) before after h =
    colon_before_lem c s before after (last_colon s) h (λ b a e. last_colon_lem s b a e)

-- What the split of a reference promises.
abbrev pub IsSplit : Bytes → Bytes × Bytes → Type 0
IsSplit tag (repo, image_tag) =
    (has_slash image_tag ≡ false)
    × ((repo ++ b':' ∷ image_tag ≡ tag) ⊎ ((repo ≡ tag) × (image_tag ≡ codes "latest")))

tagged-IsSplit :
    (tag : Bytes) (o : Option (Bytes × Bytes)) → last_colon tag ≡ o → IsSplit tag (tagged tag o)
unfolding tagged has_slash
tagged-IsSplit tag none e = (refl, inr (refl, refl))
tagged-IsSplit tag (some (before, after)) e = elim (Bool-cases (has_slash after)) [
  | inl f ↦ rw f (refl, inr (refl, refl))
  | inr f ↦ rw f (f, inl (last_colon_lem tag before after e))
]

-- A reference with a colon and no slash behind its last colon is that of the repository and the tag;
-- every other is the repository, with the tag "latest". The tag has no slash.
split_tag-IsSplit : (tag : Bytes) → IsSplit tag (split_tag tag)
unfolding split_tag
split_tag-IsSplit tag = tagged-IsSplit tag (last_colon tag) refl

abbrev pub IsPlain : Bytes → Type 0
IsPlain s = All (λ c. (c == b':' || c == b'/') ≡ false) s

last_colon_plain : (s : Bytes) → IsPlain s → (last_colon s ≡ none) × (has_slash s ≡ false)
unfolding last_colon has_slash colon_before
last_colon_plain [] h = (refl, refl)
last_colon_plain (c ∷ s) (hc, h) = ground (arith, last_colon_plain s h)

last_colon-join :
    (repo image_tag : Bytes)
    → IsPlain image_tag
    → last_colon (repo ++ b':' ∷ image_tag) ≡ some (repo, image_tag)
unfolding last_colon colon_before
last_colon-join [] image_tag h = rw ((last_colon_plain image_tag h).0) refl
last_colon-join (c ∷ repo) image_tag h = rw (last_colon-join repo image_tag h) refl

-- The repository and the tag of a reference are found again, if the tag has no colon and no slash,
-- whatever colons the repository has, such as that of a registry's port.
pub split_tag-join :
    (repo image_tag : Bytes)
    → IsPlain image_tag
    → split_tag (repo ++ b':' ∷ image_tag) ≡ (repo, image_tag)
unfolding split_tag tagged
split_tag-join repo image_tag h =
    rw (last_colon-join repo image_tag h, (last_colon_plain image_tag h).1) refl
