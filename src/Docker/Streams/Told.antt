-- ===== src/Docker/Streams/Told.antt =====
-- The errors that the events of a stream tell, and what `buildImage` and `pullImage` make of them.
use expo_builder_local.Prelude.{
  ℕ, Bytes, List, [], ◌∷◌, ◌++◌, Bool, true, false, codes, ◌≡◌, ◌≢◌, refl, sym, ◌∙◌, ap, All,
  Bool-cases, inl, inr,
}
use expo_builder_local.Exception.{
  Result, ok, ok_inj, err, stuck, json_error, runtime_error, invalid_argument, out_of_range,
  >>=-eq-ok,
}
use expo_builder_local.Tar.{Directory, create_tar}
use expo_builder_local.Json.Access.{get, contains, as_string}
use expo_builder_local.Json.Parser.{parse}
use expo_builder_local.Lines.Laws.{concat}
use expo_builder_local.Lines.Split.{whole_lines, run_lines, feed-lines}
use expo_builder_local.Docker.Http.{Request, Machine, plain}
use expo_builder_local.Docker.Streams.{
  is_newline, Progress, PullEvent, started, member_text, on_build_event, on_pull_event,
  on_build_line, on_pull_line, build_handler, pull_handler, Value, build_request, build_image,
  pull_path, pull_image,
}
use expo_builder_local.Docker.Streams.Laws.{Reads, build_image-Reads, pull_image-Reads}

-- What a line tells: no error, or a message.
module _ (Tells : Bytes → Bytes → Type 0) where
  abbrev pub NoError : Bytes → Type 0
  NoError line = (message : Bytes) → ¬ Tells line message

  -- The last of the lines that tells an error has an empty message.
  abbrev pub NoLastError : List Bytes → Type 0
  NoLastError lines =
      (before after : List Bytes) (line message : Bytes)
      → lines ≡ before ++ line ∷ after
      → Tells line message
      → All NoError after
      → message ≡ []

  module _ {Call : Type 0} (handle : Bytes → Progress Call → Result (Progress Call))
      (keeps : (line : Bytes) (p p' : Progress Call)
        → handle line p ≡ ok p'
        → NoError line
        → p'.first_error ≡ p.first_error)
      (tells : (line message : Bytes) (p p' : Progress Call)
        → handle line p ≡ ok p'
        → Tells line message
        → p'.first_error ≡ message) where
    quiet_lines :
        (lines : List Bytes) (p p' : Progress Call)
        → run_lines is_newline handle lines p ≡ ok p'
        → All NoError lines
        → p'.first_error ≡ p.first_error
    unfolding run_lines
    quiet_lines [] p p' h q = ap (λ x. x.first_error) (sym (ok_inj h))
    quiet_lines (line ∷ lines) p p' h (q, qs) =
        let (next, e, h1) = >>=-eq-ok (handle line p) _ h in
        quiet_lines lines next p' h1 qs ∙ keeps line p next e q

    told_line :
        (before after : List Bytes) (line message : Bytes) (p p' : Progress Call)
        → run_lines is_newline handle (before ++ line ∷ after) p ≡ ok p'
        → Tells line message
        → All NoError after
        → p'.first_error ≡ message
    unfolding run_lines
    told_line [] after line message p p' h t q =
        let (next, e, h1) = >>=-eq-ok (handle line p) _ h in
        quiet_lines after next p' h1 q ∙ tells line message p next e t
    told_line (first ∷ before) after line message p p' h t q =
        let (next, e, h1) = >>=-eq-ok (handle first p) _ h in
        told_line before after line message next p' h1 t q

    module _ (machine : Machine) (request : Request) where
      open machine use {World, open_stream}

      pub Reads-NoLastError :
          (w w' : World) (calls : List Call) (status : ℕ)
          → Reads machine handle request w (record { calls = calls; first_error = [] }) status w'
          → NoLastError (whole_lines is_newline (concat (open_stream request w).0.chunks))
      Reads-NoLastError w w' calls status (rest, read, ended, left) before after line message e t
            q =
          let run = feed-lines is_newline handle _ rest started _ read in
          sym (told_line before after line message started _ (rw e at run) t q)

module _ (machine : Machine) where
  open machine use {World, open_stream, doubles}

  -- The whole lines of the stream that answers a request, however it was cut into chunks.
  abbrev pub lines_of : Request → World → List Bytes
  lines_of request w = whole_lines is_newline (concat (open_stream request w).0.chunks)

  -- The line is a JSON text with a member "error", but none "stream" or "status".
  abbrev pub TellsBuildError : Bytes → Bytes → Type 0
  TellsBuildError line message =
      (event : Value machine) × (line ≢ [])
      × (parse doubles line ≡ ok event)
      × (contains (codes "stream") event ≡ false)
      × (contains (codes "status") event ≡ false)
      × (contains (codes "error") event ≡ true)
      × (as_string [] (get (codes "error") event) ≡ message)

  -- The line is a JSON text with a member "error".
  abbrev pub TellsPullError : Bytes → Bytes → Type 0
  TellsPullError line message =
      (event : Value machine) × (line ≢ [])
      × (parse doubles line ≡ ok event)
      × (contains (codes "error") event ≡ true)
      × (as_string [] (get (codes "error") event) ≡ message)

  build_event_keeps :
      (line : Bytes) (event : Value machine) (p : Progress Bytes)
      → line ≢ []
      → parse doubles line ≡ ok event
      → NoError TellsBuildError line
      → (on_build_event event p).first_error ≡ p.first_error
  unfolding on_build_event
  build_event_keeps line event p ne e q = elim (Bool-cases (contains (codes "stream") event)) [
    | inl a ↦ rw a refl
    | inr a ↦ elim (Bool-cases (contains (codes "status") event)) [
      | inl b ↦ rw (a, b) refl
      | inr b ↦ elim (Bool-cases (contains (codes "error") event)) [
        | inl k ↦ absurd (q _ (event, ne, e, a, b, k, refl))
        | inr k ↦ rw (a, b, k) refl
      ]
    ]
  ]

  build_line_keeps :
      (line : Bytes) (r : Result (Value machine)) (p p' : Progress Bytes)
      → line ≢ []
      → parse doubles line ≡ r
      → on_build_line line r p ≡ ok p'
      → NoError TellsBuildError line
      → p'.first_error ≡ p.first_error
  unfolding on_build_line
  build_line_keeps line (ok event) p p' ne e h q =
      ap (λ x. x.first_error) (sym (ok_inj h)) ∙ build_event_keeps line event p ne e q
  build_line_keeps line (err (json_error what)) p p' ne e h q =
      ap (λ x. x.first_error) (sym (ok_inj h))
  build_line_keeps line (err (runtime_error what)) p p' ne e h q = absurd (cc)
  build_line_keeps line (err invalid_argument) p p' ne e h q = absurd (cc)
  build_line_keeps line (err out_of_range) p p' ne e h q = absurd (cc)
  build_line_keeps line stuck p p' ne e h q = absurd (cc)

  some_line : (c : ℕ) (s : Bytes) → c ∷ s ≢ []
  some_line c s e = absurd (cc)

  build_keeps :
      (line : Bytes) (p p' : Progress Bytes)
      → build_handler machine line p ≡ ok p'
      → NoError TellsBuildError line
      → p'.first_error ≡ p.first_error
  unfolding build_handler
  build_keeps [] p p' h q = ap (λ x. x.first_error) (sym (ok_inj h))
  build_keeps (c ∷ s) p p' h q =
      build_line_keeps (c ∷ s) (parse doubles (c ∷ s)) p p' (some_line c s) refl h q

  build_tells :
      (line message : Bytes) (p p' : Progress Bytes)
      → build_handler machine line p ≡ ok p'
      → TellsBuildError line message
      → p'.first_error ≡ message
  unfolding build_handler on_build_line on_build_event member_text
  build_tells [] message p p' h t = absurd (t.1 refl)
  build_tells (c ∷ s) message p p' h (event, ne, e, no_stream, no_status, has, told) =
      ap (λ x. x.first_error) (sym (ok_inj (rw (e, no_stream, no_status, has) at h))) ∙ told

  pull_line_keeps :
      (line : Bytes) (r : Result (Value machine)) (p p' : Progress PullEvent)
      → line ≢ []
      → parse doubles line ≡ r
      → on_pull_line machine r p ≡ ok p'
      → NoError TellsPullError line
      → p'.first_error ≡ p.first_error
  unfolding on_pull_line on_pull_event
  pull_line_keeps line (ok event) p p' ne e h q =
      elim (Bool-cases (contains (codes "error") event)) [
        | inl k ↦ absurd (q _ (event, ne, e, k, refl))
        | inr k ↦ elim (Bool-cases (contains (codes "status") event)) [
          | inl b ↦ ap (λ x. x.first_error) (sym (ok_inj (rw (k, b) at h)))
          | inr b ↦ ap (λ x. x.first_error) (sym (ok_inj (rw (k, b) at h)))
        ]
      ]
  pull_line_keeps line (err (json_error what)) p p' ne e h q =
      ap (λ x. x.first_error) (sym (ok_inj h))
  pull_line_keeps line (err (runtime_error what)) p p' ne e h q = absurd (cc)
  pull_line_keeps line (err invalid_argument) p p' ne e h q = absurd (cc)
  pull_line_keeps line (err out_of_range) p p' ne e h q = absurd (cc)
  pull_line_keeps line stuck p p' ne e h q = absurd (cc)

  pull_keeps :
      (line : Bytes) (p p' : Progress PullEvent)
      → pull_handler machine line p ≡ ok p'
      → NoError TellsPullError line
      → p'.first_error ≡ p.first_error
  unfolding pull_handler
  pull_keeps [] p p' h q = ap (λ x. x.first_error) (sym (ok_inj h))
  pull_keeps (c ∷ s) p p' h q =
      pull_line_keeps (c ∷ s) (parse doubles (c ∷ s)) p p' (some_line c s) refl h q

  pull_tells :
      (line message : Bytes) (p p' : Progress PullEvent)
      → pull_handler machine line p ≡ ok p'
      → TellsPullError line message
      → p'.first_error ≡ message
  unfolding pull_handler on_pull_line on_pull_event member_text
  pull_tells [] message p p' h t = absurd (t.1 refl)
  pull_tells (c ∷ s) message p p' h (event, ne, e, has, told) =
      ap (λ x. x.first_error) (sym (ok_inj (rw (e, has) at h))) ∙ told

  -- If `buildImage` returns, the directory was archived, the stream that answers the archive ends with
  -- status 200, and the last of its whole lines that tells an error, if there is one, has an empty
  -- message. A line tells an error if it is a JSON text with a member "error", but none "stream" or
  -- "status". The stream is read as one text, however it was cut into chunks.
  pub build_image_ok :
      (dir : Directory) (tag : Bytes) (no_cache : Bool) (w w' : World) (calls : List Bytes)
      → build_image machine dir tag no_cache w ≡ (ok calls, w')
      → (tar : Bytes) × (create_tar dir ≡ ok tar)
        × ((open_stream (build_request machine tag no_cache tar) w).0.ending ≡ ok 200)
        × NoLastError TellsBuildError (lines_of (build_request machine tag no_cache tar) w)
  build_image_ok dir tag no_cache w w' calls h =
      let (tar, archived, read) = build_image-Reads machine dir tag no_cache w w' calls h in
      (
        tar,
        archived,
        read.2,
        Reads-NoLastError TellsBuildError (build_handler machine) build_keeps build_tells machine
            (build_request machine tag no_cache tar) w w' calls 200 read,
      )

  -- If `pullImage` returns, the stream that answers it ends with status 200, and the last of its whole
  -- lines that tells an error, a JSON text with a member "error", if there is one, has an empty
  -- message. The stream is read as one text, however it was cut into chunks.
  pub pull_image_ok :
      (tag : Bytes) (w w' : World) (calls : List PullEvent)
      → pull_image machine tag w ≡ (ok calls, w')
      → ((open_stream (plain (codes "POST") (pull_path machine tag)) w).0.ending ≡ ok 200)
        × NoLastError TellsPullError (lines_of (plain (codes "POST") (pull_path machine tag)) w)
  pull_image_ok tag w w' calls h =
      let read = pull_image-Reads machine tag w w' calls h in
      (
        read.2,
        Reads-NoLastError TellsPullError (pull_handler machine) pull_keeps pull_tells machine
            (plain (codes "POST") (pull_path machine tag)) w w' calls 200 read,
      )
