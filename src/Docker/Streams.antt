-- ===== src/Docker/Streams.antt =====
-- `buildImage`, `pullImage` and `attachAndStream` of cli-cpp-legacy/src/docker_client.cpp. The calls
-- of their callbacks are collected in a list.
pub mod Laws
pub mod Told
mod Tests
use expo_builder_local.Prelude.{
  ℕ, Bytes, List, [], ◌∷◌, ◌++◌, Bool, true, false, ◌&&◌, ◌==◌, Option, none, some, codes, text,
  if◌then◌else◌,
}
use expo_builder_local.Prelude.Int.{ℤ, pos, ltb_ℤ}
use expo_builder_local.Exception.{Exception, Result, ok, err, stuck, json_error, runtime_error}
use expo_builder_local.Steps.{Step, and_then, ◌>>=◌, ret, lift, check}
use expo_builder_local.Decimal.{print_nat}
use expo_builder_local.Url.{url_encode}
use expo_builder_local.Tar.{Directory, create_tar}
use expo_builder_local.Config.{is_empty}
use expo_builder_local.Lines.{feed_all}
use expo_builder_local.Json.Value.{Json}
use expo_builder_local.Json.Access.{get, contains, as_string, as_int}
use expo_builder_local.Json.Parser.{parse}
use expo_builder_local.Docker.Http.{Request, Delivery, Machine, plain}
use expo_builder_local.Docker.Render.{human_size, render_bar}

unfoldable pub is_newline : ℕ → Bool
is_newline c = c == b'\n'

-- The variables that the handler of a stream changes: what it has handed to the callback, and
-- `firstError`.
pub record Progress (Call : Type 0) : Type 0 where
  pub calls : List Call
  pub first_error : Bytes

-- One call of the callback of `pullImage`.
pub record PullEvent : Type 0 where
  pub id : Bytes
  pub status : Bytes
  pub progress : Bytes

abbrev pub calling : {Call : Type 0} → Call → Progress Call → Progress Call
calling call progress = record progress { calls = progress.calls ++ call ∷ [] }

abbrev pub failing : {Call : Type 0} → Bytes → Progress Call → Progress Call
failing message progress = record progress { first_error = message }

abbrev pub started : {Call : Type 0} → Progress Call
started = record { calls = []; first_error = [] }

-- The text around the last ':', where the rest of the text is split or has none.
unfoldable pub colon_before : ℕ → Bytes → Option (Bytes × Bytes) → Option (Bytes × Bytes)
colon_before c s (some (before, after)) = some (c ∷ before, after)
colon_before c s none = if c == b':' then some ([], s) else none

-- `rfind(':')`, as the text around the last ':'
unfoldable pub last_colon : Bytes → Option (Bytes × Bytes)
last_colon [] = none
last_colon (c ∷ s) = colon_before c s (last_colon s)

unfoldable pub has_slash : Bytes → Bool
has_slash [] = false
has_slash (c ∷ s) = let later = has_slash s in if c == b'/' then true else later

unfoldable pub tagged : Bytes → Option (Bytes × Bytes) → Bytes × Bytes
tagged tag none = (tag, codes "latest")
tagged tag (some (before, after)) =
    if has_slash after then (tag, codes "latest") else (before, after)

-- `repo` and `imageTag` of `pullImage`
unfoldable pub split_tag : Bytes → Bytes × Bytes
split_tag tag = tagged tag (last_colon tag)

module _ {D : Type 0} where
  -- The text of a member, which `contains` was asked for.
  unfoldable pub member_text : Bytes → Json D → Bytes
  member_text key event = as_string [] (get key event)

  unfoldable pub build_status : Json D → Bytes
  build_status event =
      member_text (codes "status") event
      ++ ((if contains (codes "progress") event
            then b' ' ∷ member_text (codes "progress") event
            else [])
          ++ codes "\n")

  -- what the handler of `buildImage` does with an event
  unfoldable pub on_build_event : Json D → Progress Bytes → Progress Bytes
  on_build_event event progress =
      if contains (codes "stream") event
      then calling (member_text (codes "stream") event) progress
      else if contains (codes "status") event
      then calling (build_status event) progress
      else if contains (codes "error") event
      then failing (member_text (codes "error") event) progress
      else progress

  unfoldable pub on_build_line : Bytes → Result (Json D) → Progress Bytes → Result (Progress Bytes)
  on_build_line line (ok event) progress = ok (on_build_event event progress)
  on_build_line line (err (json_error what)) progress = ok (calling line progress)
  on_build_line line (err e) progress = err e
  on_build_line line stuck progress = stuck

module _ (machine : Machine) where
  open machine use {World, open_stream, doubles}

  abbrev pub Value : Type 0
  Value = Json doubles.Double

  -- `continue` on an empty line
  unfoldable pub build_handler : Bytes → Progress Bytes → Result (Progress Bytes)
  build_handler [] progress = ok progress
  build_handler (c ∷ s) progress = on_build_line (c ∷ s) (parse doubles (c ∷ s)) progress

  -- A number of "progressDetail".
  unfoldable pub detail_number : Bytes → Value → ℤ
  detail_number key event = as_int doubles (pos 0) (get key (get (codes "progressDetail") event))

  unfoldable pub bar_progress : ℤ → ℤ → Bytes
  bar_progress current total =
      render_bar machine current total
      ++ (codes "  "
          ++ (human_size machine (doubles.of_int current)
              ++ (b'/' ∷ human_size machine (doubles.of_int total))))

  unfoldable pub pull_progress : Value → Bytes
  pull_progress event =
      let given = member_text (codes "progress") event in
      let total = detail_number (codes "total") event in
      let current = detail_number (codes "current") event in
      if is_empty given && contains (codes "progressDetail") event && ltb_ℤ (pos 0) total
      then bar_progress current total
      else given

  -- what the handler of `pullImage` does with an event
  unfoldable pub on_pull_event : Value → Progress PullEvent → Progress PullEvent
  on_pull_event event progress =
      let call : PullEvent = record {
        id = member_text (codes "id") event;
        status = member_text (codes "status") event;
        progress = pull_progress event;
      } in
      if contains (codes "error") event
      then failing (member_text (codes "error") event) progress
      else if contains (codes "status") event
      then calling call progress
      else progress

  unfoldable pub on_pull_line : Result Value → Progress PullEvent → Result (Progress PullEvent)
  on_pull_line (ok event) progress = ok (on_pull_event event progress)
  on_pull_line (err (json_error what)) progress = ok progress
  on_pull_line (err e) progress = err e
  on_pull_line stuck progress = stuck

  unfoldable pub pull_handler : Bytes → Progress PullEvent → Result (Progress PullEvent)
  pull_handler [] progress = ok progress
  pull_handler (c ∷ s) progress = on_pull_line (parse doubles (c ∷ s)) progress

  -- `streamRequest` with a line handler: the chunks first, and then the status or an exception.
  unfoldable pub stream_lines :
      {Call : Type 0}
      → (Bytes → Progress Call → Result (Progress Call))
      → Request
      → Step World (Progress Call × ℕ)
  stream_lines handle request world =
      let (delivery, after) = open_stream request world in
      and_then (feed_all is_newline handle delivery.chunks ([], started), after)
        (λ buffer. do status ← lift delivery.ending; ret (buffer.1, status))

  -- What stands behind the stream: the throw of an error that an event told, the throw of a status,
  -- or the return.
  unfoldable pub finish :
      {Call : Type 0}
      → (Bytes → Exception)
      → (ℕ → Exception)
      → Progress Call
      → ℕ
      → Step World (List Call)
  finish failed refused progress status = do
    done ← check (is_empty progress.first_error) (failed progress.first_error)
    fine ← check (status == 200) (refused status)
    ret progress.calls

  unfoldable pub run_stream :
      {Call : Type 0}
      → (Bytes → Progress Call → Result (Progress Call))
      → Request
      → (Bytes → Exception)
      → (ℕ → Exception)
      → Step World (List Call)
  run_stream handle request failed refused = do
    streamed ← stream_lines handle request
    finish failed refused streamed.0 streamed.1

  unfoldable pub build_path : Bytes → Bool → Bytes
  build_path tag no_cache =
      codes "/build?t="
      ++ (url_encode tag ++ (codes "&rm=1" ++ (if no_cache then codes "&nocache=1&pull=1" else [])))

  unfoldable pub build_request : Bytes → Bool → Bytes → Request
  build_request tag no_cache tar = record {
    method = codes "POST";
    path = build_path tag no_cache;
    body = tar;
    headers = codes "Content-Type: application/x-tar" ∷ [];
    timeout_seconds = 0;
  }

  -- `buildImage`, which returns the calls of its callback
  unfoldable pub build_image : Directory → Bytes → Bool → Step World (List Bytes)
  build_image dir tag no_cache = do
    tar ← lift (create_tar dir)
    run_stream build_handler (build_request tag no_cache tar)
        (λ message. runtime_error (text "Docker build failed: " ++ message))
        (λ status.
          runtime_error (text "Docker build request failed (HTTP " ++ print_nat status ++ text ")"))

  unfoldable pub pull_path : Bytes → Bytes
  pull_path tag =
      let (repo, image_tag) = split_tag tag in
      codes "/images/create?fromImage="
      ++ (url_encode repo ++ (codes "&tag=" ++ url_encode image_tag))

  -- `pullImage`, which returns the calls of its callback
  unfoldable pub pull_image : Bytes → Step World (List PullEvent)
  pull_image tag =
      run_stream pull_handler (plain (codes "POST") (pull_path tag))
        (λ message. runtime_error (text "Failed to pull " ++ tag ++ text ": " ++ message))
        (λ status. runtime_error (
          text "Pull request for " ++ tag ++ text " failed (HTTP " ++ print_nat status ++ text ")"))

  -- `attachAndStream` hands on the chunks as they are, and drops the status.
  unfoldable pub attach_and_stream : Bytes → World → Delivery × World
  attach_and_stream id = open_stream (
      plain (codes "POST")
        (codes "/containers/" ++ (id ++ codes "/attach?stream=1&stdout=1&stderr=1")))
