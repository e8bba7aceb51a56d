-- ===== src/PipeHttp/Body.antt =====
-- cli-cpp-legacy/src/http_client_win.cpp: the body of a response, chunked, sized or up to the end of the
-- connection, and the requests. The memory that `reserve` asks for is there.
use expo_builder_local.Prelude.{
  ℕ, zero, suc, ◌+◌, ◌-◌, Bytes, List, [], ◌∷◌, ◌++◌, ◌==◌, leb, Option, none, some, codes, text,
  length, take, drop, if◌then◌else◌,
}
use expo_builder_local.Prelude.Int.{ℤ}
use expo_builder_local.Exception.{Exception, Result, ok, err, stuck, runtime_error, ◌>>=◌}
use expo_builder_local.Config.{is_empty}
use expo_builder_local.PipeHttp.{
  crlf, cut_at, split_at, ResponseHead, mid_response, read_response_head, build_request,
}
use expo_builder_local.PipeHttp.Numbers.{stoull_hex}

-- the loop of `takeBytes` once `pending` is used up
unfoldable pub take_more : ℕ → Bytes → List Bytes → Result (Bytes × Bytes × List Bytes)
take_more n out [] = err mid_response
take_more n out (chunk ∷ pipe) =
    let rest = take_more n (out ++ chunk) pipe in
    let k = n - length out in
    if leb k (length chunk) then ok (out ++ take k chunk, drop k chunk, pipe) else rest

-- `takeBytes`: the bytes, what is left of `pending`, and the pipe
unfoldable pub take_bytes : ℕ → Bytes → List Bytes → Result (Bytes × Bytes × List Bytes)
take_bytes n pending pipe =
    let rest = take_more n pending pipe in
    if leb n (length pending) then ok (take n pending, drop n pending, pipe) else rest

unfoldable pub line_of : Option (Bytes × Bytes) → List Bytes → Result (Bytes × Bytes × List Bytes)
line_of none pipe = stuck
line_of (some (line, rest)) pipe = ok (line, rest, pipe)

-- `readLine`. `refill` does not read while `pending` has bytes, so that the loop never ends where they
-- have no line end.
unfoldable pub read_line : Bytes → List Bytes → Result (Bytes × Bytes × List Bytes)
read_line [] [] = err mid_response
read_line [] (chunk ∷ pipe) = line_of (cut_at crlf chunk) pipe
read_line (c ∷ pending) pipe = line_of (cut_at crlf (c ∷ pending)) pipe

-- The calls of `onChunk` and how the delivery ends.
abbrev pub Delivery : Type 0
Delivery = List Bytes × Result (Unit {0})

-- A call with the bytes, if there are some.
unfoldable pub calling : Bytes → Delivery → Delivery
calling [] later = later
calling (c ∷ bytes) (calls, end) = ((c ∷ bytes) ∷ calls, end)

unfoldable pub or_malformed : Result ℕ → Result ℕ
or_malformed (ok size) = ok size
or_malformed (err e) =
    err (runtime_error (text "Malformed chunked response from the Docker daemon"))
or_malformed stuck = stuck

unfoldable pub chunk_size : Bytes → Result ℕ
chunk_size line = or_malformed (stoull_hex ((split_at (codes ";") line).0))

unfoldable pub next_size : Bytes → List Bytes → Result (ℕ × Bytes × List Bytes)
next_size pending pipe = do
  read ← read_line pending pipe
  size ← chunk_size read.0
  ok (size, read.1, read.2)

-- the lines behind the last chunk, on fuel
unfoldable pub drain_trailers : ℕ → Bytes → List Bytes → Result (Unit {0})
drain_trailers zero pending pipe = stuck
drain_trailers (suc fuel) pending pipe = do
  read ← read_line pending pipe
  let rest = drain_trailers fuel read.1 read.2
  if is_empty read.0 then ok tt else rest

unfoldable pub skip_end :
    (Bytes → List Bytes → Delivery) → Result (Bytes × Bytes × List Bytes) → Delivery
skip_end next (ok (line_end, pending, pipe)) = next pending pipe
skip_end next (err e) = ([], err e)
skip_end next stuck = ([], stuck)

unfoldable pub after_data :
    (Bytes → List Bytes → Delivery) → Result (Bytes × Bytes × List Bytes) → Delivery
after_data next (ok (bytes, pending, pipe)) =
    calling bytes (skip_end next (take_bytes 2 pending pipe))
after_data next (err e) = ([], err e)
after_data next stuck = ([], stuck)

unfoldable pub after_size :
    ℕ → (Bytes → List Bytes → Delivery) → Result (ℕ × Bytes × List Bytes) → Delivery
after_size fuel next (ok (size, pending, pipe)) =
    if size == 0
    then ([], drain_trailers fuel pending pipe)
    else after_data next (take_bytes size pending pipe)
after_size fuel next (err e) = ([], err e)
after_size fuel next stuck = ([], stuck)

-- the chunked form, on fuel: a line at least is read for each chunk
unfoldable pub deliver_chunks : ℕ → Bytes → List Bytes → Delivery
deliver_chunks zero pending pipe = ([], stuck)
deliver_chunks (suc fuel) pending pipe =
    after_size (suc fuel) (λ rest more. deliver_chunks fuel rest more) (next_size pending pipe)

-- the form with a length: the loop over the reads while bytes remain
unfoldable pub deliver_reads : ℕ → List Bytes → Delivery
deliver_reads remaining [] = ([], ok tt)
deliver_reads remaining (chunk ∷ pipe) =
    let later = deliver_reads (remaining - length chunk) pipe in
    if remaining == 0 then ([], ok tt) else calling (take remaining chunk) later

unfoldable pub deliver_sized : ℕ → Bytes → List Bytes → Delivery
deliver_sized remaining pending pipe =
    calling (take remaining pending) (deliver_reads (remaining - length pending) pipe)

-- the form without a length
unfoldable pub deliver_all : List Bytes → Delivery
deliver_all [] = ([], ok tt)
deliver_all (chunk ∷ pipe) = calling chunk (deliver_all pipe)

unfoldable pub wire_length : List Bytes → ℕ
wire_length [] = 1
wire_length (chunk ∷ pipe) = length chunk + wire_length pipe

unfoldable pub deliver_unchunked : Option ℕ → Bytes → List Bytes → Delivery
deliver_unchunked (some n) pending pipe = deliver_sized n pending pipe
deliver_unchunked none pending pipe = deliver_all (pending ∷ pipe)

-- `deliverBody`, with the fuel for the lines of a chunked body
unfoldable pub deliver_body : ResponseHead → List Bytes → Delivery
deliver_body head pipe =
    let chunks = deliver_chunks (wire_length (head.leftover ∷ pipe)) head.leftover pipe in
    if head.chunked then chunks else deliver_unchunked head.content_length head.leftover pipe

unfoldable pub with_status : ℤ → Delivery → List Bytes × Result ℤ
with_status status (calls, end) = (calls, (do done ← end; ok status))

unfoldable pub delivered : Result (ResponseHead × List Bytes) → List Bytes × Result ℤ
delivered (ok (head, pipe)) = with_status head.status (deliver_body head pipe)
delivered (err e) = ([], err e)
delivered stuck = ([], stuck)

-- `performRequest`: a daemon gives the reads for the bytes that are written to its pipe.
unfoldable pub perform_request :
    (Bytes → List Bytes) → Bytes → Bytes → Bytes → List Bytes → List Bytes × Result ℤ
perform_request daemon method path body headers =
    delivered (read_response_head (daemon (build_request method path body headers)))

unfoldable pub rethrown : {A : Type 0} → (Exception → Bytes) → Result A → Result A
rethrown told (ok value) = ok value
rethrown told (err e) = err (runtime_error (told e))
rethrown told stuck = stuck

unfoldable pub joined : List Bytes → Bytes
joined [] = []
joined (bytes ∷ calls) = bytes ++ joined calls

module _ (what : Exception → Bytes) (daemon : Bytes → List Bytes) where
  -- `HttpClient::request`: the status and the body; the text of an exception is an argument.
  unfoldable pub request : Bytes → Bytes → Bytes → List Bytes → Result (ℤ × Bytes)
  request method path body headers =
      let (calls, end) = perform_request daemon method path body headers in
      let told = λ (e : Exception).
        text "Request to the Docker daemon failed: "
        ++ what e
        ++ text " (is Docker Desktop running?)" in
      do status ← rethrown told end; ok (status, joined calls)

  -- `HttpClient::streamRequest`, with the calls of `onChunk`
  unfoldable pub stream_request : Bytes → Bytes → Bytes → List Bytes → List Bytes × Result ℤ
  stream_request method path body headers =
      let (calls, end) = perform_request daemon method path body headers in
      (calls, rethrown (λ e. text "Streaming request to the Docker daemon failed: " ++ what e) end)
