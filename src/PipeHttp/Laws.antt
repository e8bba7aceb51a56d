-- ===== src/PipeHttp/Laws.antt =====
-- The bodies of responses over the pipe: what is delivered of each form.
use expo_builder_local.Prelude.{
  ℕ, zero, suc, ◌+◌, ◌-◌, ◌<◌, Bytes, List, [], ◌∷◌, ◌++◌, true, false, ◌==◌, leb, Option, none,
  some, length, length-append, take-length-append, drop-length-append, take, ◌≡◌, ◌≢◌, refl, ◌∙◌,
  ap, All, arith,
}
use expo_builder_local.Exception.{Exception, Result, ok}
use expo_builder_local.Progress.Patterns.{behind}
use expo_builder_local.Config.{is_empty}
use expo_builder_local.PipeHttp.{
  crlf, cut_at, put_front, here_or, ResponseHead, build_request, read_response_head,
}
use expo_builder_local.PipeHttp.Body.{
  Delivery, joined, calling, chunk_size, next_size, read_line, line_of, take_bytes, after_size,
  after_data, skip_end, drain_trailers, request, perform_request, delivered, with_status, rethrown,
  deliver_chunks, deliver_reads, deliver_sized, deliver_all, deliver_unchunked, deliver_body,
  wire_length,
}

-- A text without a carriage return.
abbrev IsLine : Bytes → Type 0
IsLine s = All (λ c. (13 == c) ≡ false) s

cut_at-crlf : (line s : Bytes) → IsLine line → cut_at crlf (line ++ 13 ∷ 10 ∷ s) ≡ some (line, s)
unfolding cut_at behind here_or put_front
cut_at-crlf [] s h = refl
cut_at-crlf (c ∷ line) s (hc, h) = rw (hc, cut_at-crlf line s h) refl

read_line-crlf :
    (line s : Bytes) (pipe : List Bytes)
    → IsLine line
    → read_line (line ++ 13 ∷ 10 ∷ s) pipe ≡ ok (line, s, pipe)
unfolding read_line line_of
read_line-crlf [] s pipe h = rw (cut_at-crlf [] s h) refl
read_line-crlf (c ∷ line) s pipe h = rw (cut_at-crlf (c ∷ line) s h) refl

leb_append : (xs ys : Bytes) → leb (length xs) (length (xs ++ ys)) ≡ true
leb_append xs ys = ground (arith, length-append xs ys)

take_bytes-append :
    (bytes s : Bytes) (pipe : List Bytes)
    → take_bytes (length bytes) (bytes ++ s) pipe ≡ ok (bytes, s, pipe)
unfolding take_bytes
take_bytes-append bytes s pipe =
    rw (leb_append bytes s, take-length-append bytes s, drop-length-append bytes s) refl

next_size-line :
    (line s : Bytes) (pipe : List Bytes) (n : ℕ)
    → IsLine line
    → chunk_size line ≡ ok n
    → next_size (line ++ 13 ∷ 10 ∷ s) pipe ≡ ok (n, s, pipe)
unfolding next_size
next_size-line line s pipe n h e = rw (read_line-crlf line s pipe h, e) refl

-- A chunk is sent as a line that says its size, and its bytes.
abbrev IsChunk : Bytes × Bytes → Type 0
IsChunk (line, bytes) = IsLine line × (chunk_size line ≡ ok (length bytes)) × (bytes ≢ [])

abbrev pub datas : List (Bytes × Bytes) → List Bytes
datas [] = []
datas ((line, bytes) ∷ chunks) = bytes ∷ datas chunks

-- A chunked body on the wire, up to the blank line behind its last size.
abbrev pub wire : List (Bytes × Bytes) → Bytes → Bytes
wire [] last = last ++ 13 ∷ 10 ∷ 13 ∷ 10 ∷ []
wire ((line, bytes) ∷ chunks) last = line ++ 13 ∷ 10 ∷ (bytes ++ 13 ∷ 10 ∷ wire chunks last)

suc_some : (n : ℕ) → (suc n == 0) ≡ false
suc_some n = ground arith

after_size-some :
    (fuel : ℕ) (next : Bytes → List Bytes → Delivery) (bytes s : Bytes) (pipe : List Bytes)
    → bytes ≢ []
    → after_size fuel next (ok (length bytes, bytes ++ 13 ∷ 10 ∷ s, pipe))
      ≡ calling bytes (next s pipe)
unfolding after_size after_data skip_end
after_size-some fuel next [] s pipe h = absurd (h refl)
after_size-some fuel next (c ∷ bytes) s pipe h =
    rw
      (
        suc_some (length bytes),
        take_bytes-append (c ∷ bytes) (13 ∷ 10 ∷ s) pipe,
        take_bytes-append (13 ∷ 10 ∷ []) s pipe,
      )
      refl

after_size-none :
    (fuel : ℕ) (next : Bytes → List Bytes → Delivery) (pipe : List Bytes)
    → after_size (suc fuel) next (ok (0, 13 ∷ 10 ∷ [], pipe)) ≡ ([], ok tt)
unfolding after_size drain_trailers is_empty
after_size-none fuel next pipe = rw (read_line-crlf [] [] pipe tt) refl

calling-some :
    (bytes : Bytes) (calls : List Bytes) (end : Result (Unit {0}))
    → bytes ≢ []
    → calling bytes (calls, end) ≡ (bytes ∷ calls, end)
unfolding calling
calling-some [] calls end h = absurd (h refl)
calling-some (c ∷ bytes) calls end h = refl

deliver_chunks-wire :
    (chunks : List (Bytes × Bytes)) (last : Bytes) (pipe : List Bytes) (fuel : ℕ)
    → All IsChunk chunks
    → IsLine last
    → chunk_size last ≡ ok 0
    → length chunks < fuel
    → deliver_chunks fuel (wire chunks last) pipe ≡ (datas chunks, ok tt)
unfolding deliver_chunks
deliver_chunks-wire chunks last pipe zero hs hl e lt = absurd (omega arith)
deliver_chunks-wire [] last pipe (suc fuel) hs hl e lt =
    rw (next_size-line last (13 ∷ 10 ∷ []) pipe 0 hl e) (after_size-none fuel _ pipe)
deliver_chunks-wire ((line, bytes) ∷ chunks) last pipe (suc fuel) ((h, hn, some_bytes), hs) hl e
      lt =
    rw
      (
        next_size-line line (bytes ++ 13 ∷ 10 ∷ wire chunks last) pipe (length bytes) h hn,
        after_size-some (suc fuel) (λ rest more. deliver_chunks fuel rest more) bytes
            (wire chunks last) pipe some_bytes,
        deliver_chunks-wire chunks last pipe fuel hs hl e (omega arith),
      )
      (calling-some bytes (datas chunks) (ok tt) some_bytes)

length-wire :
    (chunks : List (Bytes × Bytes)) (last : Bytes) → length chunks < length (wire chunks last)
length-wire [] last = omega (arith, length-append last (13 ∷ 10 ∷ 13 ∷ 10 ∷ []))
length-wire ((line, bytes) ∷ chunks) last = omega (
  arith,
  length-wire chunks last,
  length-append line (13 ∷ 10 ∷ (bytes ++ 13 ∷ 10 ∷ wire chunks last)),
  length-append bytes (13 ∷ 10 ∷ wire chunks last),
)

-- In a chunked response whose body has come with the head, each chunk is sent as a line without a
-- carriage return that says the chunk's size in a form that the program reads, and bytes that are not
-- empty. If the last line says 0 and a blank line follows, `onChunk` is called with the chunks in
-- order, and the delivery ends without an error.
pub deliver_body-wire :
    (chunks : List (Bytes × Bytes)) (last : Bytes) (head : ResponseHead) (pipe : List Bytes)
    → All IsChunk chunks
    → IsLine last
    → chunk_size last ≡ ok 0
    → head.chunked ≡ true
    → head.leftover ≡ wire chunks last
    → deliver_body head pipe ≡ (datas chunks, ok tt)
unfolding deliver_body wire_length
deliver_body-wire chunks last head pipe hs hl e he hw =
    rw (he, hw)
      (deliver_chunks-wire chunks last pipe (length (wire chunks last) + wire_length pipe) hs hl e
        (omega (arith, length-wire chunks last)))

same_take : (m n : ℕ) (xs : Bytes) → m ≡ n → take m xs ≡ take n xs
same_take m n xs e = ap (λ k. take k xs) e

take-append : (n : ℕ) (xs ys : Bytes) → take n (xs ++ ys) ≡ take n xs ++ take (n - length xs) ys
take-append zero [] ys = same_take 0 (0 - 0) ys (omega arith)
take-append (suc n) [] ys = same_take (suc n) (suc n - 0) ys (omega arith)
take-append zero (x ∷ xs) ys = same_take 0 (0 - suc (length xs)) ys (omega arith)
take-append (suc n) (x ∷ xs) ys =
    ap (λ l. x ∷ l)
      (take-append n xs ys
        ∙ ap (λ l. take n xs ++ l)
            (same_take (n - length xs) (suc n - suc (length xs)) ys (omega arith)))

-- The delivery calls with these bytes in all, and ends without an error.
abbrev pub Delivers : Bytes → Delivery → Type 0
Delivers bytes delivery = (joined delivery.0 ≡ bytes) × (delivery.1 ≡ ok tt)

calling-Delivers :
    (bytes rest : Bytes) (later : Delivery)
    → Delivers rest later
    → Delivers (bytes ++ rest) (calling bytes later)
unfolding calling joined
calling-Delivers [] rest later h = h
calling-Delivers (c ∷ bytes) rest (calls, end) (h, e) = (ap (λ s. c ∷ (bytes ++ s)) h, e)

deliver_reads-Delivers :
    (n : ℕ) (pipe : List Bytes) → Delivers (take n (joined pipe)) (deliver_reads n pipe)
unfolding deliver_reads joined
deliver_reads-Delivers zero [] = (refl, refl)
deliver_reads-Delivers (suc n) [] = (refl, refl)
deliver_reads-Delivers zero (chunk ∷ pipe) = (refl, refl)
deliver_reads-Delivers (suc n) (chunk ∷ pipe) =
    rw (suc_some n, take-append (suc n) chunk (joined pipe))
      (calling-Delivers (take (suc n) chunk) (take (suc n - length chunk) (joined pipe))
        (deliver_reads (suc n - length chunk) pipe)
        (deliver_reads-Delivers (suc n - length chunk) pipe))

deliver_all-Delivers : (pipe : List Bytes) → Delivers (joined pipe) (deliver_all pipe)
unfolding deliver_all joined
deliver_all-Delivers [] = (refl, refl)
deliver_all-Delivers (chunk ∷ pipe) =
    calling-Delivers chunk (joined pipe) (deliver_all pipe) (deliver_all-Delivers pipe)

-- The bytes of a body that is not chunked: as many as its length says, if it has one.
unfoldable pub sized : Option ℕ → Bytes → Bytes
sized none bytes = bytes
sized (some n) bytes = take n bytes

unchunked :
    (n : Option ℕ) (pending : Bytes) (pipe : List Bytes)
    → Delivers (sized n (joined (pending ∷ pipe))) (deliver_unchunked n pending pipe)
unfolding deliver_unchunked deliver_sized sized joined
unchunked none pending pipe = deliver_all-Delivers (pending ∷ pipe)
unchunked (some n) pending pipe = rw (take-append n pending (joined pipe)) (
    calling-Delivers (take n pending) (take (n - length pending) (joined pipe))
      (deliver_reads (n - length pending) pipe) (deliver_reads-Delivers (n - length pending) pipe))

-- For a response that is not chunked, however its bytes are cut into reads, the calls of `onChunk`
-- carry in order the bytes behind the head and those of the reads: all of them up to the end of the
-- connection, or only as many first ones as a content length says. The delivery ends without an error,
-- also where the connection has fewer bytes than that.
pub deliver_body-Delivers :
    (head : ResponseHead) (pipe : List Bytes)
    → head.chunked ≡ false
    → Delivers (sized head.content_length (joined (head.leftover ∷ pipe))) (deliver_body head pipe)
unfolding deliver_body
deliver_body-Delivers head pipe e = rw e (unchunked head.content_length head.leftover pipe)

-- Where the daemon sends a response that is not chunked and whose head the program reads, `request`
-- returns its status and the bytes that follow the head: all of them, or only as many first ones as a
-- content length says.
pub request_ok :
    (what : Exception → Bytes) (daemon : Bytes → List Bytes) (method path body : Bytes)
    (headers : List Bytes) (head : ResponseHead) (pipe : List Bytes)
    → read_response_head (daemon (build_request method path body headers)) ≡ ok (head, pipe)
    → head.chunked ≡ false
    → request what daemon method path body headers
      ≡ ok (head.status, sized head.content_length (joined (head.leftover ∷ pipe)))
unfolding request perform_request delivered with_status rethrown
request_ok what daemon method path body headers head pipe e he =
    let (calls, end) = deliver_body-Delivers head pipe he in rw (e, end, calls) refl
