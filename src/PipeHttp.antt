-- ===== src/PipeHttp.antt =====
-- cli-cpp-legacy/src/http_client_win.cpp: HTTP over the named pipe of Docker Desktop. The pipe is an
-- argument: the bytes that each read gives, one at least, up to the end of the connection; a read
-- that fails or times out is not modelled.
pub mod Numbers
pub mod Body
pub mod Laws
mod Tests
use expo_builder_local.Prelude.{
  ℕ, zero, suc, ◌+◌, ◌-◌, min, Bytes, List, [], ◌∷◌, ◌++◌, Bool, true, false, not, ◌&&◌, ◌||◌, ◌==◌,
  ltb, leb, bytes_eq, Option, none, some, codes, text, length, take, drop, if◌then◌else◌,
}
use expo_builder_local.Prelude.Int.{ℤ, pos}
use expo_builder_local.Exception.{Exception, Result, ok, err, stuck, runtime_error, ◌>>=◌}
use expo_builder_local.Decimal.{print_nat, stol}
use expo_builder_local.Config.{is_empty}
use expo_builder_local.Progress.Patterns.{behind, starts_with, lower}
use expo_builder_local.PipeHttp.Numbers.{stoull, stoull_hex}

abbrev pub crlf : Bytes
crlf = 13 ∷ 10 ∷ []

unfoldable pub lowercase : Bytes → Bytes
lowercase [] = []
lowercase (c ∷ s) = lower c ∷ lowercase s

unfoldable pub has_header : List Bytes → Bytes → Bool
has_header [] name = false
has_header (h ∷ headers) name =
    starts_with (lowercase name ++ codes ":") (lowercase h) || has_header headers name

unfoldable pub header_lines : List Bytes → Bytes
header_lines [] = []
header_lines (h ∷ headers) = h ++ (crlf ++ header_lines headers)

unfoldable pub build_request : Bytes → Bytes → Bytes → List Bytes → Bytes
build_request method path body headers =
    method
    ++ (codes " "
        ++ (path
            ++ (codes " HTTP/1.1"
                ++ (crlf
                    ++ (codes "Host: localhost"
                        ++ (crlf
                            ++ (codes "Connection: close"
                                ++ (crlf
                                    ++ (header_lines headers
                                        ++ ((if has_header headers (codes "Content-Length")
                                              then []
                                              else codes "Content-Length: "
                                                ++ (print_nat (length body) ++ crlf))
                                            ++ (crlf ++ body)))))))))))

unfoldable pub put_front : ℕ → Option (Bytes × Bytes) → Option (Bytes × Bytes)
put_front c none = none
put_front c (some (front, rest)) = some (c ∷ front, rest)

unfoldable pub here_or : Option Bytes → Option (Bytes × Bytes) → Option (Bytes × Bytes)
here_or (some rest) later = some ([], rest)
here_or none later = later

-- `find` of a separator: the text in front of it and the text behind it
unfoldable pub cut_at : Bytes → Bytes → Option (Bytes × Bytes)
cut_at separator [] = here_or (behind separator []) none
cut_at separator (c ∷ s) = here_or (behind separator (c ∷ s)) (put_front c (cut_at separator s))

unfoldable pub or_whole : Bytes → Option (Bytes × Bytes) → Bytes × Bytes
or_whole s none = (s, [])
or_whole s (some (front, rest)) = (front, rest)

-- What is in front of a separator, or the whole text, and what is behind it.
unfoldable pub split_at : Bytes → Bytes → Bytes × Bytes
split_at separator s = or_whole s (cut_at separator s)

pub record ResponseHead : Type 0 where
  pub status : ℤ
  pub chunked : Bool
  pub content_length : Option ℕ
  pub leftover : Bytes

abbrev pub closed_early : Exception
closed_early =
    runtime_error (text "The Docker daemon closed the connection before sending a full response")

abbrev pub mid_response : Exception
mid_response = runtime_error (text "The Docker daemon closed the connection mid-response")

-- kMaxHeaderBytes
abbrev pub max_header_bytes : ℕ
max_header_bytes = 1048576

unfoldable pub head_of :
    Option (Bytes × Bytes)
    → List Bytes
    → Result (Bytes × Bytes × List Bytes)
    → Result (Bytes × Bytes × List Bytes)
head_of (some (head_text, leftover)) pipe more = ok (head_text, leftover, pipe)
head_of none pipe more = more

-- The text of the head, the bytes read behind it and the pipe behind those.
unfoldable pub read_head : List Bytes → Bytes → Result (Bytes × Bytes × List Bytes)
read_head [] buf = head_of (cut_at (crlf ++ crlf) buf) [] (err closed_early)
read_head (chunk ∷ pipe) buf =
    let more = read_head pipe (buf ++ chunk) in
    let too_large =
      err (runtime_error (text "Response headers from the Docker daemon are too large")) in
    head_of (cut_at (crlf ++ crlf) buf) (chunk ∷ pipe)
      (if ltb max_header_bytes (length (buf ++ chunk)) then too_large else more)

-- The status of a status line that has a space; 0 in another.
unfoldable pub read_code : Bytes → Result ℤ → Result ℤ
read_code line (ok code) = ok code
read_code line (err e) =
    err (runtime_error (text "Malformed HTTP status line from the Docker daemon: " ++ line))
read_code line stuck = stuck

unfoldable pub read_status : Bytes → Option (Bytes × Bytes) → Result ℤ
read_status line none = ok (pos 0)
read_status line (some (version, rest)) = read_code line (stol ((split_at (codes " ") rest).0))

unfoldable pub skip_blanks : Bytes → Bytes
skip_blanks [] = []
skip_blanks (c ∷ s) = let rest = skip_blanks s in if c == b' ' then rest else c ∷ s

unfoldable pub contains_text : Bytes → Bytes → Bool
contains_text word [] = starts_with word []
contains_text word (c ∷ s) = starts_with word (c ∷ s) || contains_text word s

-- what a header line sets
unfoldable pub read_header : Option (Bytes × Bytes) → ResponseHead → Result ResponseHead
read_header none head = ok head
read_header (some (raw_name, rest)) head =
    let name = lowercase raw_name in
    let value = skip_blanks rest in
    let sized = (do n ← stoull value; ok (record head { content_length = some n })) in
    if bytes_eq name (codes "content-length")
    then sized
    else if bytes_eq name (codes "transfer-encoding")
        && contains_text (codes "chunked") (lowercase value)
    then ok (record head { chunked = true })
    else ok head

-- the loop over the header lines, on fuel: each has a separator behind it, or is the last
unfoldable pub read_headers : ℕ → Bytes → ResponseHead → Result ResponseHead
read_headers zero head_text head = stuck
read_headers (suc fuel) [] head = ok head
read_headers (suc fuel) (c ∷ s) head = do
  let (line, rest) = split_at crlf (c ∷ s)
  next ← read_header (cut_at (codes ":") line) head
  read_headers fuel rest next

-- `readResponseHead`, with what is left of the pipe
unfoldable pub read_response_head : List Bytes → Result (ResponseHead × List Bytes)
read_response_head pipe = do
  read ← read_head pipe []
  let (status_line, header_text) = split_at crlf read.0
  status ← read_status status_line (cut_at (codes " ") status_line)
  head ←
      read_headers (suc (length header_text)) header_text
        (record { status = status; chunked = false; content_length = none; leftover = read.1 })
  ok (head, read.2)
