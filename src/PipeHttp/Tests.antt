-- ===== src/PipeHttp/Tests.antt =====
-- The client over the pipe on concrete responses.
use expo_builder_local.Prelude.{
  Bytes, List, [], ◌∷◌, ◌++◌, true, false, none, some, codes, ◌≡◌, ◌≢◌, refl,
}
use expo_builder_local.Prelude.Int.{pos}
use expo_builder_local.Exception.{ok, stuck}
use expo_builder_local.Decimal.{
  skip_space, is_digit, stol, fits, is_space, neg, read_bounded, read_digits, read_int, read_sign,
}
use expo_builder_local.Progress.Patterns.{behind, starts_with, lower}
use expo_builder_local.PipeHttp
use expo_builder_local.PipeHttp.{ResponseHead, crlf, has_header, build_request, read_response_head}
use expo_builder_local.PipeHttp.Numbers.{
  stoull, stoull_hex, read_signed, read_prefixed, read_hex, is_hex_digit, unsigned, hex_value,
}
use expo_builder_local.PipeHttp.Body.{
  or_malformed, chunk_size, read_line, line_of, deliver_body, joined, request,
}
use expo_builder_local.PipeHttp.Laws.{datas, wire, sized, deliver_body-wire, request_ok}

-- "abc" in a chunk whose size has an extension, and ten bytes
abbrev chunks : List (Bytes × Bytes)
chunks = (codes "3;x", codes "abc") ∷ (codes "a", codes "0123456789") ∷ []

abbrev head : ResponseHead
head = record {
  status = pos 200;
  chunked = true;
  content_length = none;
  leftover = wire chunks (codes "0");
}

sizes :
    (chunk_size (codes "3;x") ≡ ok 3)
    × (chunk_size (codes "a") ≡ ok 10)
    × (chunk_size (codes "0") ≡ ok 0)
unfolding chunk_size or_malformed stoull_hex read_signed skip_space PipeHttp.split_at
    PipeHttp.or_whole PipeHttp.cut_at PipeHttp.here_or behind PipeHttp.put_front read_prefixed
    read_hex is_hex_digit is_digit unsigned hex_value
sizes = (refl, refl, refl)

-- A line that comes in two reads is never completed.
read_line_in_two_reads : read_line [] (codes "1" ∷ crlf ∷ []) ≡ stuck
unfolding read_line line_of PipeHttp.cut_at PipeHttp.here_or behind PipeHttp.put_front
read_line_in_two_reads = refl

any_case : has_header (codes "content-LENGTH: 3" ∷ []) (codes "Content-Length") ≡ true
unfolding has_header PipeHttp.lowercase lower starts_with
any_case = refl

abbrev reads : Bytes → List Bytes
reads request =
    (codes "HTTP/1.1 201 Created" ++ crlf ++ codes "Content-Len")
    ∷ (codes "gth:  4" ++ crlf ++ crlf ++ codes "ab")
    ∷ codes "cdef"
    ∷ []

head_of_reads :
    read_response_head (reads (build_request (codes "GET") (codes "/_ping") [] []))
    ≡ ok (
      record { status = pos 201; chunked = false; content_length = some 4; leftover = codes "ab" },
      codes "cdef" ∷ [],
    )
unfolding read_response_head PipeHttp.read_head PipeHttp.head_of PipeHttp.cut_at PipeHttp.here_or
    behind PipeHttp.put_front PipeHttp.read_status PipeHttp.split_at PipeHttp.or_whole
    PipeHttp.read_code stol PipeHttp.read_headers PipeHttp.read_header PipeHttp.lowercase lower
    stoull PipeHttp.skip_blanks fits is_digit is_space neg read_bounded read_digits read_int
    read_sign skip_space unsigned PipeHttp.contains_text starts_with
head_of_reads = refl

some_first : codes "abc" ≢ []
some_first e = absurd (cc)

some_second : codes "0123456789" ≢ []
some_second e = absurd (cc)

deliver_body-wire_example : deliver_body head [] ≡ (datas chunks, ok tt)
deliver_body-wire_example =
    deliver_body-wire chunks (codes "0") head []
      (((refl, (refl, (refl, tt))), sizes.0, some_first), (((refl, tt), sizes.1, some_second), tt))
      (refl, tt) sizes.2 refl refl

request_ok_example :
    request (λ e. []) reads (codes "GET") (codes "/_ping") [] [] ≡ ok (pos 201, codes "abcd")
unfolding sized joined
request_ok_example =
    request_ok (λ e. []) reads (codes "GET") (codes "/_ping") [] []
      (record { status = pos 201; chunked = false; content_length = some 4; leftover = codes "ab" })
      (codes "cdef" ∷ []) head_of_reads refl
