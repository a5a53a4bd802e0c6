-- ===== src/Http/Response/Examples.antt =====
-- Responses in small buffers.
use hulatang_io.Base.{
  ◌+◌, ◌-◌, ◌≤◌, ◌<◌, ◌^◌, ◌≡◌, ◌≢◌, refl, [], ◌∷◌, ◌++◌, arith, length, take, drop, some, Succeeds,
  ok, aborted, thrown, diverged, Text, codes, find, text_eq, starts_with,
}
use hulatang_io.Buffer.{
  Buffer, retrieve, retrieve_all, retrieve_as_string, find_crlf, find_crlf_from, search_crlf,
}
use hulatang_io.Buffer.Valid.{size}
use hulatang_io.Http.Constant.{http11, version_from_string}
use hulatang_io.Http.Number.{
  stoi, stoul, skip_spaces, signed, unprefixed, magnitude, read_digits, digit_value,
}
use hulatang_io.Http.Response.{
  Builder, no_error, wait_for_data, find_header, emplace, next_line, current_line, status_line,
  header_of, message_header, message_loop, message_line, content_length, last_chunk, data_chunk,
  chunk, transfer_loop, transfer_encoding, by_length, body_line, parse, build_from_buffer,
}
use hulatang_io.Http.Response.Body.{HasBody, content_length_lem, content_length_wraps}
use hulatang_io.Http.Response.Chunked.{last_chunk_text, last_chunk_waits}
use hulatang_io.Http.Response.Lines.{message_line-ends}

abbrev filled : Text → Buffer
filled xs = record {
  bytes = 0 ∷ 0 ∷ 0 ∷ 0 ∷ 0 ∷ 0 ∷ 0 ∷ 0 ∷ xs;
  reader_index = 8;
  writer_index = 8 + length xs;
}

abbrev hi : Text
hi =
    codes "HTTP/1.1 200 OK" ++ 13 ∷ 10 ∷ codes "Content-Length: 2" ++ 13 ∷ 10 ∷ 13 ∷ 10 ∷ codes "hi"

build_hi :
    build_from_buffer (filled hi)
    ≡ ok (
      (
        no_error,
        some (record {
          headers = (codes "Content-Length", codes "2") ∷ [];
          body_text = codes "hi";
          status_code = 200;
          version = http11;
        }),
      ),
      record (filled hi) { reader_index = 8; writer_index = 8 },
    )
unfolding build_from_buffer parse status_line current_line next_line header_of message_header
    message_loop message_line content_length by_length body_line find_header emplace
    version_from_string stoi stoul skip_spaces signed unprefixed magnitude read_digits digit_value
    find_crlf find_crlf_from search_crlf retrieve retrieve_all retrieve_as_string find text_eq
    starts_with take drop
build_hi = refl

abbrev chunked : Text → Text
chunked xs =
    codes "HTTP/1.1 200 OK"
    ++ 13 ∷ 10 ∷ codes "Transfer-Encoding: chunked"
    ++ 13 ∷ 10 ∷ 13 ∷ 10 ∷ xs

-- One chunk, the last chunk, and two bytes more than the response.
build_chunked :
    Succeeds
      (build_from_buffer
        (filled (chunked (b'2' ∷ 13 ∷ 10 ∷ codes "hi" ++ last_chunk_text ++ 13 ∷ 10 ∷ []))))
      λ r. r.0.0 ≡ no_error
unfolding build_from_buffer parse status_line current_line next_line header_of message_header
    message_loop message_line last_chunk data_chunk chunk transfer_loop transfer_encoding body_line
    find_header emplace version_from_string stoi stoul skip_spaces signed unprefixed magnitude
    read_digits digit_value find_crlf find_crlf_from search_crlf retrieve retrieve_all
    retrieve_as_string find text_eq starts_with take drop
build_chunked = (_, refl, refl)

-- A line break inside a chunk is taken for its end, and what follows for the size of a chunk.
build_chunk_with_crlf :
    build_from_buffer (
      filled (
        chunked (b'6' ∷ 13 ∷ 10 ∷ b'a' ∷ 13 ∷ 10 ∷ codes "xyz" ++ last_chunk_text ++ 13 ∷ 10 ∷ [])))
    ≡ thrown
unfolding build_from_buffer parse status_line current_line next_line header_of message_header
    message_loop message_line last_chunk data_chunk chunk transfer_loop transfer_encoding body_line
    find_header emplace version_from_string stoi stoul skip_spaces signed unprefixed magnitude
    read_digits digit_value find_crlf find_crlf_from search_crlf retrieve retrieve_all
    retrieve_as_string find text_eq starts_with take drop
build_chunk_with_crlf = refl

-- a builder behind the headers of `hi`
abbrev behind_headers : Builder
behind_headers = record {
  headers = [];
  body_text = [];
  buf = filled hi;
  read_number = 36;
  crlf = some 44;
  start = 44;
  version = http11;
  status_code = 200;
  status_message = [];
  line = [];
  code = no_error;
}

content_length_lem_example :
    (size (filled hi) < 36 + 2 + 2
      → content_length 2 behind_headers ≡ ok (record behind_headers { code = wait_for_data }))
    × (36 + 2 + 2 ≤ size (filled hi)
        → Succeeds (content_length 2 behind_headers) (HasBody behind_headers 2))
content_length_lem_example = content_length_lem 2 behind_headers (omega arith) (omega arith)

content_length-huge : content_length (2 ^ 64 - 1) behind_headers ≡ aborted
content_length-huge =
    content_length_wraps (2 ^ 64 - 1) behind_headers (omega arith) (omega arith) (omega arith)
      (omega arith)

-- a builder at the end of a chunk that the last one follows
abbrev at_last_chunk : Builder
at_last_chunk = record behind_headers {
  buf = filled (codes "hi" ++ last_chunk_text);
  read_number = 2;
  crlf = some 10;
  start = 10;
}

last_chunk_waits_example :
    Succeeds
      (transfer_encoding at_last_chunk)
      λ s. (s.code ≡ wait_for_data) × (s.buf ≡ at_last_chunk.buf)
unfolding take drop
last_chunk_waits_example =
    last_chunk_waits at_last_chunk 10 (omega arith) refl (omega arith) (omega arith) refl

message_line-ends_example :
    message_line (record behind_headers { start = 8; crlf = some 23 }) ≢ diverged
message_line-ends_example =
    message_line-ends (record behind_headers { start = 8; crlf = some 23 }) λ c e. grind arith
