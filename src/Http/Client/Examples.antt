-- ===== src/Http/Client/Examples.antt =====
-- A request for a page, and its response.
use hulatang_io.Base.{
  ℕ, ◌+◌, ◌≡◌, refl, [], ◌∷◌, ◌++◌, none, some, true, ◌⊎◌, arith, length, take, drop, Text, codes,
  Outcome, ok, aborted, Succeeds, find, text_eq, starts_with,
}
use mathlib.Core.List.{Perm}
use mathlib.Core.List.Perm
use hulatang_io.Buffer.{
  Buffer, retrieve, retrieve_all, retrieve_as_string, find_crlf, find_crlf_from, search_crlf,
  append, ensure_writable_bytes, make_space, resize, uninitialised, store, has_written,
}
use hulatang_io.Buffer.Valid.{IsValid}
use hulatang_io.Buffer.Stream.{xsputn, put_all, put_all_lem}
use hulatang_io.Buffer.Queue.{Holds}
use hulatang_io.Http.Constant.{http11, version_from_string, to_string}
use hulatang_io.Http.Number.{
  stoi, stoul, skip_spaces, signed, unprefixed, magnitude, read_digits, digit_value,
}
use hulatang_io.Http.Url.{Url, no_parts}
use hulatang_io.Http.Request.{
  Method, invalid, get, post, head, put, delete, render, pieces, header_lines, header_pieces,
  assign, add_header, new_request, set_path, set_version, set_method,
}
use hulatang_io.Http.Response.{
  Response, HeaderMap, no_error, find_header, emplace, next_line, current_line, status_line,
  header_of, message_header, message_loop, message_line, content_length, by_length, body_line,
  parse, build_from_buffer,
}
use hulatang_io.Http.Response.Consumption.{build_from_buffer-consumes}
use hulatang_io.Http.Client.{
  HttpClient, request_for, service_of, get_request, get_url, on_connection, on_message,
}
use hulatang_io.Http.Client.Sending.{get_text, get_headers, get_url-sends, get_url-twice}
use hulatang_io.Http.Client.Receiving.{Received, on_message_lem}

abbrev junk : ℕ → ℕ
junk i = 170

abbrev stored : Text → Buffer
stored xs = record {
  bytes = 0 ∷ 0 ∷ 0 ∷ 0 ∷ 0 ∷ 0 ∷ 0 ∷ 0 ∷ xs;
  reader_index = 8;
  writer_index = 8 + length xs;
}

abbrev drained : Text → Buffer
drained xs = record (stored xs) { writer_index = 8 }

empty-IsValid : IsValid (stored [])
empty-IsValid = omega arith

-- An address is a host and a service.
abbrev fresh : HttpClient (Text × Text)
fresh = record { client = none; read_buffer = stored []; write_buffer = stored []; connects = 0 }

abbrev resolve : Text → Text → Outcome (Text × Text)
resolve host service = ok (host, service)

abbrev enum_name : Method → Text
enum_name get = codes "GET"
enum_name post = codes "POST"
enum_name head = codes "HEAD"
enum_name put = codes "PUT"
enum_name delete = codes "DELETE"
enum_name invalid = codes "INVALID"

abbrev page : Url
page = record no_parts { host = codes "h"; protocol = codes "http"; path = codes "/a" }

put_all_lem_example :
    Succeeds (put_all junk (codes "ab" ∷ [] ∷ codes "c" ∷ []) (stored [])) (Holds (codes "abc"))
unfolding take drop
put_all_lem_example =
    put_all_lem junk (codes "ab" ∷ [] ∷ codes "c" ∷ []) empty-IsValid (omega arith)

-- A map that gives its second element first.
abbrev second_first : HeaderMap → HeaderMap
second_first [] = []
second_first (x ∷ []) = x ∷ []
second_first (x ∷ y ∷ hs) = y ∷ x ∷ hs

second_first-Perm : (hs : HeaderMap) → Perm (second_first hs) hs
second_first-Perm [] = Perm.refl []
second_first-Perm (x ∷ []) = Perm.refl (x ∷ [])
second_first-Perm (x ∷ y ∷ hs) = Perm.swap x y hs

get_url-sends_example : Succeeds (get_url junk resolve enum_name second_first 0 page fresh) λ c'.
    (c'.client ≡ some (codes "h", codes "http"))
    × (c'.connects ≡ 1)
    × ((hs : HeaderMap) × Perm hs (get_headers page)
        × ((on_connection true c').1 ≡ some (get_text page hs)))
unfolding take drop render request_for add_header set_path set_version set_method new_request
    to_string header_lines assign text_eq service_of
get_url-sends_example =
    get_url-sends enum_name second_first junk resolve second_first-Perm 0 page
      (codes "h", codes "http") fresh refl empty-IsValid refl refl refl (omega arith)

-- the client behind the first `get`
abbrev served : HttpClient (Text × Text)
served = record {
  client = some (codes "h", codes "http");
  read_buffer = stored [];
  write_buffer =
      stored (get_text page ((codes "Accept", codes "text/html") ∷ (codes "Host", codes "h") ∷ []));
  connects = 1;
}

get_url_again : get_url junk resolve enum_name second_first 1 page served ≡ aborted
unfolding get_url get_request put_all xsputn append ensure_writable_bytes make_space resize
    uninitialised store has_written take drop pieces header_pieces request_for add_header set_path
    set_version set_method new_request to_string header_lines assign text_eq service_of
get_url_again = get_url-twice enum_name second_first junk resolve 0 1 page page fresh served refl

abbrev hi : Text
hi =
    codes "HTTP/1.1 200 OK" ++ 13 ∷ 10 ∷ codes "Content-Length: 2" ++ 13 ∷ 10 ∷ 13 ∷ 10 ∷ codes "hi"

hi-IsValid : IsValid (stored hi)
hi-IsValid = omega arith

abbrev hi_response : Response
hi_response = record {
  headers = (codes "Content-Length", codes "2") ∷ [];
  body_text = codes "hi";
  status_code = 200;
  version = http11;
}

build_from_buffer-consumes_example :
    (drained hi ≡ stored hi) ⊎ ((no_error ≡ no_error) × ((n : ℕ) × Holds (drop n hi) (drained hi)))
unfolding build_from_buffer parse status_line current_line next_line header_of message_header
    message_loop message_line content_length by_length body_line find_header emplace
    version_from_string stoi stoul skip_spaces signed unprefixed magnitude read_digits digit_value
    find_crlf find_crlf_from search_crlf retrieve retrieve_all retrieve_as_string find text_eq
    starts_with take drop
build_from_buffer-consumes_example =
    build_from_buffer-consumes (stored hi) ((no_error, some hi_response), drained hi) hi-IsValid
      refl

on_message_lem_example : Received hi (record fresh { read_buffer = drained hi }, hi_response ∷ [])
unfolding on_message append ensure_writable_bytes make_space resize uninitialised store has_written
    build_from_buffer parse status_line current_line next_line header_of message_header message_loop
    message_line content_length by_length body_line find_header emplace version_from_string stoi
    stoul skip_spaces signed unprefixed magnitude read_digits digit_value find_crlf find_crlf_from
    search_crlf retrieve retrieve_all retrieve_as_string find text_eq starts_with take drop
on_message_lem_example = on_message_lem junk hi fresh _ empty-IsValid (omega arith) refl
