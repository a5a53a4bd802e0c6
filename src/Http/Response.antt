-- ===== src/Http/Response.antt =====
-- hulatang/http/HttpResponse.cpp: an HTTP response is read out of a buffer.
pub mod Body
pub mod Chunked
pub mod Lines
pub mod Consumption
pub mod Message
mod Examples
use hulatang_io.Base.{
  ℕ, zero, suc, ◌+◌, List, [], ◌∷◌, ◌++◌, ◌==◌, ltb, leb, if◌then◌else◌, Option, none, some, length,
  take, drop, slice, Text, codes, text_eq, starts_with, find, before, after, Outcome, ok, undefined,
  diverged, ◌>>=◌, ◌>>◌, require,
}
use hulatang_io.Buffer.{
  Buffer, add64, sub64, readable_bytes, retrieve, retrieve_as_string, find_crlf, find_crlf_from,
}
use hulatang_io.Http.Constant.{Version, unknown, version_from_string}
use hulatang_io.Http.Number.{stoi, stoul}

pub data ErrorCode : Type 0 where
  no_error status messages body wait_for_data : ErrorCode

-- `std::unordered_map`, as an association list with each name once
abbrev pub HeaderMap : Type 0
HeaderMap = List (Text × Text)

unfoldable pub find_header : Text → HeaderMap → Option Text
find_header name [] = none
find_header name ((n, v) ∷ hs) = if text_eq n name then some v else find_header name hs

-- `emplace` changes nothing where the name is there already.
unfoldable pub emplace : Text → Text → HeaderMap → HeaderMap
emplace name value hs = elim (find_header name hs) [ none ↦ (name, value) ∷ hs | some v ↦ hs ]

-- `HttpResponseBuilder`: `data` and `crlf` point into the buffer.
pub record Builder : Type 0 where
  pub headers : HeaderMap
  pub body_text : Text
  pub buf : Buffer
  pub read_number : ℕ
  pub crlf : Option ℕ
  pub start : ℕ
  pub version : Version
  pub status_code : ℕ
  pub status_message : Text
  pub line : Text
  pub code : ErrorCode

unfoldable pub next_line : Builder → Outcome Builder
next_line s = elim s.crlf [
  | none ↦ undefined
  | some c ↦ do
    crlf' ← find_crlf_from (c + 2) s.buf
    ok (record s {
      read_number = add64 (add64 s.read_number (sub64 c s.start)) 2;
      start = c + 2;
      crlf = crlf';
    })
]

-- `{data, crlf}` is a text only where `crlf` is not null and not before `data`.
unfoldable pub current_line : Builder → Outcome Text
current_line s = elim s.crlf [
  | none ↦ undefined
  | some c ↦ do require (leb s.start c); ok (slice s.start c s.buf.bytes)
]

unfoldable pub status_line : Builder → Outcome Builder
status_line s = do
  line ← current_line s
  let i = find b' ' line
  let line' = after i line
  let j = find b' ' line'
  let line'' = after j line'
  let k = find b' ' line''
  st ← stoi (before j line')
  ok (record s {
    version = version_from_string (before i line);
    status_code = st;
    status_message = before k line'';
    line = after k line'';
    code = no_error;
  })

-- One header line: the name before the colon, the value behind it without one leading space.
unfoldable pub header_of : Text → Text × Text
header_of line =
    let i = find b':' line in
    let value = after i line in
    (before i line, if starts_with (codes " ") value then drop 1 value else value)

-- What the loop does with a line: the blank line ends it. `next` is the rest of the loop.
unfoldable pub message_header : (Builder → Outcome Builder) → Builder → Text → Outcome Builder
message_header next s [] = ok (record s { line = []; code = no_error })
message_header next s (c ∷ cs) =
    let (name, value) = header_of (c ∷ cs) in
    next (record s { line = c ∷ cs; headers = emplace name value s.headers })

unfoldable pub message_loop : ℕ → Builder → Outcome Builder
message_loop zero s = diverged
message_loop (suc fuel) s = do
  s' ← next_line s
  line ← current_line s'
  message_header (message_loop fuel) s' line

-- Each line moves `data` on, and it stays within the buffer.
unfoldable pub message_line : Builder → Outcome Builder
message_line s = message_loop (suc s.buf.writer_index) (record s { code = messages })

unfoldable pub content_length : ℕ → Builder → Outcome Builder
content_length len s =
    if ltb (readable_bytes s.buf) (add64 (add64 s.read_number len) 2)
    then ok (record s { code = wait_for_data })
    else do
      b ← retrieve (add64 s.read_number 2) s.buf
      r ← retrieve_as_string len b
      ok (record s { buf = r.1; body_text = r.0; code = no_error })

-- A chunk of size 0: what follows it is not the body's.
unfoldable pub last_chunk : Builder → Outcome Builder
last_chunk s = do
  s' ← next_line s
  elim s'.crlf [
    | none ↦ ok s'
    | some c ↦ do b ← retrieve s'.read_number s'.buf; ok (record s' { buf = b; code = no_error })
  ]

-- `next` is the rest of the loop.
unfoldable pub data_chunk : (Builder → Outcome Builder) → ℕ → Builder → Outcome Builder
data_chunk next len s = do
  require (leb (s.buf.reader_index + s.read_number + len) (length s.buf.bytes))
  let n = add64 s.read_number len
  next (record s {
    body_text = s.body_text ++ take len (drop (s.buf.reader_index + s.read_number) s.buf.bytes);
    read_number = n;
    start = s.buf.reader_index + n;
  })

-- What the loop does once the size of a chunk is read.
unfoldable pub chunk : (Builder → Outcome Builder) → ℕ → Builder → Outcome Builder
chunk next len s =
    if len == 0
    then last_chunk s
    else if ltb (readable_bytes s.buf) (add64 (add64 s.read_number len) 2)
    then ok s
    else data_chunk next len s

unfoldable pub transfer_loop : ℕ → Builder → Outcome Builder
transfer_loop zero s = diverged
transfer_loop (suc fuel) s = do
  s' ← next_line s
  elim s'.crlf [
    | none ↦ ok s'
    | some c ↦ do
      line ← current_line s'
      s'' ← next_line (record s' { line = line })
      elim s''.crlf [
        | none ↦ ok s''
        | some d ↦ do len ← stoul 16 line; chunk (transfer_loop fuel) len s''
      ]
  ]

unfoldable pub transfer_encoding : Builder → Outcome Builder
transfer_encoding s = transfer_loop (suc s.buf.writer_index) (record s { code = wait_for_data })

unfoldable pub by_length : Builder → Outcome Builder
by_length s = elim (find_header (codes "Content-Length") s.headers) [
  | none ↦ ok s
  | some v ↦ do len ← stoul 10 v; content_length len s
]

unfoldable pub body_line : Builder → Outcome Builder
body_line s = elim (find_header (codes "Transfer-Encoding") s.headers) [
  | none ↦ by_length (record s { code = body })
  | some v ↦
      if text_eq v (codes "chunked")
      then transfer_encoding (record s { code = body })
      else by_length (record s { code = body })
]

-- `parse` on a new builder
unfoldable pub parse : Buffer → Outcome Builder
parse buf = do
  s ← status_line (record {
    headers = [];
    body_text = [];
    buf = buf;
    read_number = 0;
    crlf = find_crlf buf;
    start = buf.reader_index;
    version = unknown;
    status_code = 0;
    status_message = [];
    line = [];
    code = status;
  })
  s' ← message_line s
  body_line s'

pub record Response : Type 0 where
  pub headers : HeaderMap
  pub body_text : Text
  pub status_code : ℕ
  pub version : Version

-- The response, or the error that `condition` is set to, with what is left of the buffer.
unfoldable pub build_from_buffer : Buffer → Outcome ((ErrorCode × Option Response) × Buffer)
build_from_buffer buf = do
  s ← parse buf
  let made : Option Response = elim s.code [
    | no_error ↦ some (record {
      headers = s.headers;
      body_text = s.body_text;
      status_code = s.status_code;
      version = s.version;
    })
    | _ ↦ none
  ]
  ok ((s.code, made), s.buf)
