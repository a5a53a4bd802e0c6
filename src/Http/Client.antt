-- ===== src/Http/Client.antt =====
-- hulatang/http/HttpClient.cpp: a request over a connection, and the response to it. An address, the
-- resolution of a name, and the names of the methods are parameters.
pub mod Sending
pub mod Receiving
mod Examples
use hulatang_io.Base.{
  ℕ, suc, List, [], ◌∷◌, Bool, true, false, if◌then◌else◌, Option, none, some, length, Text, codes,
  Outcome, ok, ◌>>=◌, ◌>>◌, assert,
}
use hulatang_io.Buffer.{Buffer, append, retrieve_all, to_string_view}
use hulatang_io.Buffer.Stream.{put_all}
use hulatang_io.Http.Constant.{http11}
use hulatang_io.Http.Url.{Url}
use hulatang_io.Http.Request.{
  Request, Method, get, new_request, add_header, set_path, set_version, set_method, pieces,
}
use hulatang_io.Http.Response.{Response, HeaderMap, build_from_buffer}

-- `client` is the address that `client_` was made for, and `connects` the calls of `connect` that are
-- queued.
pub record HttpClient (A : Type 0) : Type 0 where
  pub client : Option A
  pub read_buffer : Buffer
  pub write_buffer : Buffer
  pub connects : ℕ

-- The request that `get(url, cb)` makes, `time` being what the constructor finds.
unfoldable pub request_for : ℕ → Url → Request
request_for time url = add_header (codes "Accept") (codes "text/html") (
    add_header (codes "Host") url.host
      (set_method get (set_version http11 (set_path url.path (new_request time)))))

abbrev is_null : {A : Type 0} → Option A → Bool
is_null none = true
is_null (some a) = false

-- `if (!url.port().empty())`: the service is the port, or the protocol where there is no port.
unfoldable pub service_of : Url → Text
service_of url = elim url.port [ [] ↦ url.protocol | _ ∷ _ ↦ url.port ]

module _ (junk : ℕ → ℕ) {A : Type 0} (resolve : Text → Text → Outcome A) (enum_name : Method → Text)
    (iterate : HeaderMap → HeaderMap) where
  -- `get(url, req, cb)`
  unfoldable pub get_request : Url → Request → HttpClient A → Outcome (HttpClient A)
  get_request url req c = do
    assert (is_null c.client)
    address ← resolve url.host (service_of url)
    b ← put_all junk (pieces enum_name iterate req) c.write_buffer
    ok (record c { client = some address; write_buffer = b; connects = suc c.connects })

  -- `get(url, cb)`
  unfoldable pub get_url : ℕ → Url → HttpClient A → Outcome (HttpClient A)
  get_url time url c = get_request url (request_for time url) c

-- `onConnection`: what is given to `send`, where the connection is connected.
unfoldable pub on_connection : {A : Type 0} → Bool → HttpClient A → HttpClient A × Option Text
on_connection connected c =
    if connected
    then (
      record c { read_buffer = retrieve_all c.read_buffer },
      some (to_string_view c.write_buffer),
    )
    else (c, none)

-- The calls of the request's callback.
abbrev pub answers : Option Response → List Response
answers none = []
answers (some response) = response ∷ []

-- `onMessage`
unfoldable pub on_message :
    (ℕ → ℕ) → {A : Type 0} → Text → HttpClient A → Outcome (HttpClient A × List Response)
on_message junk buf c = do
  b ← append junk buf (length buf) c.read_buffer
  r ← build_from_buffer b
  ok (record c { read_buffer = r.1 }, answers r.0.1)
