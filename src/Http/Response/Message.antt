-- ===== src/Http/Response/Message.antt =====
-- hulatang/http/HttpResponse.cpp: the HttpResponse itself, as it is made from what was read and as it is asked.
use hulatang_io.Base.{
  ◌≡◌, ◌≢◌, refl, sym, ◌∙◌, [], ◌∷◌, Bool, false, Option, none, some, ap, >>=-inverse, ok-injective,
  Text, text_eq, text_eq_self, text_eq_sound, Bool-cases, inl, inr, Outcome, ok, undefined, ◌>>=◌,
  ℕ,
}
use hulatang_io.Buffer.{Buffer}
use hulatang_io.Http.Constant.{Version, unknown}
use hulatang_io.Http.Response.{
  ErrorCode, HeaderMap, Response, find_header, emplace, build_from_buffer,
}

-- `headers` is a pointer to the map, or null.
pub record HttpResponse : Type 0 where
  pub headers : Option HeaderMap
  pub body_text : Text
  pub status_code : ℕ
  pub version : Version
  pub close_connection : Bool

-- `HttpResponse()`
unfoldable pub new_response : HttpResponse
new_response = record {
  headers = none;
  body_text = [];
  status_code = 0;
  version = unknown;
  close_connection = false;
}

-- `HttpResponse(HeaderMap &&, std::string &&, StatusCode, Version)`
unfoldable pub response_of : Response → HttpResponse
response_of r = record {
  headers = some r.headers;
  body_text = r.body_text;
  status_code = r.status_code;
  version = r.version;
  close_connection = false;
}

abbrev told : ErrorCode → Option Response → HttpResponse × Option ErrorCode
told code none = (new_response, some code)
told code (some made) = (response_of made, none)

-- `buildFromBuffer`: the response, with the error that `condition` is set to, and what is left of the buffer
unfoldable pub read_response : Buffer → Outcome ((HttpResponse × Option ErrorCode) × Buffer)
read_response buf = do r ← build_from_buffer buf; ok (told r.0.0 r.0.1, r.1)

unfoldable pub swap_responses : HttpResponse × HttpResponse → HttpResponse × HttpResponse
swap_responses (a, b) = (b, a)

-- `HttpResponse(HttpResponse &&)`: the new one, and what the other is then
unfoldable pub move_response : HttpResponse → HttpResponse × HttpResponse
move_response other =
    let first = swap_responses (new_response, other) in
    ((swap_responses (new_response, first.0)).0, first.1)

abbrev map_of : Option HeaderMap → HeaderMap
map_of none = []
map_of (some hs) = hs

-- `addHeaders` keeps the value of a header that is there.
unfoldable pub add_headers : Text → Text → HttpResponse → HttpResponse
add_headers name value r = record r { headers = some (emplace name value (map_of r.headers)) }

-- `getHeader`, which reads the map through the pointer
unfoldable pub response_header : Text → HttpResponse → Outcome Text
response_header name r = elim r.headers [
  | none ↦ undefined
  | some hs ↦ ok (elim (find_header name hs) [ none ↦ [] | some v ↦ v ])
]

-- `setBody` and `setVersion`
unfoldable pub set_body : Text → HttpResponse → HttpResponse
set_body text r = record r { body_text = text }

unfoldable pub set_response_version : Version → HttpResponse → HttpResponse
set_response_version v r = record r { version = v }

-- What a response has for a header.
abbrev present : Text → HttpResponse → Option Text
present name r = find_header name (map_of r.headers)

find_header-emplace :
    (name value : Text) (hs : HeaderMap)
    → find_header name (emplace name value hs)
      ≡ some (elim (find_header name hs) [ none ↦ value | some v ↦ v ])
unfolding emplace
find_header-emplace name value hs = found (find_header name hs) refl
  where
    found :
        (o : Option Text)
        → find_header name hs ≡ o
        → find_header name (elim o [ none ↦ (name, value) ∷ hs | some v ↦ hs ])
          ≡ some (elim o [ none ↦ value | some v ↦ v ])
    found none e = unfold find_header in rw (text_eq_self name) refl
    found (some v) e = e

find_header-emplace_ne :
    (name other value : Text) (hs : HeaderMap)
    → name ≢ other
    → find_header other (emplace name value hs) ≡ find_header other hs
unfolding emplace
find_header-emplace_ne name other value hs h = found (find_header name hs)
  where
    found :
        (o : Option Text)
        → find_header other (elim o [ none ↦ (name, value) ∷ hs | some v ↦ hs ])
          ≡ find_header other hs
    found (some v) = refl
    found none =
        unfold find_header in
        elim (Bool-cases (text_eq name other)) [
          | inl same ↦ absurd (h (text_eq_sound name other same))
          | inr differ ↦ rw differ refl
        ]

-- A header that is added to a response can be read: it has the value that it had, or the new one where it had none;
-- and every other header is what it was, empty where there was none.
pub response_header-add_headers :
    (name value other : Text) (r : HttpResponse)
    → (response_header name (add_headers name value r)
        ≡ ok (elim (present name r) [ none ↦ value | some v ↦ v ]))
      × (name ≢ other
          → response_header other (add_headers name value r)
            ≡ ok (elim (present other r) [ none ↦ [] | some v ↦ v ]))
unfolding response_header add_headers
response_header-add_headers name value other r = (
  rw (find_header-emplace name value (map_of r.headers)) refl,
  λ h. rw (find_header-emplace_ne name other value (map_of r.headers) h) refl,
)

-- Where `buildFromBuffer` sets an error, no header of what it returns can be read.
pub read_response-response_header :
    (name : Text) (e : ErrorCode) (made : HttpResponse) (b b' : Buffer)
    → read_response b ≡ ok ((made, some e), b')
    → response_header name made ≡ undefined
unfolding read_response
read_response-response_header name e made b b' h =
    let r =
      >>=-inverse (build_from_buffer b) (λ r. ok (told r.0.0 r.0.1, r.1)) ((made, some e), b') h in
    failed r.0.0.0 r.0.0.1
      (ap (λ p. p.0) (ok-injective (told r.0.0.0 r.0.0.1, r.0.1) ((made, some e), b') r.2))
  where
    failed :
        (code : ErrorCode) (o : Option Response)
        → told code o ≡ (made, some e)
        → response_header name made ≡ undefined
    failed code none same =
        ap (λ m. response_header name m) (sym (ap (λ p. p.0) same))
        ∙ unfold response_header new_response in refl
    failed code (some r) same = absurd (let wrong : none ≡ some e = ap (λ p. p.1) same in cc)
