-- ===== src/Http/Client/Sending.antt =====
-- What `get` sends: the text that stands in the write buffer when the connection is made.
use hulatang_io.Base.{
  ℕ, suc, ◌+◌, ◌≤◌, ◌≡◌, refl, sym, ap, subst, ◌∙◌, List, [], ◌∷◌, ◌++◌, append_assoc, none, some,
  true, length, Text, codes, Outcome, ok, aborted, >>=-inverse, ok-injective, assert, Succeeds,
  text_eq,
}
use mathlib.Core.List.{Perm}
use hulatang_io.Buffer.{max_size}
use hulatang_io.Buffer.Valid.{IsValid, contents}
use hulatang_io.Buffer.Stream.{concat, put_all, put_all_lem}
use hulatang_io.Http.Constant.{to_string}
use hulatang_io.Http.Url.{Url}
use hulatang_io.Http.Response.{HeaderMap}
use hulatang_io.Http.Request.{
  Request, Method, get, render, header_lines, header_pieces, pieces, crlf, path_or_root, assign,
  add_header, new_request, set_path, set_version, set_method,
}
use hulatang_io.Http.Client.{
  HttpClient, request_for, service_of, get_request, get_url, on_connection, is_null,
}

concat-append : (ps qs : List Text) → concat (ps ++ qs) ≡ concat ps ++ concat qs
concat-append [] qs = refl
concat-append (p ∷ ps) qs =
    ap (λ t. p ++ t) (concat-append ps qs) ∙ sym (append_assoc p (concat ps) (concat qs))

-- The request line of a GET, the lines of the headers, and a blank line.
abbrev pub get_text : Url → HeaderMap → Text
get_text url hs =
    codes "GET"
    ++ codes " "
    ++ path_or_root url.path
    ++ codes " "
    ++ codes "HTTP/1.1"
    ++ crlf
    ++ header_lines hs
    ++ crlf

-- The headers of the request that `get` makes.
abbrev pub get_headers : Url → HeaderMap
get_headers url = (codes "Host", url.host) ∷ (codes "Accept", codes "text/html") ∷ []

request_for-headers : (time : ℕ) (url : Url) → (request_for time url).headers ≡ get_headers url
unfolding text_eq assign request_for add_header set_path set_version set_method new_request
request_for-headers time url = refl

concat-header_pieces : (hs : HeaderMap) → concat (header_pieces hs) ≡ header_lines hs
unfolding header_pieces header_lines
concat-header_pieces [] = refl
concat-header_pieces ((n, v) ∷ hs) = simp (append_assoc, concat-header_pieces hs)

module _ (enum_name : Method → Text) (iterate : HeaderMap → HeaderMap) where
  concat-pieces : (r : Request) → concat (pieces enum_name iterate r) ≡ render enum_name iterate r
  unfolding pieces render
  concat-pieces r = simp (
    append_assoc,
    concat-append (header_pieces (iterate r.headers)) (crlf ∷ []),
    concat-header_pieces (iterate r.headers),
  )

  render-request_for :
      (time : ℕ) (url : Url)
      → enum_name get ≡ codes "GET"
      → render enum_name iterate (request_for time url)
        ≡ get_text url (iterate (request_for time url).headers)
  unfolding render request_for add_header set_path set_version set_method new_request to_string
  render-request_for time url named =
      ap
        (λ t.
          t
          ++ codes " "
          ++ path_or_root url.path
          ++ codes " "
          ++ codes "HTTP/1.1"
          ++ crlf
          ++ header_lines (iterate (request_for time url).headers)
          ++ crlf)
        named

  module _ (junk : ℕ → ℕ) {A : Type 0} (resolve : Text → Text → Outcome A) where
    -- Let a map give its elements in any order. On a client that has made no request, with an empty valid write
    -- buffer, where the host is resolved and a vector of the size can exist, `get(url)` succeeds, keeps the address and
    -- queues one `connect`. A connection is then sent the request line with GET, the path of the URL or the root, and
    -- HTTP/1.1, the lines of two headers, Host with the URL's host and Accept, in one order or the other, and a blank
    -- line.
    pub get_url-sends :
        ((hs : HeaderMap) → Perm (iterate hs) hs)
        → (time : ℕ) (url : Url) (address : A) (c : HttpClient A) → c.client ≡ none
        → IsValid c.write_buffer
        → contents c.write_buffer ≡ []
        → resolve url.host (service_of url) ≡ ok address
        → enum_name get ≡ codes "GET"
        → c.write_buffer.writer_index + length (render enum_name iterate (request_for time url))
          ≤ max_size
        → Succeeds (get_url junk resolve enum_name iterate time url c) λ c'.
          (c'.client ≡ some address)
          × (c'.connects ≡ suc c.connects)
          × ((hs : HeaderMap) × Perm hs (get_headers url)
              × ((on_connection true c').1 ≡ some (get_text url hs)))
    unfolding get_url get_request on_connection
    get_url-sends same_elements time url address c unused v empty resolved named fits =
        let r = request_for time url in
        let put = put_all_lem junk (pieces enum_name iterate r) v (rw (concat-pieces r) fits) in
        (
          record c { client = some address; write_buffer = put.0; connects = suc c.connects },
          rw (unused, is_null) (rw (resolved, put.1) refl),
          (
            refl,
            refl,
            (
              iterate r.headers,
              subst (λ hs. Perm (iterate r.headers) hs) (request_for-headers time url)
                  (same_elements r.headers),
              ap some (
                  put.2.same
                  ∙ ap (λ t. t ++ concat (pieces enum_name iterate r)) empty
                  ∙ concat-pieces r
                  ∙ render-request_for time url named),
            ),
          ),
        )

    -- A client that has made a request makes no other: once `get` has returned, each further call fails its
    -- assertion, whatever has become of the connection.
    pub get_url-twice :
        (time later : ℕ) (url other : Url) (c c' : HttpClient A)
        → get_url junk resolve enum_name iterate time url c ≡ ok c'
        → get_url junk resolve enum_name iterate later other c' ≡ aborted
    unfolding get_url get_request
    get_url-twice time later url other c c' e =
        let (u, e1, r1) = >>=-inverse (assert (is_null c.client)) _ c' e in
        let (a, e2, r2) = >>=-inverse (resolve url.host (service_of url)) _ c' r1 in
        let (b, e3, r3) =
          >>=-inverse
            (put_all junk (pieces enum_name iterate (request_for time url)) c.write_buffer) _ c'
            r2 in
        rw (← ok-injective _ c' r3) refl
