-- ===== src/Http/Request/Examples.antt =====
-- A request with a header, and what is sent of it.
use hulatang_io.Base.{◌≡◌, refl, [], ◌∷◌, ◌++◌, Text, codes}
use hulatang_io.Http.Constant.{http11, to_string}
use hulatang_io.Http.Request.{
  Request, Method, invalid, get, post, head, put, delete, render, header_lines, crlf,
}

abbrev names : Method → Text
names invalid = codes "INVALID"
names get = codes "GET"
names post = codes "POST"
names head = codes "HEAD"
names put = codes "PUT"
names delete = codes "DELETE"

abbrev plain : Request
plain = record {
  method = get;
  version = http11;
  receive_time = 0;
  headers = (codes "Host", codes "a.org") ∷ [];
  path = [];
  query = [];
}

render-plain :
    render names (λ hs. hs) plain
    ≡ codes "GET / HTTP/1.1" ++ crlf ++ codes "Host:a.org" ++ crlf ++ crlf
unfolding render header_lines to_string
render-plain = refl
