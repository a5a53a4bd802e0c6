-- ===== src/Http/Request.antt =====
-- hulatang/http/HttpRequest.cpp and .hpp: a request and what is sent of it. The names of the methods
-- come from magic_enum, and the order of a map's elements from its std::unordered_map: both are parameters.
pub mod Headers
mod Examples
use hulatang_io.Base.{
  ℕ, List, [], ◌∷◌, ◌++◌, Bool, true, false, not, ◌&&◌, ◌||◌, ◌==◌, leb, if◌then◌else◌, Option,
  none, some, suc, take, drop, Text, codes, text_eq, later, Outcome, ok, undefined,
}
use hulatang_io.Http.Constant.{Version, unknown, http10, http11, version_from_string, to_string}
use hulatang_io.Http.Response.{HeaderMap, find_header}

pub data Method : Type 0 where
  invalid get post head put delete : Method

pub record Request : Type 0 where
  pub method : Method
  pub version : Version
  pub receive_time : ℕ
  pub headers : HeaderMap
  pub path : Text
  pub query : Text

-- the constructor, which does not set the time
unfoldable pub new_request : ℕ → Request
new_request time = record {
  method = invalid;
  version = unknown;
  receive_time = time;
  headers = [];
  path = [];
  query = [];
}

-- `(*headers_)[name] = value`
unfoldable pub assign : Text → Text → HeaderMap → HeaderMap
assign name value [] = (name, value) ∷ []
assign name value ((n, v) ∷ hs) =
    let rest = assign name value hs in if text_eq n name then (n, value) ∷ hs else (n, v) ∷ rest

unfoldable pub add_header : Text → Text → Request → Request
add_header name value r = record r { headers = assign name value r.headers }

unfoldable pub is_space : ℕ → Bool
is_space c = c == 32 || leb 9 c && leb c 13

-- `find_if_not` with `isSpace`, from the front
unfoldable pub skip_spaces : Text → Text
skip_spaces [] = []
skip_spaces (c ∷ cs) = let rest = skip_spaces cs in if is_space c then rest else c ∷ cs

-- Where the last byte stands that is no space.
unfoldable pub last_non_space : Text → Option ℕ
last_non_space [] = none
last_non_space (c ∷ cs) = elim (last_non_space cs) [
  | none ↦ if is_space c then none else some 0
  | some i ↦ some (suc i)
]

-- The value ends at `&*end_`, the last byte that is no space; where there is none, that is before its
-- beginning.
abbrev pub add_value : Text → Text → Request → Outcome Request
add_value name value r = elim (last_non_space value) [
  | none ↦ undefined
  | some i ↦ ok (add_header name (take i value) r)
]

-- `addHeader(start, colon, end)`: `name` is the text before the colon and `rest` that behind it.
unfoldable pub add_header_line : Text → Text → Request → Outcome Request
add_header_line name rest r = add_value name (skip_spaces rest) r

unfoldable pub get_header : Text → Request → Text
get_header field r = elim (find_header field r.headers) [ none ↦ [] | some v ↦ v ]

unfoldable pub swap : Request × Request → Request × Request
swap (a, b) = (b, a)

abbrev is_known : Version → Bool
is_known unknown = false
is_known http10 = true
is_known http11 = true

unfoldable pub set_version_from_string : Text → Request → Bool × Request
set_version_from_string version r =
    let v = version_from_string version in (is_known v, record r { version = v })

unfoldable pub set_version : Version → Request → Request
set_version version r = record r { version = version }

unfoldable pub set_method : Method → Request → Request
set_method method r = record r { method = method }

abbrev method_of : Text → Method
method_of method =
    if text_eq method (codes "GET")
    then get
    else if text_eq method (codes "POST")
    then post
    else if text_eq method (codes "HEAD")
    then head
    else if text_eq method (codes "PUT")
    then put
    else if text_eq method (codes "DELETE")
    then delete
    else invalid

abbrev is_valid : Method → Bool
is_valid invalid = false
is_valid m = true

unfoldable pub set_method_from_string : Text → Request → Bool × Request
set_method_from_string method r = let m = method_of method in (is_valid m, record r { method = m })

unfoldable pub set_path : Text → Request → Request
set_path path r = record r { path = path }

-- a line break
abbrev pub crlf : Text
crlf = 13 ∷ 10 ∷ []

unfoldable pub header_lines : HeaderMap → Text
header_lines [] = []
header_lines ((n, v) ∷ hs) = n ++ codes ":" ++ v ++ crlf ++ header_lines hs

abbrev pub path_or_root : Text → Text
path_or_root [] = codes "/"
path_or_root (c ∷ cs) = c ∷ cs

unfoldable pub header_pieces : HeaderMap → List Text
header_pieces [] = []
header_pieces ((n, v) ∷ hs) = n ∷ codes ":" ∷ v ∷ crlf ∷ header_pieces hs

-- `iterate` is the order in which the elements of the std::unordered_map come.
module _ (enum_name : Method → Text) (iterate : HeaderMap → HeaderMap) where
  -- `operator<<`
  unfoldable pub render : Request → Text
  render r =
      enum_name r.method
      ++ codes " "
      ++ path_or_root r.path
      ++ codes " "
      ++ to_string r.version
      ++ crlf
      ++ header_lines (iterate r.headers)
      ++ crlf

  -- The operands of `<<`, in order.
  unfoldable pub pieces : Request → List Text
  pieces r =
      enum_name r.method
        ∷ codes " "
        ∷ path_or_root r.path
        ∷ codes " "
        ∷ to_string r.version
        ∷ crlf
        ∷ header_pieces (iterate r.headers)
      ++ crlf ∷ []
