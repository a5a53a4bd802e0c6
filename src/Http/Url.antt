-- ===== src/Http/Url.antt =====
-- hulatang/http/URL.cpp: the parts of a URL. The members are views of the text that is split.
pub mod Delimiters
pub mod RoundTrip
mod Examples
use hulatang_io.Base.{
  ℕ, suc, zero, ◌+◌, List, [], ◌∷◌, Bool, true, false, not, ◌&&◌, ◌||◌, ◌==◌, leb, ltb,
  if◌then◌else◌, Option, none, some, all_of, take, drop, Text, codes, starts_with, find, find_last,
  before, after,
}

unfoldable pub is_hostname_char : ℕ → Bool
is_hostname_char c =
    leb b'a' c && leb c b'z'
    || leb b'A' c && leb c b'Z'
    || leb b'0' c && leb c b'9'
    || c == b'+'
    || c == b'-'
    || c == b'.'

unfoldable pub check_hostname : Text → Bool
check_hostname v = all_of is_hostname_char v

unfoldable pub is_digit : ℕ → Bool
is_digit c = leb b'0' c && leb c b'9'

unfoldable pub all_of_number : Text → Bool
all_of_number v = all_of is_digit v

unfoldable pub check_ip : Text → Bool
check_ip v = elim (find b'[' v) [
  | none ↦ elim (find_last b']' v) [ none ↦ true | some v6end ↦ false ]
  | some v6start ↦ elim (find_last b']' v) [
    | none ↦ false
    | some v6end ↦ if v6start == v6end then true else not (ltb v6end v6start)
  ]
]

abbrev is_empty : Text → Bool
is_empty [] = true
is_empty (x ∷ xs) = false

unfoldable pub try_port : Text → Bool
try_port url = not (is_empty url || not (all_of_number url))

unfoldable pub try_host_port : Text → Option ℕ → Bool
try_host_port url colon_index =
    try_port (after colon_index url)
    && (check_hostname (before colon_index url) || check_ip (before colon_index url))

pub record Url : Type 0 where
  pub host : Text
  pub port : Text
  pub protocol : Text
  pub path : Text
  pub query : Text
  pub ref : Text

abbrev pub no_parts : Url
no_parts = record { host = []; port = []; protocol = []; path = []; query = []; ref = [] }

-- the least of two positions, `npos` being the greatest
abbrev pub min_position : Option ℕ → Option ℕ → Option ℕ
min_position none j = j
min_position (some i) none = some i
min_position (some i) (some j) = if ltb j i then some j else some i

-- the first '/', '?' or '#' of a text
unfoldable pub first_delimiter : Text → Option ℕ
first_delimiter xs = min_position (min_position (find b'/' xs) (find b'?' xs)) (find b'#' xs)

-- The host and the port, with what follows them; `none` where `split` returns.
unfoldable pub host_and_port : Text → Text → Option (Text × Text × Text)
host_and_port host_port rest = elim (find_last b':' host_port) [
  | none ↦ some (host_port, [], rest)
  | some k ↦
      if try_host_port host_port (some k)
      then some (before (some k) host_port, after (some k) host_port, rest)
      else none
]

abbrev pub from : Option ℕ → Text → Text
from none xs = []
from (some k) xs = drop k xs

-- The argument stands after the two slashes.
unfoldable pub split_host_port : Text → Option (Text × Text × Text)
split_host_port xs = let i = first_delimiter xs in host_and_port (before i xs) (from i xs)

-- The text before the last '#', and the reference behind it.
unfoldable pub cut_ref : Text → Text × Text
cut_ref url = elim (find_last b'#' url) [
  | none ↦ (url, [])
  | some i ↦ (before (some i) url, after (some i) url)
]

-- The text before the first '?', and the query behind it.
unfoldable pub cut_query : Text → Text × Text
cut_query url = elim (find b'?' url) [
  | none ↦ (url, [])
  | some i ↦ (before (some i) url, after (some i) url)
]

unfoldable pub split_path : Url → Text → Url
split_path u url =
    let (rest, ref) = cut_ref url in
    let (path, query) = cut_query rest in record u { path = path; query = query; ref = ref }

-- what `split` does with the text behind the protocol
unfoldable pub split_rest : Url → Text → Url
split_rest u rest =
    if starts_with (codes "//") rest
    then elim (split_host_port (drop 2 rest)) [
      | none ↦ u
      | some (host, port, tail) ↦ split_path (record u { host = host; port = port }) tail
    ]
    else split_path u rest

unfoldable pub split : Text → Url
split url =
    let i = find b':' url in
    if try_host_port url i
    then no_parts
    else split_rest (record no_parts { protocol = before i url }) (after i url)
