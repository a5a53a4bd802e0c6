-- ===== src/Http/Request/Headers.antt =====
-- The headers and the method of an HttpRequest.
use hulatang_io.Base.{
  ℕ, ◌≡◌, ◌≢◌, refl, sym, ap, ◌∙◌, [], ◌∷◌, ◌++◌, false, length, some, take-append, Text, codes,
  text_eq, text_eq_self, text_eq_sound, Bool-cases, ok, inl, inr, if◌then◌else◌,
}
use hulatang_io.Http.Response.{HeaderMap, find_header}
use hulatang_io.Http.Request.{
  Request, Method, invalid, get, post, head, put, delete, assign, add_header, add_header_line,
  add_value, get_header, is_space, skip_spaces, last_non_space, set_method_from_string,
}

find_header-assign :
    (name value : Text) (hs : HeaderMap) → find_header name (assign name value hs) ≡ some value
unfolding find_header assign
find_header-assign name value [] = rw (text_eq_self name) refl
find_header-assign name value ((n, v) ∷ hs) = elim (Bool-cases (text_eq n name)) [
  | inl same ↦ rw same (rw same refl)
  | inr differ ↦ rw differ (rw differ (find_header-assign name value hs))
]

find_header-assign_ne :
    (name other value : Text) (hs : HeaderMap)
    → name ≢ other
    → find_header other (assign name value hs) ≡ find_header other hs
unfolding find_header assign
find_header-assign_ne name other value [] h = elim (Bool-cases (text_eq name other)) [
  | inl same ↦ absurd (h (text_eq_sound name other same))
  | inr differ ↦ rw differ refl
]
find_header-assign_ne name other value ((n, v) ∷ hs) h = elim (Bool-cases (text_eq n name)) [
  | inl same ↦ rw same (elim (Bool-cases (text_eq n other)) [
    | inl also ↦ absurd (h (sym (text_eq_sound n name same) ∙ text_eq_sound n other also))
    | inr differ ↦ rw differ refl
  ])
  | inr differ ↦ rw differ (
      ap (λ rest. if text_eq n other then some v else rest)
        (find_header-assign_ne name other value hs h))
]

-- A header that is added is found again, with its new value where it had one, and no other header
-- changes.
pub get_header-add_header :
    (name value other : Text) (r : Request)
    → (get_header name (add_header name value r) ≡ value)
      × (name ≢ other → get_header other (add_header name value r) ≡ get_header other r)
unfolding get_header add_header
get_header-add_header name value other r = (
  rw (find_header-assign name value r.headers, get_header) refl,
  λ h. rw (find_header-assign_ne name other value r.headers h, get_header) refl,
)

last_non_space-append :
    (s : Text) (c : ℕ) → is_space c ≡ false → last_non_space (s ++ c ∷ []) ≡ some (length s)
unfolding last_non_space
last_non_space-append [] c h = rw h refl
last_non_space-append (d ∷ s) c h = rw (last_non_space-append s c h) refl

-- A header line with one space behind the colon and a value of two bytes or more that begins and
-- ends in no space loses the last byte: the header gets the value without it.
pub add_header_line-drops :
    (name value : Text) (first last : ℕ) (r : Request)
    → is_space first ≡ false
    → is_space last ≡ false
    → add_header_line name (32 ∷ first ∷ value ++ last ∷ []) r
      ≡ ok (add_header name (first ∷ value) r)
unfolding add_header_line skip_spaces is_space
add_header_line-drops name value first last r h k = rw skipped (
    rw (last_non_space-append (first ∷ value) last k, add_value)
      (rw (take-append (length (first ∷ value)) (first ∷ value) (last ∷ []) refl) refl))
  where
    skipped : skip_spaces (32 ∷ first ∷ value ++ last ∷ []) ≡ first ∷ value ++ last ∷ []
    skipped = rw h refl

-- Where the names are those of the enumerators, a method is read back from its name, and every
-- method but the invalid one counts as read.
pub set_method_from_string-name :
    (enum_name : Method → Text) (r : Request)
    → enum_name get ≡ codes "GET"
    → enum_name post ≡ codes "POST"
    → enum_name head ≡ codes "HEAD"
    → enum_name put ≡ codes "PUT"
    → enum_name delete ≡ codes "DELETE"
    → enum_name invalid ≡ codes "INVALID"
    → (m : Method)
    → ((set_method_from_string (enum_name m) r).1 ≡ record r { method = m })
      × ((set_method_from_string (enum_name m) r).0 ≡ false → m ≡ invalid)
unfolding set_method_from_string text_eq
set_method_from_string-name enum_name r e1 e2 e3 e4 e5 e6 get = rw e1 (refl, λ e. absurd cc)
set_method_from_string-name enum_name r e1 e2 e3 e4 e5 e6 post = rw e2 (refl, λ e. absurd cc)
set_method_from_string-name enum_name r e1 e2 e3 e4 e5 e6 head = rw e3 (refl, λ e. absurd cc)
set_method_from_string-name enum_name r e1 e2 e3 e4 e5 e6 put = rw e4 (refl, λ e. absurd cc)
set_method_from_string-name enum_name r e1 e2 e3 e4 e5 e6 delete = rw e5 (refl, λ e. absurd cc)
set_method_from_string-name enum_name r e1 e2 e3 e4 e5 e6 invalid = rw e6 (refl, λ e. refl)
