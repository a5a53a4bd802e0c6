-- ===== src/Http/Constant.antt =====
-- hulatang/http/HttpConstant.cpp and .hpp: the protocol versions and their names.
use hulatang_io.Base.{
  ◌≡◌, refl, ◌&&◌, ◌==◌, if◌then◌else◌, none, some, length, get_elem?, Text, codes, starts_with, ℕ,
  ◌≤◌, ◌⊎◌, inl, inr, Option, Option-cases, Outcome, ok, thrown, arith,
}

pub data Version : Type 0 where
  unknown http10 http11 : Version

-- `ver[7]`, read only in a text of eight bytes
abbrev last_digit : Text → Version
last_digit ver = elim (get_elem? ver 7) [
  | none ↦ unknown
  | some c ↦ if c == b'0' then http10 else if c == b'1' then http11 else unknown
]

unfoldable pub version_from_string : Text → Version
unfolding starts_with
version_from_string ver =
    if starts_with (codes "HTTP/1.") ver && length ver == 8 then last_digit ver else unknown

unfoldable pub to_string : Version → Text
to_string http10 = codes "HTTP/1.0"
to_string http11 = codes "HTTP/1.1"
to_string unknown = codes "Unknown"

-- The name of every version is read back as that version.
pub version_from_string-to_string : (v : Version) → version_from_string (to_string v) ≡ v
unfolding version_from_string to_string
version_from_string-to_string http10 = refl
version_from_string-to_string http11 = refl
version_from_string-to_string unknown = refl

-- `success` is OK.
pub data StatusCode : Type 0 where
  continue switching_protocols success created accepted non_authoritative_information : StatusCode
  no_content reset_content partial_content multiple_choices moved_permanently found : StatusCode
  see_other not_modified use_proxy temporary_redirect bad_request unauthorized forbidden :
      StatusCode
  not_found method_not_allowed not_acceptable proxy_authentication_required : StatusCode
  request_timeout conflict gone length_required precondition_failed : StatusCode
  request_entity_too_large request_uri_too_large unsupported_media_type : StatusCode
  requested_range_not_satisfiable expectation_failed internal_server_error : StatusCode
  not_implemented bad_gateway service_unavailable gateway_timeout : StatusCode
  http_version_not_supported : StatusCode

-- The value of the enumerator.
unfoldable pub status_number : StatusCode → ℕ
status_number continue = 100
status_number switching_protocols = 101
status_number success = 200
status_number created = 201
status_number accepted = 202
status_number non_authoritative_information = 203
status_number no_content = 204
status_number reset_content = 205
status_number partial_content = 206
status_number multiple_choices = 300
status_number moved_permanently = 301
status_number found = 302
status_number see_other = 303
status_number not_modified = 304
status_number use_proxy = 305
status_number temporary_redirect = 307
status_number bad_request = 400
status_number unauthorized = 401
status_number forbidden = 403
status_number not_found = 404
status_number method_not_allowed = 405
status_number not_acceptable = 406
status_number proxy_authentication_required = 407
status_number request_timeout = 408
status_number conflict = 409
status_number gone = 410
status_number length_required = 411
status_number precondition_failed = 412
status_number request_entity_too_large = 413
status_number request_uri_too_large = 414
status_number unsupported_media_type = 415
status_number requested_range_not_satisfiable = 416
status_number expectation_failed = 417
status_number internal_server_error = 500
status_number not_implemented = 501
status_number bad_gateway = 502
status_number service_unavailable = 503
status_number gateway_timeout = 504
status_number http_version_not_supported = 505

-- `enum_cast` is that of magic_enum.
unfoldable pub status_from_string : (Text → Option StatusCode) → Text → Outcome StatusCode
status_from_string enum_cast status = elim (enum_cast status) [ none ↦ thrown | some e ↦ ok e ]

-- The enumerators that magic_enum looks at, where its range is left as it is.
within_range : (e : StatusCode) → status_number e ≤ 128 → (e ≡ continue) ⊎ (e ≡ switching_protocols)
unfolding status_number
within_range e h = ground arith

-- Where `enum_cast` finds no enumerator above 128, which is the range that magic_enum has unless it is told another,
-- a status is Continue or Switching Protocols, or an exception.
pub status_from_string-range :
    (enum_cast : Text → Option StatusCode)
    → ((status : Text) (e : StatusCode) → enum_cast status ≡ some e → status_number e ≤ 128)
    → (status : Text)
    → (status_from_string enum_cast status ≡ thrown)
      ⊎ (status_from_string enum_cast status ≡ ok continue)
      ⊎ (status_from_string enum_cast status ≡ ok switching_protocols)
unfolding status_from_string
status_from_string-range enum_cast in_range status = elim (Option-cases (enum_cast status)) [
  | inl e ↦ rw (status_from_string, e) (inl refl)
  | inr (c, e) ↦ elim (within_range c (in_range status c e)) [
    | inl h ↦ rw (status_from_string, e, h) (inr (inl refl))
    | inr h ↦ rw (status_from_string, e, h) (inr (inr refl))
  ]
]
