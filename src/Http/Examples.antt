-- ===== src/Http/Examples.antt =====
-- The names of hulatang/http/HttpConstant.cpp.
use hulatang_io.Base.{◌≡◌, refl, codes}
use hulatang_io.Http.Constant.{unknown, version_from_string}

version_from_string_unknown : version_from_string (codes "HTTP/2.0") ≡ unknown
unfolding version_from_string
version_from_string_unknown = refl
