-- ===== src/Io/Address/Examples.antt =====
-- Addresses as texts.
use hulatang_io.Base.{ℕ, ◌≡◌, refl, some, none, Text, codes, ok, thrown, undefined, false}
use hulatang_io.Io.Address.{
  Address, inet, sock_ntop, copy_from_native, from_hostname_and_service, to_text,
}

abbrev format : ℕ → Text
format n = codes "80"

abbrev local_host : ℕ → Address
local_host port = record { family = inet port; host = some (codes "127.0.0.1") }

to_text_inet : to_text format (copy_from_native (local_host 80)) ≡ ok (codes "127.0.0.1:80")
unfolding to_text copy_from_native sock_ntop
to_text_inet = refl

-- An address without a port has no text.
to_text_no_port : to_text format (copy_from_native (local_host 0)) ≡ thrown
unfolding to_text copy_from_native sock_ntop
to_text_no_port = refl

-- Nor has one whose host is not known.
to_text_unknown :
    to_text format
      (from_hostname_and_service (λ host service v4. none) (codes "h") (codes "80") false)
    ≡ undefined
unfolding to_text from_hostname_and_service
to_text_unknown = refl
