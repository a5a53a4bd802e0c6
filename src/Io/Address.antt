-- ===== src/Io/Address.antt =====
-- hulatang/io/InetAddress.cpp: the address of a socket. What `inet_ntop` and `getaddrinfo` answer is an argument, and
-- so is how fmt prints a number.
mod Examples
use hulatang_io.Base.{
  ℕ, List, [], ◌∷◌, ◌++◌, Bool, true, false, ◌==◌, if◌then◌else◌, Option, none, some, Text, codes,
  Outcome, ok, thrown, undefined, ◌>>=◌,
}

-- The families that the code tells apart, with the port in the order of the host.
pub data Family : Type 0 where
  unspecified : Family
  inet inet6 : (port : ℕ) → Family
  other : Family

-- `host` is what `inet_ntop` makes of the address, where it succeeds.
pub record Address : Type 0 where
  pub family : Family
  pub host : Option Text

-- An InetAddress; `sockaddr` is null in one that is made of nothing.
pub record InetAddress : Type 0 where
  pub sockaddr : Option Address

abbrev printed : Option Text → (Text → Outcome Text) → Outcome Text
printed none k = ok []
printed (some host) k = k host

-- `sock_ntop`, not on Windows: a port of 0 leaves the switch.
unfoldable pub sock_ntop : (ℕ → Text) → Address → Outcome Text
sock_ntop format a = elim a.family [
  | unspecified ↦ ok (codes "unspecified")
  | inet port ↦
      printed a.host λ host. if port == 0 then thrown else ok (host ++ codes ":" ++ format port)
  | inet6 port ↦
      printed a.host
        λ host. if port == 0 then thrown else ok (codes "[" ++ host ++ codes "]:" ++ format port)
  | other ↦ thrown
]

-- `copyFromNative`
unfoldable pub copy_from_native : Address → InetAddress
copy_from_native a = record { sockaddr = some a }

-- `fromHostnameAndService`, which returns an address made of nothing where the name is not found.
unfoldable pub from_hostname_and_service :
    (Text → Text → Bool → Option Address) → Text → Text → Bool → InetAddress
from_hostname_and_service lookup host service mandatory_ipv4 =
    elim (lookup host service mandatory_ipv4) [
      | none ↦ record { sockaddr = none }
      | some a ↦ record { sockaddr = some a }
    ]

-- `fromHostnameAndPort`
unfoldable pub from_hostname_and_port :
    (Text → Text → Bool → Option Address) → (ℕ → Text) → Text → ℕ → Bool → InetAddress
from_hostname_and_port lookup format host port mandatory_ipv4 =
    from_hostname_and_service lookup host (format port) mandatory_ipv4

-- `toString`
unfoldable pub to_text : (ℕ → Text) → InetAddress → Outcome Text
to_text format a = elim a.sockaddr [ none ↦ undefined | some address ↦ sock_ntop format address ]
