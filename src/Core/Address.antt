-- ===== src/Core/Address.antt =====
-- src/core/address.hpp and src/core/address.cpp: resolved addresses. getaddrinfo, getnameinfo and
-- gai_strerror are not in the repository: what they give is an argument. A family other than
-- AF_INET and AF_INET6 is its number.
use dariyanaap.Prelude.{ℕ, List, [], ◌∷◌, ◌++◌, Option, none, some}
use dariyanaap.Prelude.Text.{Bytes, codes, to_string}
use dariyanaap.Core.Errors.{io_error, Result, ok, err}
use dariyanaap.Core.Endpoint.{Endpoint, str}

-- The storage of a socket address: its host, as the system keeps it, and its port.
pub data SocketAddress : Type 0 where
  inet : Bytes → ℕ → SocketAddress
  inet6 : Bytes → ℕ → SocketAddress
  other : ℕ → SocketAddress

unfoldable pub with_port : SocketAddress → ℕ → Result SocketAddress
with_port (inet host old) port = ok (inet host port)
with_port (inet6 host old) port = ok (inet6 host port)
with_port (other family) port =
    err (io_error (codes "cannot set a port on address family " ++ to_string family))

-- What getnameinfo gives: the host and the port as texts, or nothing where it fails.
abbrev pub printed : SocketAddress → Option (Bytes × Bytes) → Bytes
printed address none = codes "<unprintable address>"
printed (inet h p) (some (host, port)) = host ++ (codes ":" ++ port)
printed (inet6 h p) (some (host, port)) = codes "[" ++ (host ++ (codes "]:" ++ port))
printed (other f) (some (host, port)) = host ++ (codes ":" ++ port)

unfoldable pub address_str : (SocketAddress → Option (Bytes × Bytes)) → SocketAddress → Bytes
address_str name_info address = printed address (name_info address)

-- What getaddrinfo gives: its code where it fails, and else the list of its results.
pub data AddrInfo : Type 0 where
  unresolved : ℕ → AddrInfo
  addresses : List SocketAddress → AddrInfo

abbrev pub usable : Endpoint → List SocketAddress → Result (List SocketAddress)
usable endpoint [] =
    err (io_error (codes "resolved " ++ (str endpoint ++ codes " to no addresses")))
usable endpoint (a ∷ rest) = ok (a ∷ rest)

abbrev pub taken : (ℕ → Bytes) → Endpoint → AddrInfo → Result (List SocketAddress)
taken gai_strerror endpoint (unresolved code) =
    err (io_error (codes "cannot resolve " ++ (str endpoint ++ (codes ": " ++ gai_strerror code))))
taken gai_strerror endpoint (addresses results) = usable endpoint results

unfoldable pub resolve :
    (ℕ → Bytes) → (Endpoint → AddrInfo) → Endpoint → Result (List SocketAddress)
resolve gai_strerror getaddrinfo endpoint = taken gai_strerror endpoint (getaddrinfo endpoint)
