-- ===== src/Address.antt =====
-- util/address.{hh,cc}: the IPv4 addresses of endpoints. The constructors from strings ask the
-- resolver of the system for addresses of this family, and the other families are left out.
use tiny_tcp_over_tun.Common.{ℕ, Bool, ◌&&◌, ◌==◌}

-- A `sockaddr_in`, its numbers in the byte order of the host
pub record Address : Type 0 where
  pub ip : ℕ
  pub port : ℕ

unfoldable pub ipv4_numeric : Address → ℕ
ipv4_numeric a = a.ip

unfoldable pub from_ipv4_numeric : ℕ → Address
from_ipv4_numeric ip_address = record { ip = ip_address; port = 0 }

-- `operator==`
unfoldable same_address : Address → Address → Bool
same_address a b = a.ip == b.ip && (a.port == b.port)
