-- ===== src/Tests/Forwarding.antt =====
-- The theorems on `Router::route` (src/router.cc) at concrete inputs.
use tiny_tcp_over_tun.Common.{
  ℕ, zero, suc, ◌<◌, ◌≡◌, [], ◌∷◌, Bool, true, false, Option, some, arith, refl, ap, sym, ◌∙◌,
  some_injective,
}
use tiny_tcp_over_tun.Address.{Address}
use tiny_tcp_over_tun.Ref.{owned}
use tiny_tcp_over_tun.Ethernet.{EthernetAddress}
use tiny_tcp_over_tun.Ipv4.{Ipv4Datagram, new_header}
use tiny_tcp_over_tun.NetworkInterface.{NetworkInterface, ArpEntry}
use tiny_tcp_over_tun.NetworkInterface.Learns.{AllV4}
use tiny_tcp_over_tun.Router.{
  RouteEntry, node, null, bit, child, route_entry, search_from, best_match, better,
}
use tiny_tcp_over_tun.Router.Forward.{Table, route}
use tiny_tcp_over_tun.Router.Forwarded.{queue_of, AllRoutes}
use tiny_tcp_over_tun.Router.Emptied.{route-Emptied}

abbrev first_address : EthernetAddress
first_address = 2 ∷ 0 ∷ 0 ∷ 0 ∷ 0 ∷ 1 ∷ []

abbrev hop_address : EthernetAddress
hop_address = 2 ∷ 0 ∷ 0 ∷ 0 ∷ 0 ∷ 9 ∷ []

abbrev hop : ArpEntry
hop = record { mac = hop_address; expiration_time_ms = 30000 }

abbrev packet : Ipv4Datagram
packet = record {
  header = record new_header { src = 167772161; dst = 134744072; len = 22; ttl = 64 };
  payload = owned (104 ∷ 105 ∷ []) ∷ [];
}

-- The inside interface has received a datagram, and the outside one knows the next hop, 192.168.0.9.
abbrev inside : NetworkInterface
inside = record {
  ethernet_address = first_address;
  ip_address = record { ip = 167772170; port = 0 };
  datagrams_received = packet ∷ [];
  arp_cache = [];
  pending_ip_datagrams = [];
  arp_request_times = [];
  total_time_ms = 0;
  transmitted = [];
}

abbrev outside : NetworkInterface
outside = record inside { datagrams_received = []; arp_cache = (3232235529, hop) ∷ [] }

abbrev gateway : RouteEntry Address
gateway = record {
  route_prefix = 0;
  prefix_length = 0;
  next_hop = some (record { ip = 3232235529; port = 0 });
  interface_num = 1;
}

abbrev router : Table
router = record { interfaces = inside ∷ outside ∷ []; trie_root = node (some gateway) null null }

no_child : (b : Bool) → child b router.trie_root ≡ null
unfolding child
no_child true = refl
no_child false = refl

to_gateway : (dst : ℕ) → best_match dst router.trie_root ≡ some gateway
unfolding best_match search_from route_entry
to_gateway dst =
    ap
      (λ next. elim next as (λ _. Option (RouteEntry Address)) [
        | null ↦ some gateway
        | node r zeros ones ↦ search_from 31 1 dst next (better next (some gateway))
      ])
      (no_child (bit 0 dst))

router-AllRoutes : AllRoutes router
router-AllRoutes dst e found =
    let same : gateway ≡ e = some_injective (sym (to_gateway dst) ∙ found) in
    omega (arith, ap (λ r. r.interface_num) same)

router-AllV4 : (j : ℕ) → AllV4 (queue_of j router.interfaces)
router-AllV4 zero = (refl, tt)
router-AllV4 (suc zero) = tt
router-AllV4 (suc (suc j)) = tt

route-Emptied_example :
    (after : Table) × (route router ≡ some after)
    × ((j : ℕ) → j < 2 → queue_of j after.interfaces ≡ [])
route-Emptied_example = route-Emptied router router-AllRoutes router-AllV4
