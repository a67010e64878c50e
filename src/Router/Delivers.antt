-- ===== src/Router/Delivers.antt =====
-- Which datagrams a router sends on (`route` of src/router.cc).
use tiny_tcp_over_tun.Common.{
  ℕ, ◌-◌, ◌≤◌, ◌<◌, ◌≡◌, ◌⊎◌, List, [], ◌∷◌, ◌++◌, Option, none, some, lookup,
}
use tiny_tcp_over_tun.Address.{Address, ipv4_numeric}
use tiny_tcp_over_tun.Parser.Serializer.{Serializer, new}
use tiny_tcp_over_tun.Ethernet.{EthernetFrame, ethernet_broadcast}
use tiny_tcp_over_tun.Arp
use tiny_tcp_over_tun.Ipv4.{Ipv4Datagram}
use tiny_tcp_over_tun.NetworkInterface.{NetworkInterface, ArpEntry, copy_datagram, request_for}
use tiny_tcp_over_tun.NetworkInterface.Sends.{arp_frame, datagram_frame}
use tiny_tcp_over_tun.NetworkInterface.Requests.{Waits}
use tiny_tcp_over_tun.Router.{RouteEntry}
use tiny_tcp_over_tun.Router.Longest.{newest, Longest}
use tiny_tcp_over_tun.Router.Forward.{Table, set_at, interface, next_address}

-- The datagram that a router sends on
abbrev pub aged : Ipv4Datagram → Ipv4Datagram
aged d = record d { header = record d.header { ttl = d.header.ttl - 1 } }

-- The newest of the routes with the longest prefix that matches
abbrev pub Best : List (RouteEntry Address) → ℕ → RouteEntry Address → Type 0
Best routes dst_ip e =
    (k : ℕ) × (k ≤ 32)
    × (newest k dst_ip routes ≡ some e)
    × ((j : ℕ) → k < j → j ≤ 32 → newest j dst_ip routes ≡ none)

-- The datagram waits for the address `a`, behind what waits there already, if anything, and at most
-- one ARP request has been transmitted for it.
abbrev pub Queued : Ipv4Datagram → Address → NetworkInterface → NetworkInterface → Type 0
Queued d a n after =
    (frames : List EthernetFrame) × (queue : List Ipv4Datagram) × Waits a n after frames
      (queue ++ copy_datagram d ∷ [])
    × ((frames ≡ [])
        ⊎ ((s : Serializer) × (Arp.serialize (request_for (ipv4_numeric a) n) new ≡ some s)
            × (frames ≡ arp_frame n.ethernet_address ethernet_broadcast s ∷ [])))

-- What becomes of a datagram in a router with these routes.
pub data Routed (routes : List (RouteEntry Address)) (d : Ipv4Datagram) (r : Table)
    : Option Table → Type 0 where
  expired : d.header.ttl ≤ 1 → Routed routes d r (some r)
  unrouted :
      1 < d.header.ttl
      → ((j : ℕ) → j ≤ 32 → newest j d.header.dst routes ≡ none)
      → Routed routes d r (some r)
  no_interface :
      (e : RouteEntry Address)
      → 1 < d.header.ttl
      → Best routes d.header.dst e
      → interface e.interface_num r ≡ none
      → Routed routes d r none
  forwarded :
      (e : RouteEntry Address) (target : NetworkInterface) (hop : ArpEntry)
      → 1 < d.header.ttl
      → Best routes d.header.dst e
      → interface e.interface_num r ≡ some target
      → lookup (ipv4_numeric (next_address e d.header.dst)) target.arp_cache ≡ some hop
      → Routed routes d r (
          some (record r {
            interfaces =
                set_at e.interface_num
                  (record target {
                    transmitted =
                        target.transmitted
                        ++ datagram_frame target.ethernet_address hop.mac (aged d) ∷ [];
                  })
                  r.interfaces;
          }))
  waits :
      (e : RouteEntry Address) (target after : NetworkInterface)
      → 1 < d.header.ttl
      → Best routes d.header.dst e
      → interface e.interface_num r ≡ some target
      → lookup (ipv4_numeric (next_address e d.header.dst)) target.arp_cache ≡ none
      → Queued (aged d) (next_address e d.header.dst) target after
      → Routed routes d r
          (some (record r { interfaces = set_at e.interface_num after r.interfaces }))
