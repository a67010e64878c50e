-- ===== src/Router/Forward.antt =====
-- src/router.{hh,cc}: the interfaces of a router, and `route`. An interface is added once, so that its
-- index tells which one it is. `none` is an exception.
use tiny_tcp_over_tun.Common.{
  ℕ, zero, suc, ◌-◌, List, [], ◌∷◌, ◌++◌, length, Option, none, some, leb, ltb, if◌then◌else◌,
}
use tiny_tcp_over_tun.Address.{Address, from_ipv4_numeric}
use tiny_tcp_over_tun.Ipv4.{Ipv4Datagram}
use tiny_tcp_over_tun.NetworkInterface.{NetworkInterface, send_datagram}
use tiny_tcp_over_tun.Router
use tiny_tcp_over_tun.Router.{RouteEntry, Trie, null, node, best_match}

pub record Table : Type 0 where
  pub interfaces : List NetworkInterface
  pub trie_root : Trie (RouteEntry Address)

abbrev pub new_router : Table
new_router = record { interfaces = []; trie_root = node none null null }

-- `add_interface` and the index that it returns
unfoldable add_interface : NetworkInterface → Table → ℕ × Table
add_interface interface r =
    (length r.interfaces, record r { interfaces = r.interfaces ++ interface ∷ [] })

-- `none`: a prefix longer than an address, for which the shift of the source is undefined.
unfoldable pub add_route : ℕ → ℕ → Option Address → ℕ → Table → Option Table
add_route route_prefix prefix_length next_hop interface_num r =
    if ltb 32 prefix_length
    then none
    else some (record r {
      trie_root =
          Router.add_route
            (record {
              route_prefix = route_prefix;
              prefix_length = prefix_length;
              next_hop = next_hop;
              interface_num = interface_num;
            })
            r.trie_root;
    })

-- `interfaces_.at( N )`
unfoldable pub at : {A : Type 0} → ℕ → List A → Option A
at n [] = none
at zero (x ∷ xs) = some x
at (suc n) (x ∷ xs) = at n xs

unfoldable pub set_at : {A : Type 0} → ℕ → A → List A → List A
set_at n a [] = []
set_at zero a (x ∷ xs) = a ∷ xs
set_at (suc n) a (x ∷ xs) = x ∷ set_at n a xs

unfoldable pub interface : ℕ → Table → Option NetworkInterface
unfolding at
interface n r = at n r.interfaces

unfoldable pub next_address : RouteEntry Address → ℕ → Address
next_address best_match dst_ip = elim best_match.next_hop [
  | none ↦ from_ipv4_numeric dst_ip
  | some addr ↦ addr
]

-- A datagram whose time to live has been counted down, by the route that matched
unfoldable pub send_by : RouteEntry Address → Ipv4Datagram → Table → Option Table
unfolding interface set_at next_address
send_by best_match dgram r = elim (interface best_match.interface_num r) [
  | none ↦ none
  | some target_iface ↦
      elim (send_datagram dgram (next_address best_match dgram.header.dst) target_iface) [
        | none ↦ none
        | some sent ↦
            some (record r { interfaces = set_at best_match.interface_num sent r.interfaces })
      ]
]

-- The body of the loop of `route`, for a datagram that has been taken from its queue
unfoldable pub route_datagram : Ipv4Datagram → Table → Option Table
unfolding send_by
route_datagram dgram r =
    let aged = record dgram { header = record dgram.header { ttl = dgram.header.ttl - 1 } } in
    if leb dgram.header.ttl 1 then some r else elim (best_match aged.header.dst r.trie_root) [
      | none ↦ some r
      | some best ↦ send_by best aged r
    ]

-- The inner loop of `route`, for the queue of interface `i`
unfoldable pub route_queue : ℕ → ℕ → Table → Option Table
unfolding interface set_at route_datagram
route_queue zero i r = none
route_queue (suc fuel) i r = elim (interface i r) [
  | none ↦ none
  | some iface ↦ elim iface.datagrams_received [
    | [] ↦ some r
    | dgram ∷ rest ↦
        elim (route_datagram dgram (record r {
          interfaces = set_at i (record iface { datagrams_received = rest }) r.interfaces;
        })) [ none ↦ none | some routed ↦ route_queue fuel i routed ]
  ]
]

unfoldable pub queue_length : ℕ → Table → ℕ
unfolding interface
queue_length i r = elim (interface i r) [ none ↦ 0 | some iface ↦ length iface.datagrams_received ]

-- The outer loop, from interface `i` on, with `left` interfaces to go
unfoldable pub route_from : ℕ → ℕ → Table → Option Table
unfolding route_queue queue_length
route_from zero i r = some r
route_from (suc left) i r = elim (route_queue (suc (queue_length i r)) i r) [
  | none ↦ none
  | some routed ↦ route_from left (suc i) routed
]

unfoldable pub route : Table → Option Table
unfolding route_from
route r = route_from (length r.interfaces) 0 r
