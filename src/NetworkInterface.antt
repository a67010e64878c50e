-- ===== src/NetworkInterface.antt =====
-- src/network_interface.{hh,cc}: datagrams to Ethernet frames and back, with ARP. `none` is an
-- exception, or the failed assertion on the type of a frame.
pub mod Requests
pub mod Throttle
pub mod Expiry
pub mod Received
pub mod Frames
pub mod Resolution
pub mod Delivery
pub mod Sends
pub mod Learns
use tiny_tcp_over_tun.Common.{
  ℕ, zero, suc, ◌+◌, ◌%◌, List, [], ◌∷◌, ◌++◌, length, map, Bool, true, false, not, ◌&&◌, ◌||◌,
  Option, none, some, ◌==◌, leb, if◌then◌else◌, u64, Map, lookup, put, erase,
}
use tiny_tcp_over_tun.Ref.{Ref, copy}
use tiny_tcp_over_tun.Address.{Address, ipv4_numeric, from_ipv4_numeric}
use tiny_tcp_over_tun.Parser.{Parser, Parse}
use tiny_tcp_over_tun.Parser.Serializer.{Serializer, new, finish}
use tiny_tcp_over_tun.Helpers.{new_parser}
use tiny_tcp_over_tun.Ethernet
use tiny_tcp_over_tun.Ethernet.{
  EthernetAddress, EthernetFrame, ethernet_broadcast, type_ipv4, type_arp,
}
use tiny_tcp_over_tun.Arp
use tiny_tcp_over_tun.Arp.{ArpMessage, opcode_request, opcode_reply}
use tiny_tcp_over_tun.Ipv4
use tiny_tcp_over_tun.Ipv4.{Ipv4Datagram}

abbrev pub mapping_ttl_ms : ℕ
mapping_ttl_ms = 30000

abbrev pub request_throttle_ms : ℕ
request_throttle_ms = 5000

pub record ArpEntry : Type 0 where
  pub mac : EthernetAddress
  pub expiration_time_ms : ℕ

-- `transmitted` holds the frames that went to the output port, the first one first. The name of an
-- interface, which nothing reads, is left out.
pub record NetworkInterface : Type 0 where
  pub ethernet_address : EthernetAddress
  pub ip_address : Address
  pub datagrams_received : List Ipv4Datagram
  pub arp_cache : Map ArpEntry
  pub pending_ip_datagrams : Map (List Ipv4Datagram)
  pub arp_request_times : Map ℕ
  pub total_time_ms : ℕ
  pub transmitted : List EthernetFrame

-- The constructor.
unfoldable new_interface : EthernetAddress → Address → NetworkInterface
new_interface ethernet_address ip_address = record {
  ethernet_address = ethernet_address;
  ip_address = ip_address;
  datagrams_received = [];
  arp_cache = [];
  pending_ip_datagrams = [];
  arp_request_times = [];
  total_time_ms = 0;
  transmitted = [];
}

-- A copy of an `InternetDatagram` owns its payload.
unfoldable pub copy_datagram : Ipv4Datagram → Ipv4Datagram
copy_datagram d = record d { payload = map copy d.payload }

-- `operator==` of two Ethernet addresses
unfoldable pub same_bytes : EthernetAddress → EthernetAddress → Bool
same_bytes [] [] = true
same_bytes [] (y ∷ ys) = false
same_bytes (x ∷ xs) [] = false
same_bytes (x ∷ xs) (y ∷ ys) = x == y && same_bytes xs ys

unfoldable pub transmit : EthernetFrame → NetworkInterface → NetworkInterface
transmit frame n = record n { transmitted = n.transmitted ++ frame ∷ [] }

unfoldable pub frame_to : EthernetAddress → ℕ → Serializer → NetworkInterface → EthernetFrame
frame_to dst type serializer n = record {
  header = record { dst = dst; src = n.ethernet_address; type = type };
  payload = finish serializer;
}

-- `send_datagram` for an address in the cache
unfoldable pub send_to : EthernetAddress → Ipv4Datagram → NetworkInterface → Option NetworkInterface
unfolding transmit frame_to
send_to dst_mac dgram n = elim (Ipv4.serialize dgram new) [
  | none ↦ none
  | some serializer ↦ some (transmit (frame_to dst_mac type_ipv4 serializer n) n)
]

unfoldable pub request_for : ℕ → NetworkInterface → ArpMessage
request_for target_ip n = record Arp.new_message {
  opcode = opcode_request;
  sender_ethernet_address = n.ethernet_address;
  sender_ip_address = ipv4_numeric n.ip_address;
  target_ip_address = target_ip;
}

unfoldable pub reply_to : ArpMessage → NetworkInterface → ArpMessage
reply_to arp_msg n = record Arp.new_message {
  opcode = opcode_reply;
  sender_ethernet_address = n.ethernet_address;
  sender_ip_address = ipv4_numeric n.ip_address;
  target_ethernet_address = arp_msg.sender_ethernet_address;
  target_ip_address = arp_msg.sender_ip_address;
}

-- An ARP message in a frame of its own
unfoldable pub send_arp : EthernetAddress → ArpMessage → NetworkInterface → Option NetworkInterface
unfolding transmit frame_to
send_arp dst arp_msg n = elim (Arp.serialize arp_msg new) [
  | none ↦ none
  | some serializer ↦ some (transmit (frame_to dst type_arp serializer n) n)
]

-- Whether a request may be sent: none has been, or the last one is old enough.
unfoldable pub may_request : ℕ → NetworkInterface → Bool
may_request target_ip n = elim (lookup target_ip n.arp_request_times) [
  | none ↦ true
  | some until ↦ leb until n.total_time_ms
]

-- The datagrams that waited for a request that had no answer are dropped.
unfoldable pub drop_stale : ℕ → NetworkInterface → NetworkInterface
drop_stale target_ip n = elim (lookup target_ip n.arp_request_times) [
  | none ↦ n
  | some until ↦ record n { pending_ip_datagrams = erase target_ip n.pending_ip_datagrams }
]

unfoldable pub send_request : ℕ → NetworkInterface → Option NetworkInterface
unfolding drop_stale send_arp request_for
send_request target_ip n =
    elim (send_arp ethernet_broadcast (request_for target_ip n) (drop_stale target_ip n)) [
      | none ↦ none
      | some sent ↦ some (record sent {
        arp_request_times =
            put target_ip ((sent.total_time_ms + request_throttle_ms) % u64) sent.arp_request_times;
      })
    ]

-- The queue under a key, which `operator[]` makes when it is missing.
unfoldable pub queue_at : ℕ → Map (List Ipv4Datagram) → List Ipv4Datagram
queue_at ip m = elim (lookup ip m) [ none ↦ [] | some q ↦ q ]

unfoldable pub push_pending : ℕ → Ipv4Datagram → NetworkInterface → NetworkInterface
unfolding queue_at copy_datagram
push_pending ip dgram n = record n {
  pending_ip_datagrams =
      put ip (queue_at ip n.pending_ip_datagrams ++ copy_datagram dgram ∷ [])
        n.pending_ip_datagrams;
}

-- `send_datagram` for an address that is not in the cache
unfoldable pub wait_for : ℕ → Ipv4Datagram → NetworkInterface → Option NetworkInterface
unfolding may_request send_request push_pending
wait_for target_ip dgram n =
    elim (if may_request target_ip n then send_request target_ip n else some n) [
      | none ↦ none
      | some sent ↦ some (push_pending target_ip dgram sent)
    ]

unfoldable pub send_datagram : Ipv4Datagram → Address → NetworkInterface → Option NetworkInterface
unfolding send_to wait_for
send_datagram dgram next_hop n = elim (lookup (ipv4_numeric next_hop) n.arp_cache) [
  | some entry ↦ send_to entry.mac dgram n
  | none ↦ wait_for (ipv4_numeric next_hop) dgram n
]

unfoldable pub learn : EthernetAddress → ℕ → NetworkInterface → NetworkInterface
learn mac ip n = record n {
  arp_cache =
      put ip (record { mac = mac; expiration_time_ms = (n.total_time_ms + mapping_ttl_ms) % u64 })
        n.arp_cache;
}

-- The loop over the datagrams that wait for `ip`; the queue is read anew in every round.
unfoldable pub send_pending : ℕ → ℕ → NetworkInterface → Option NetworkInterface
unfolding queue_at
send_pending zero ip n = none
send_pending (suc fuel) ip n = elim (queue_at ip n.pending_ip_datagrams) [
  | [] ↦ some n
  | pending_dgram ∷ rest ↦
      elim (send_datagram (copy_datagram pending_dgram) (from_ipv4_numeric ip)
        (record n { pending_ip_datagrams = put ip rest n.pending_ip_datagrams })) [
          | none ↦ none
          | some sent ↦ send_pending fuel ip sent
        ]
]

-- The part of `recv_frame` that sends what has waited for an address.
unfoldable pub flush_pending : ℕ → NetworkInterface → Option NetworkInterface
unfolding send_pending queue_at
flush_pending ip n = elim (lookup ip n.pending_ip_datagrams) [
  | none ↦ some n
  | some pending_queue ↦ elim (send_pending (suc (length pending_queue)) ip n) [
    | none ↦ none
    | some sent ↦ some (record sent { pending_ip_datagrams = erase ip sent.pending_ip_datagrams })
  ]
]

unfoldable pub answer : ArpMessage → NetworkInterface → Option NetworkInterface
unfolding send_arp reply_to
answer arp_msg n =
    if arp_msg.opcode == opcode_request && (arp_msg.target_ip_address == ipv4_numeric n.ip_address)
    then send_arp arp_msg.sender_ethernet_address (reply_to arp_msg n) n
    else some n

unfoldable pub recv_arp : ArpMessage → NetworkInterface → Option NetworkInterface
unfolding learn flush_pending answer
recv_arp arp_msg n =
    elim (flush_pending arp_msg.sender_ip_address
      (learn arp_msg.sender_ethernet_address arp_msg.sender_ip_address n)) [
        | none ↦ none
        | some flushed ↦ answer arp_msg flushed
      ]

unfoldable pub recv_ipv4 : Parser → NetworkInterface → Option NetworkInterface
unfolding copy_datagram
recv_ipv4 parser n = elim (Ipv4.parse Ipv4.new_datagram parser) [
  | none ↦ none
  | some (dgram, rest) ↦
      some (record n { datagrams_received = n.datagrams_received ++ copy_datagram dgram ∷ [] })
]

-- The errors of the parser are not looked at.
unfoldable pub recv_payload : EthernetFrame → NetworkInterface → Option NetworkInterface
unfolding recv_ipv4 recv_arp
recv_payload frame n = elim (new_parser frame.payload) [
  | none ↦ none
  | some parser ↦
      if frame.header.type == type_ipv4
      then recv_ipv4 parser n
      else elim (Arp.parse Arp.new_message parser) [
        | none ↦ none
        | some (arp_msg, rest) ↦ recv_arp arp_msg n
      ]
]

unfoldable pub recv_frame : EthernetFrame → NetworkInterface → Option NetworkInterface
unfolding same_bytes recv_payload
recv_frame frame n =
    if not (same_bytes frame.header.dst n.ethernet_address)
      && not (same_bytes frame.header.dst ethernet_broadcast)
    then some n
    else if frame.header.type == type_arp || (frame.header.type == type_ipv4)
    then recv_payload frame n
    else none

-- The loop of `tick`.
unfoldable pub unexpired : ℕ → Map ArpEntry → Map ArpEntry
unexpired now [] = []
unexpired now ((ip, entry) ∷ m) =
    let rest = unexpired now m in
    if leb entry.expiration_time_ms now then rest else (ip, entry) ∷ rest

unfoldable pub tick : ℕ → NetworkInterface → NetworkInterface
unfolding unexpired
tick ms_since_last_tick n =
    let now = (n.total_time_ms + ms_since_last_tick) % u64 in
    record n { total_time_ms = now; arp_cache = unexpired now n.arp_cache }
