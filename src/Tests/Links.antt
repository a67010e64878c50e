-- ===== src/Tests/Links.antt =====
-- The theorems on the network interface (src/network_interface.cc) at concrete inputs.
use tiny_tcp_over_tun.Common.{
  ℕ, ◌<◌, ◌≡◌, ◌↔◌, true, List, [], ◌∷◌, ◌++◌, some, arith, refl, lookup,
}
use tiny_tcp_over_tun.Address.{Address, ipv4_numeric}
use tiny_tcp_over_tun.Ref.{owned}
use tiny_tcp_over_tun.Parser.Serializer.{Serializer, new}
use tiny_tcp_over_tun.Ethernet.{EthernetAddress, ethernet_broadcast}
use tiny_tcp_over_tun.Arp
use tiny_tcp_over_tun.Arp.{ArpMessage}
use tiny_tcp_over_tun.Arp.Format.{IsMessage}
use tiny_tcp_over_tun.Ipv4.{Ipv4Datagram, new_header}
use tiny_tcp_over_tun.NetworkInterface.{
  NetworkInterface, ArpEntry, copy_datagram, request_for, queue_at, may_request, send_datagram,
  recv_arp, recv_frame, same_bytes, tick,
}
use tiny_tcp_over_tun.NetworkInterface.Sends.{arp_frame, datagram_frame}
use tiny_tcp_over_tun.NetworkInterface.Frames.{carried}
use tiny_tcp_over_tun.NetworkInterface.Received.{Handled, recv_frame-Learned}
use tiny_tcp_over_tun.NetworkInterface.Throttle.{request-throttled, request-again}
use tiny_tcp_over_tun.NetworkInterface.Expiry.{Unique, tick-Unexpired, learned-lasts}

abbrev our_address : EthernetAddress
our_address = 2 ∷ 0 ∷ 0 ∷ 0 ∷ 0 ∷ 1 ∷ []

abbrev pub their_address : EthernetAddress
their_address = 2 ∷ 0 ∷ 0 ∷ 0 ∷ 0 ∷ 2 ∷ []

-- 10.0.0.1 and 10.0.0.2
abbrev ours : Address
ours = record { ip = 167772161; port = 0 }

abbrev pub theirs : Address
theirs = record { ip = 167772162; port = 0 }

abbrev hello : Ipv4Datagram
hello = record {
  header = record new_header { src = 167772161; dst = 167772162; len = 22 };
  payload = owned (104 ∷ 105 ∷ []) ∷ [];
}

abbrev bye : Ipv4Datagram
bye = record hello { payload = owned (98 ∷ 121 ∷ []) ∷ [] }

abbrev pub fresh : NetworkInterface
fresh = record {
  ethernet_address = our_address;
  ip_address = ours;
  datagrams_received = [];
  arp_cache = [];
  pending_ip_datagrams = [];
  arp_request_times = [];
  total_time_ms = 1000;
  transmitted = [];
}

-- An interface with a datagram that waits for 10.0.0.2
abbrev waiting : NetworkInterface
waiting = record fresh {
  pending_ip_datagrams = (167772162, hello ∷ []) ∷ [];
  arp_request_times = (167772162, 6000) ∷ [];
}

-- A request of 10.0.0.2 for 10.0.0.1
abbrev their_request : ArpMessage
their_request = record Arp.new_message {
  opcode = 1;
  sender_ethernet_address = their_address;
  sender_ip_address = 167772162;
  target_ip_address = 167772161;
}

their_request-IsMessage : IsMessage their_request
unfolding Arp.supported
their_request-IsMessage = record {
  supported = refl;
  sender_ethernet = (
    (omega arith, (omega arith, (omega arith, (omega arith, (omega arith, (omega arith, tt)))))),
    refl,
  );
  sender_ip = omega arith;
  target_ethernet = (
    (omega arith, (omega arith, (omega arith, (omega arith, (omega arith, (omega arith, tt)))))),
    refl,
  );
  target_ip = omega arith;
}

recv_frame-Learned_example :
    (s : Serializer) × (after : NetworkInterface) × (Arp.serialize their_request new ≡ some s)
    × (recv_frame (carried (arp_frame their_address our_address s)) waiting ≡ some after)
    × Handled true their_request waiting after
unfolding queue_at lookup same_bytes
recv_frame-Learned_example =
    recv_frame-Learned their_request our_address their_address waiting their_request-IsMessage
      (refl, tt)

request-throttled_example :
    (first : NetworkInterface) × (second : NetworkInterface) × (s : Serializer) × (q : List
      Ipv4Datagram)
    × (send_datagram hello theirs fresh ≡ some first)
    × (send_datagram bye theirs (tick 4999 first) ≡ some second)
    × (Arp.serialize (request_for (ipv4_numeric theirs) fresh) new ≡ some s)
    × (second.transmitted ≡ [] ++ arp_frame our_address ethernet_broadcast s ∷ [])
    × (lookup (ipv4_numeric theirs) second.pending_ip_datagrams
        ≡ some (q ++ copy_datagram hello ∷ copy_datagram bye ∷ []))
unfolding lookup may_request
request-throttled_example =
    request-throttled hello bye theirs fresh 4999 refl refl (omega arith) (omega arith)

request-again_example :
    (first : NetworkInterface) × (second : NetworkInterface) × (s : Serializer) × (t : Serializer)
    × (send_datagram hello theirs fresh ≡ some first)
    × (send_datagram bye theirs (tick 5000 first) ≡ some second)
    × (Arp.serialize (request_for (ipv4_numeric theirs) fresh) new ≡ some s)
    × (Arp.serialize (request_for (ipv4_numeric theirs) (tick 5000 first)) new ≡ some t)
    × (second.transmitted
        ≡ []
          ++ arp_frame our_address ethernet_broadcast s ∷ []
          ++ arp_frame first.ethernet_address ethernet_broadcast t ∷ [])
    × (lookup (ipv4_numeric theirs) second.pending_ip_datagrams ≡ some (copy_datagram bye ∷ []))
unfolding lookup may_request
request-again_example =
    request-again hello bye theirs fresh 5000 refl refl (omega arith) (omega arith)

abbrev entry : ArpEntry
entry = record { mac = their_address; expiration_time_ms = 31000 }

abbrev knowing : NetworkInterface
knowing = record fresh { arp_cache = (167772162, entry) ∷ [] }

tick-Unexpired_example :
    Unique (tick 100 knowing).arp_cache
    × ((j : ℕ) (e : ArpEntry)
        → (lookup j (tick 100 knowing).arp_cache ≡ some e) ↔ (
            (lookup j knowing.arp_cache ≡ some e)
            × ((tick 100 knowing).total_time_ms < e.expiration_time_ms)))
unfolding lookup
tick-Unexpired_example = tick-Unexpired 100 knowing (refl, tt)

learned-lasts_example :
    (learned : NetworkInterface) × (after : NetworkInterface) × (recv_arp their_request waiting
      ≡ some learned)
    × (send_datagram bye theirs (tick 29999 learned) ≡ some after)
    × (after.transmitted ≡ learned.transmitted ++ datagram_frame our_address their_address bye ∷ [])
unfolding queue_at lookup ipv4_numeric
learned-lasts_example =
    learned-lasts their_request waiting 29999 bye theirs (refl, tt) (omega arith) (omega arith) refl
      refl
