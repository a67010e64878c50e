-- ===== src/NetworkInterface/Sends.antt =====
-- `send_datagram` of src/network_interface.cc: which frames it transmits.
use tiny_tcp_over_tun.Common.{
  ℕ, ◌≡◌, [], ◌∷◌, ◌++◌, Bool, true, false, not, false≢true, none, some, refl, if◌then◌else◌,
  lookup,
}
use tiny_tcp_over_tun.Address.{Address, ipv4_numeric}
use tiny_tcp_over_tun.Parser.Serializer.{Serializer, new, finish, buffers}
use tiny_tcp_over_tun.Ethernet.{EthernetAddress, EthernetFrame, type_ipv4, type_arp}
use tiny_tcp_over_tun.Arp
use tiny_tcp_over_tun.Arp.{ArpMessage}
use tiny_tcp_over_tun.Ipv4
use tiny_tcp_over_tun.Ipv4.{Ipv4Datagram}
use tiny_tcp_over_tun.Ipv4.Datagram.{serialize-some}
use tiny_tcp_over_tun.NetworkInterface.{
  NetworkInterface, ArpEntry, transmit, frame_to, send_to, request_for, reply_to, send_arp,
  send_datagram,
}

-- The frame of a datagram
abbrev pub datagram_frame : EthernetAddress → EthernetAddress → Ipv4Datagram → EthernetFrame
datagram_frame src dst d = record {
  header = record { dst = dst; src = src; type = type_ipv4 };
  payload = finish (buffers d.payload (Ipv4.write_fields d.header new));
}

-- The frame of an ARP message
abbrev pub arp_frame : EthernetAddress → EthernetAddress → Serializer → EthernetFrame
arp_frame src dst s = record {
  header = record { dst = dst; src = src; type = type_arp };
  payload = finish s;
}

-- A supported ARP message is written.
pub arp_written :
    (m : ArpMessage) → Arp.supported m ≡ true → (s : Serializer) × (Arp.serialize m new ≡ some s)
unfolding Arp.serialize
arp_written m ok = chosen (Arp.supported m) ok _
  where
    chosen :
        (b : Bool)
        → b ≡ true
        → (s : Serializer) → (t : Serializer) × ((if not b then none else some s) ≡ some t)
    chosen true e s = (s, refl)
    chosen false e s = absurd (false≢true e)

pub send_arp-some :
    (dst : EthernetAddress) (m : ArpMessage) (n : NetworkInterface)
    → Arp.supported m ≡ true
    → (s : Serializer) × (Arp.serialize m new ≡ some s)
      × (send_arp dst m n
          ≡ some
              (record n { transmitted = n.transmitted ++ arp_frame n.ethernet_address dst s ∷ [] }))
unfolding send_arp transmit frame_to
send_arp-some dst m n ok = let (s, e) = arp_written m ok in (s, e, rw (e, send_arp) refl)

pub request-supported : (ip : ℕ) (n : NetworkInterface) → Arp.supported (request_for ip n) ≡ true
unfolding request_for Arp.supported
request-supported ip n = refl

pub reply-supported : (m : ArpMessage) (n : NetworkInterface) → Arp.supported (reply_to m n) ≡ true
unfolding reply_to Arp.supported
reply-supported m n = refl

-- To an address in the cache, a datagram goes at once.
pub send_datagram-cached :
    (d : Ipv4Datagram) (a : Address) (n : NetworkInterface) (e : ArpEntry)
    → lookup (ipv4_numeric a) n.arp_cache ≡ some e
    → d.header.ver ≡ 4
    → send_datagram d a n
      ≡ some (record n {
        transmitted = n.transmitted ++ datagram_frame n.ethernet_address e.mac d ∷ [];
      })
unfolding send_datagram send_to transmit frame_to
send_datagram-cached d a n e known four =
    rw (known, send_datagram) (rw (serialize-some d new four, send_to) refl)
