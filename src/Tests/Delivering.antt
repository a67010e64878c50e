-- ===== src/Tests/Delivering.antt =====
-- A datagram from one interface to another (src/network_interface.cc): the datagram that the adapter of
-- util/tcp_over_ip.cc makes of a segment.
use tiny_tcp_over_tun.Common.{◌≡◌, List, [], ◌∷◌, ◌++◌, some, arith, refl, lookup}
use tiny_tcp_over_tun.Ethernet.{EthernetFrame}
use tiny_tcp_over_tun.Ipv4.{Ipv4Datagram}
use tiny_tcp_over_tun.Ipv4.Datagram.{Same}
use tiny_tcp_over_tun.TcpOverIp.Wrapped.{wrapped, wrapped-IsDatagram}
use tiny_tcp_over_tun.NetworkInterface.{
  NetworkInterface, copy_datagram, queue_at, send_datagram, recv_frame,
}
use tiny_tcp_over_tun.NetworkInterface.Frames.{carried}
use tiny_tcp_over_tun.NetworkInterface.Resolution.{HasAddresses}
use tiny_tcp_over_tun.NetworkInterface.Delivery.{sent-Delivered}
use tiny_tcp_over_tun.Tests.Wires.{client, message, message-IsMessage, client-IsEndpoint}
use tiny_tcp_over_tun.Tests.Links.{fresh, theirs, their_address}

abbrev other : NetworkInterface
other = record fresh { ethernet_address = their_address; ip_address = theirs }

abbrev datagram : Ipv4Datagram
datagram = wrapped message client

fresh-HasAddresses : HasAddresses fresh
fresh-HasAddresses = record {
  ethernet = (
    (omega arith, (omega arith, (omega arith, (omega arith, (omega arith, (omega arith, tt)))))),
    refl,
  );
  ip = omega arith;
}

other-HasAddresses : HasAddresses other
other-HasAddresses = record {
  ethernet = (
    (omega arith, (omega arith, (omega arith, (omega arith, (omega arith, (omega arith, tt)))))),
    refl,
  );
  ip = omega arith;
}

sent-Delivered_example :
    (a1 : NetworkInterface) × (request : EthernetFrame) × (b1 : NetworkInterface) × (earlier : List
      EthernetFrame)
    × (reply : EthernetFrame) × (a2 : NetworkInterface) × (frame : EthernetFrame)
    × (b2 : NetworkInterface) × (e : Ipv4Datagram) × (send_datagram datagram theirs fresh ≡ some a1)
    × (a1.transmitted ≡ [] ++ request ∷ [])
    × (recv_frame (carried request) other ≡ some b1)
    × (b1.transmitted ≡ [] ++ earlier ++ reply ∷ [])
    × (recv_frame (carried reply) a1 ≡ some a2)
    × (a2.transmitted ≡ a1.transmitted ++ frame ∷ [])
    × (recv_frame (carried frame) b1 ≡ some b2)
    × (b2.datagrams_received ≡ [] ++ copy_datagram e ∷ [])
    × Same datagram e
unfolding lookup queue_at
sent-Delivered_example =
    sent-Delivered datagram fresh other fresh-HasAddresses other-HasAddresses
      (wrapped-IsDatagram message client message-IsMessage client-IsEndpoint) refl refl refl tt
