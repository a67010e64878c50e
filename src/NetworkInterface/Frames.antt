-- ===== src/NetworkInterface/Frames.antt =====
-- Frames from one interface to another (`recv_frame` of src/network_interface.cc).
use tiny_tcp_over_tun.Common.{
  ◌≡◌, ◌⊎◌, inl, inr, [], ◌∷◌, ◌++◌, map, Bool, true, false, not, false≢true, ◌&&◌, some,
  some_injective, arith, refl, ap, sym, ◌∙◌, ==_refl,
}
use tiny_tcp_over_tun.Ref.{copy}
use tiny_tcp_over_tun.Parser.Serializer.{Serializer, new, finish}
use tiny_tcp_over_tun.Helpers.{new_parser}
use tiny_tcp_over_tun.Helpers.Reparse.{reparse}
use tiny_tcp_over_tun.Ethernet.{EthernetAddress, EthernetFrame, ethernet_broadcast}
use tiny_tcp_over_tun.Arp
use tiny_tcp_over_tun.Arp.{ArpMessage}
use tiny_tcp_over_tun.Arp.Format.{
  IsMessage, type_bytes, address_bytes, size, parse-Gives, serialize-Appends,
}
use tiny_tcp_over_tun.Ipv4.{Ipv4Datagram}
use tiny_tcp_over_tun.Ipv4.Datagram.{IsDatagram, Same, reparsed, serialize-some}
use tiny_tcp_over_tun.NetworkInterface.{
  NetworkInterface, copy_datagram, same_bytes, recv_arp, recv_ipv4, recv_payload, recv_frame,
}
use tiny_tcp_over_tun.NetworkInterface.Sends.{arp_frame, datagram_frame}

-- The frame that the other end gets: the parameter of `recv_frame` is a copy, which owns its payload.
abbrev pub carried : EthernetFrame → EthernetFrame
carried f = record f { payload = map copy f.payload }

pub same_bytes_refl : (a : EthernetAddress) → same_bytes a a ≡ true
unfolding same_bytes
same_bytes_refl [] = refl
same_bytes_refl (x ∷ a) = rw (==_refl x) (same_bytes_refl a)

-- A frame for an interface, or for every one
abbrev pub For : EthernetAddress → NetworkInterface → Type 0
For dst n = (same_bytes dst n.ethernet_address ≡ true) ⊎ (same_bytes dst ethernet_broadcast ≡ true)

accepted : (x y : Bool) → (x ≡ true) ⊎ (y ≡ true) → (not x && not y) ≡ false
accepted true y h = refl
accepted false true h = refl
accepted false false (inl e) = absurd (false≢true e)
accepted false false (inr e) = absurd (false≢true e)

-- An ARP message in a frame arrives.
pub recv_frame-arp :
    (m : ArpMessage) (dst src : EthernetAddress) (s : Serializer) (n : NetworkInterface)
    → IsMessage m
    → Arp.serialize m new ≡ some s
    → For dst n
    → recv_frame (carried (arp_frame src dst s)) n ≡ recv_arp m n
unfolding recv_frame recv_payload
recv_frame-arp m dst src s n ok written mine =
    let (t, written', appends) = serialize-Appends m new ok in
    let same : t ≡ s = some_injective (sym written' ∙ written) in
    let (p, made, holds) =
      reparse t (type_bytes m (address_bytes m [])) appends (omega (arith, size m ok)) in
    let made' : new_parser (map copy (finish s)) ≡ some p =
      ap (λ x. new_parser (map copy (finish x))) (sym same) ∙ made in
    let read = (parse-Gives m Arp.new_message [] p ok refl refl holds).result in
    rw (accepted (same_bytes dst n.ethernet_address) (same_bytes dst ethernet_broadcast) mine)
      (rw (made', recv_payload) (rw (read, recv_payload) refl))

-- A datagram in a frame arrives, with the same header and the same bytes.
pub recv_frame-datagram :
    (d : Ipv4Datagram) (dst src : EthernetAddress) (n : NetworkInterface)
    → IsDatagram d
    → For dst n
    → (e : Ipv4Datagram) × (recv_frame (carried (datagram_frame src dst d)) n
        ≡ some (record n { datagrams_received = n.datagrams_received ++ copy_datagram e ∷ [] }))
      × Same d e
unfolding recv_frame recv_payload recv_ipv4
recv_frame-datagram d dst src n ok mine =
    let (s, written, (p, made, read)) = reparsed d ok in
    let same = some_injective (sym (serialize-some d new ok.header.ver) ∙ written) in
    let made' = ap (λ x. new_parser (map copy (finish x))) same ∙ made in
    (
      read.value,
      rw (accepted (same_bytes dst n.ethernet_address) (same_bytes dst ethernet_broadcast) mine)
          (rw (made', recv_payload) (rw (read.result, recv_ipv4) refl)),
      read.holds,
    )
