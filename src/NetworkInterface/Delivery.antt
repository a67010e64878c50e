-- ===== src/NetworkInterface/Delivery.antt =====
-- Two interfaces on one link (src/network_interface.cc), from an address that is not known to the
-- datagram that arrives.
use tiny_tcp_over_tun.Common.{
  ◌≡◌, inl, inr, List, [], ◌∷◌, ◌++◌, append-nil, none, some, ap, sym, ◌∙◌, lookup, subst,
}
use tiny_tcp_over_tun.Address.{ipv4_numeric}
use tiny_tcp_over_tun.Parser.Serializer.{Serializer, new}
use tiny_tcp_over_tun.Ethernet.{EthernetFrame, ethernet_broadcast}
use tiny_tcp_over_tun.Arp
use tiny_tcp_over_tun.Arp.{ArpMessage}
use tiny_tcp_over_tun.Ipv4.{Ipv4Datagram}
use tiny_tcp_over_tun.Ipv4.Datagram.{IsDatagram, Same}
use tiny_tcp_over_tun.NetworkInterface.{
  NetworkInterface, copy_datagram, same_bytes, request_for, reply_to, queue_at, send_datagram,
  recv_frame,
}
use tiny_tcp_over_tun.NetworkInterface.Sends.{
  arp_frame, datagram_frame, arp_written, reply-supported,
}
use tiny_tcp_over_tun.NetworkInterface.Learns.{AllV4, Learned, frames_to, recv_arp-Learned}
use tiny_tcp_over_tun.NetworkInterface.Frames.{
  carried, same_bytes_refl, recv_frame-arp, recv_frame-datagram,
}
use tiny_tcp_over_tun.NetworkInterface.Resolution.{
  HasAddresses, request-IsMessage, reply-IsMessage, copy-IsDatagram, Same-copy, replies,
  queue_at-is, asks,
}

module _ (d : Ipv4Datagram) (a b : NetworkInterface) (ours : HasAddresses a)
    (theirs : HasAddresses b) where
  abbrev asked : ArpMessage
  asked = request_for (ipv4_numeric b.ip_address) a

  -- The second step: `b` gets the request, and its last frame is the reply.
  answers :
      (s : Serializer)
      → Arp.serialize asked new ≡ some s
      → AllV4 (queue_at (ipv4_numeric a.ip_address) b.pending_ip_datagrams)
      → (b1 : NetworkInterface) × (t : Serializer) × (recv_frame
            (carried (arp_frame a.ethernet_address ethernet_broadcast s))
            b
          ≡ some b1)
        × (Arp.serialize (reply_to asked b) new ≡ some t)
        × (b1.transmitted
            ≡ b.transmitted
              ++ frames_to b.ethernet_address a.ethernet_address
                  (queue_at (ipv4_numeric a.ip_address) b.pending_ip_datagrams)
              ++ arp_frame b.ethernet_address a.ethernet_address t ∷ [])
        × Learned asked b b1
  unfolding request_for ipv4_numeric
  answers s written v4 =
      let (b1, run, l) = recv_arp-Learned asked b v4 in
      let (t, written') = arp_written (reply_to asked b) (reply-supported asked b) in
      (
        b1,
        t,
        recv_frame-arp asked ethernet_broadcast a.ethernet_address s b
              (request-IsMessage (ipv4_numeric b.ip_address) a theirs.ip ours) written
              (inr (same_bytes_refl ethernet_broadcast))
            ∙ run,
        written',
        l.transmitted
            ∙ ap
                (λ f.
                  b.transmitted
                  ++ frames_to b.ethernet_address a.ethernet_address
                      (queue_at (ipv4_numeric a.ip_address) b.pending_ip_datagrams)
                  ++ f)
                (replies a b t written'),
        l,
      )

  -- The third step: `a` gets the reply and sends what has waited.
  sends :
      (a1 : NetworkInterface) (t : Serializer)
      → Arp.serialize (reply_to asked b) new ≡ some t
      → a1.ethernet_address ≡ a.ethernet_address
      → lookup (ipv4_numeric b.ip_address) a1.pending_ip_datagrams ≡ some (copy_datagram d ∷ [])
      → d.header.ver ≡ 4
      → (a2 : NetworkInterface) × (recv_frame
            (carried (arp_frame b.ethernet_address a.ethernet_address t))
            a1
          ≡ some a2)
        × (a2.transmitted
            ≡ a1.transmitted
              ++ datagram_frame a.ethernet_address b.ethernet_address
                  (copy_datagram (copy_datagram d))
                ∷ [])
  unfolding reply_to request_for copy_datagram
  sends a1 t written same waiting four =
      let queue =
        queue_at-is (ipv4_numeric b.ip_address) (copy_datagram d ∷ []) a1.pending_ip_datagrams
          waiting in
      let (a2, run, l) =
        recv_arp-Learned (reply_to asked b) a1 (subst AllV4 (sym queue) (four, tt)) in
      (
        a2,
        recv_frame-arp (reply_to asked b) a.ethernet_address b.ethernet_address t a1
              (reply-IsMessage (ipv4_numeric b.ip_address) b a theirs ours) written
              (inl (ap (same_bytes a.ethernet_address) same ∙ same_bytes_refl a.ethernet_address))
            ∙ run,
        l.transmitted
            ∙ append-nil _
            ∙ (λ i. a1.transmitted ++ frames_to (same i) b.ethernet_address (queue i)),
      )

  -- Two interfaces whose addresses are in the range of their types share a link that loses nothing.
  -- The first one does not have the IP address of the second one in its cache, no time of a request
  -- for that address and no queue for it; what waits at the second one for the first one has version
  -- 4. A datagram whose header has its own checksum and the length of the payload is sent from the
  -- first one to the second one.
  -- Then the request, the last frame of the second one, which is its reply, and the next frame of the
  -- first one are enough: when each is received in turn, the second one has one more received
  -- datagram, with the same header and the same bytes.
  pub sent-Delivered :
      IsDatagram d
      → lookup (ipv4_numeric b.ip_address) a.arp_cache ≡ none
      → lookup (ipv4_numeric b.ip_address) a.arp_request_times ≡ none
      → lookup (ipv4_numeric b.ip_address) a.pending_ip_datagrams ≡ none
      → AllV4 (queue_at (ipv4_numeric a.ip_address) b.pending_ip_datagrams)
      → (a1 : NetworkInterface) × (request : EthernetFrame) × (b1 : NetworkInterface)
        × (earlier : List EthernetFrame) × (reply : EthernetFrame) × (a2 : NetworkInterface)
        × (frame : EthernetFrame) × (b2 : NetworkInterface) × (e : Ipv4Datagram) × (send_datagram d
              b.ip_address a
            ≡ some a1)
        × (a1.transmitted ≡ a.transmitted ++ request ∷ [])
        × (recv_frame (carried request) b ≡ some b1)
        × (b1.transmitted ≡ b.transmitted ++ earlier ++ reply ∷ [])
        × (recv_frame (carried reply) a1 ≡ some a2)
        × (a2.transmitted ≡ a1.transmitted ++ frame ∷ [])
        × (recv_frame (carried frame) b1 ≡ some b2)
        × (b2.datagrams_received ≡ b.datagrams_received ++ copy_datagram e ∷ [])
        × Same d e
  unfolding request_for
  sent-Delivered ok unknown quiet nothing v4 =
      let (a1, s, sent, written, waits) = asks d a b ok ours theirs unknown quiet nothing in
      let (b1, t, got, written', out, l) = answers s written v4 in
      let (a2, got', out') =
        sends a1 t written' waits.ethernet_address waits.waiting ok.header.ver in
      let twice = copy_datagram (copy_datagram d) in
      let (e, got'', same) =
        recv_frame-datagram twice b.ethernet_address a.ethernet_address b1
          (copy-IsDatagram (copy_datagram d) (copy-IsDatagram d ok))
          (inl (
            ap (same_bytes b.ethernet_address) l.ethernet_address
            ∙ same_bytes_refl b.ethernet_address)) in
      (
        a1,
        arp_frame a.ethernet_address ethernet_broadcast s,
        b1,
        frames_to b.ethernet_address a.ethernet_address
            (queue_at (ipv4_numeric a.ip_address) b.pending_ip_datagrams),
        arp_frame b.ethernet_address a.ethernet_address t,
        a2,
        datagram_frame a.ethernet_address b.ethernet_address twice,
        record b1 { datagrams_received = b1.datagrams_received ++ copy_datagram e ∷ [] },
        e,
        sent,
        waits.transmitted,
        got,
        out,
        got',
        out',
        got'',
        ap (λ r. r ++ copy_datagram e ∷ []) l.received,
        Same-copy d e (Same-copy (copy_datagram d) e same),
      )
