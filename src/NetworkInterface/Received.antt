-- ===== src/NetworkInterface/Received.antt =====
-- ARP messages that arrive in frames (`recv_frame` of src/network_interface.cc).
use tiny_tcp_over_tun.Common.{
  ◌≡◌, ◌⊎◌, inl, inr, Bool, true, false, not, ◌&&◌, ◌||◌, some, refl, sym, ◌∙◌, Bool-cases,
}
use tiny_tcp_over_tun.Parser.Serializer.{Serializer, new}
use tiny_tcp_over_tun.Ethernet.{EthernetAddress, ethernet_broadcast}
use tiny_tcp_over_tun.Arp
use tiny_tcp_over_tun.Arp.{ArpMessage}
use tiny_tcp_over_tun.Arp.Format.{IsMessage, serialize-Appends}
use tiny_tcp_over_tun.NetworkInterface.{NetworkInterface, same_bytes, queue_at, recv_frame}
use tiny_tcp_over_tun.NetworkInterface.Sends.{arp_frame}
use tiny_tcp_over_tun.NetworkInterface.Learns.{AllV4, Learned, recv_arp-Learned}
use tiny_tcp_over_tun.NetworkInterface.Frames.{carried, recv_frame-arp}

-- What becomes of a message in a frame that is for the interface, or is not.
abbrev pub Handled : Bool → ArpMessage → NetworkInterface → NetworkInterface → Type 0
Handled true m n after = Learned m n after
Handled false m n after = after ≡ n

not_for_us : (x y : Bool) → (x || y) ≡ false → (not x && not y) ≡ true
not_for_us true y e = sym e
not_for_us false true e = sym e
not_for_us false false e = refl

either_of : (x y : Bool) → (x || y) ≡ true → (x ≡ true) ⊎ (y ≡ true)
either_of true y e = inl refl
either_of false y e = inr e

-- An ARP message in the range of its types is written into a frame to any destination. When all
-- datagrams that wait for the sender of the message have version 4, `recv_frame` gets the frame
-- without an exception. If the destination is the Ethernet address of the interface or the broadcast
-- address, it learns the address of the sender for 30 seconds, transmits the datagrams that waited
-- for it in their order, keeps none of them, then answers if the message is a request for the
-- interface's own IP address, and leaves the other addresses alone. Otherwise nothing changes.
pub recv_frame-Learned :
    (m : ArpMessage) (dst src : EthernetAddress) (n : NetworkInterface)
    → IsMessage m
    → AllV4 (queue_at m.sender_ip_address n.pending_ip_datagrams)
    → (s : Serializer) × (after : NetworkInterface) × (Arp.serialize m new ≡ some s)
      × (recv_frame (carried (arp_frame src dst s)) n ≡ some after)
      × Handled (same_bytes dst n.ethernet_address || same_bytes dst ethernet_broadcast) m n after
unfolding recv_frame
recv_frame-Learned m dst src n ok v4 =
    let (s, written, appends) = serialize-Appends m new ok in
    let mine = same_bytes dst n.ethernet_address in
    let all = same_bytes dst ethernet_broadcast in
    elim (Bool-cases (mine || all)) [
      | inl us ↦
          let (after, run, l) = recv_arp-Learned m n v4 in
          (
            s,
            after,
            written,
            recv_frame-arp m dst src s n ok written (either_of mine all us) ∙ run,
            rw us l,
          )
      | inr other ↦ (s, n, written, rw (not_for_us mine all other) refl, rw other refl)
    ]
