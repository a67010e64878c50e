-- ===== src/NetworkInterface/Resolution.antt =====
-- Two interfaces on one link (src/network_interface.cc): the messages that they exchange.
use tiny_tcp_over_tun.Common.{
  ℕ, ◌+◌, ◌^◌, ◌<◌, ◌≡◌, List, [], ◌∷◌, ◌++◌, true, none, some, arith, refl, ap, sym, ◌∙◌, ==_refl,
  Map, lookup, subst, replicate, length,
}
use tiny_tcp_over_tun.Address.{ipv4_numeric}
use tiny_tcp_over_tun.Parser.Serializer.{Serializer, new}
use tiny_tcp_over_tun.Parser.Holds.{Spread, strings-copy}
use tiny_tcp_over_tun.Parser.Content.{concat}
use tiny_tcp_over_tun.Ethernet.{ethernet_broadcast}
use tiny_tcp_over_tun.Ethernet.Format.{IsAddress}
use tiny_tcp_over_tun.Arp
use tiny_tcp_over_tun.Arp.{ArpMessage}
use tiny_tcp_over_tun.Arp.Format.{IsMessage}
use tiny_tcp_over_tun.Ipv4.{Ipv4Datagram}
use tiny_tcp_over_tun.Ipv4.Datagram.{IsDatagram, Same, payload_bytes}
use tiny_tcp_over_tun.NetworkInterface.{
  NetworkInterface, copy_datagram, request_for, reply_to, drop_stale, may_request, queue_at,
  send_datagram,
}
use tiny_tcp_over_tun.NetworkInterface.Sends.{arp_frame, request-supported, reply-supported}
use tiny_tcp_over_tun.NetworkInterface.Requests.{Waits, sends_request}
use tiny_tcp_over_tun.NetworkInterface.Learns.{reply_frames}

-- The addresses of an interface are in the range of their types.
pub record HasAddresses (n : NetworkInterface) : Type 0 where
  pub ethernet : IsAddress n.ethernet_address
  pub ip : n.ip_address.ip < 2 ^ 32

zero-IsAddress : IsAddress (replicate 6 0)
zero-IsAddress = (
  (omega arith, (omega arith, (omega arith, (omega arith, (omega arith, (omega arith, tt)))))),
  refl,
)

pub request-IsMessage :
    (ip : ℕ) (n : NetworkInterface) → ip < 2 ^ 32 → HasAddresses n → IsMessage (request_for ip n)
unfolding request_for ipv4_numeric
request-IsMessage ip n h ok = record {
  supported = request-supported ip n;
  sender_ethernet = ok.ethernet;
  sender_ip = ok.ip;
  target_ethernet = zero-IsAddress;
  target_ip = h;
}

pub reply-IsMessage :
    (ip : ℕ) (n other : NetworkInterface)
    → HasAddresses n
    → HasAddresses other
    → IsMessage (reply_to (request_for ip other) n)
unfolding reply_to request_for ipv4_numeric
reply-IsMessage ip n other ok ok' = record {
  supported = reply-supported (request_for ip other) n;
  sender_ethernet = ok.ethernet;
  sender_ip = ok.ip;
  target_ethernet = ok'.ethernet;
  target_ip = ok'.ip;
}

copy_bytes : (d : Ipv4Datagram) → payload_bytes (copy_datagram d) ≡ payload_bytes d
unfolding copy_datagram
copy_bytes d = ap concat (strings-copy d.payload)

pub copy-IsDatagram : (d : Ipv4Datagram) → IsDatagram d → IsDatagram (copy_datagram d)
unfolding copy_datagram
copy-IsDatagram d ok = record {
  header = ok.header;
  sum = ok.sum;
  len = ok.len ∙ ap (λ b. 20 + length b) (sym (copy_bytes d));
}

pub Same-copy : (d e : Ipv4Datagram) → Same (copy_datagram d) e → Same d e
unfolding copy_datagram
Same-copy d e s = record {
  header = s.header;
  payload = subst (λ b. Spread e.payload b) (copy_bytes d) s.payload;
}

-- The reply to a request for the interface's own address.
pub replies :
    (a b : NetworkInterface) (s : Serializer)
    → Arp.serialize (reply_to (request_for (ipv4_numeric b.ip_address) a) b) new ≡ some s
    → reply_frames (request_for (ipv4_numeric b.ip_address) a) b
      ≡ arp_frame b.ethernet_address a.ethernet_address s ∷ []
unfolding request_for
replies a b s written = rw (==_refl (ipv4_numeric b.ip_address)) (rw written refl)

drops_nothing :
    (ip : ℕ) (n : NetworkInterface) → lookup ip n.arp_request_times ≡ none → drop_stale ip n ≡ n
unfolding drop_stale
drops_nothing ip n e = rw (e, drop_stale) refl

may_ask :
    (ip : ℕ) (n : NetworkInterface) → lookup ip n.arp_request_times ≡ none → may_request ip n ≡ true
unfolding may_request
may_ask ip n e = rw (e, may_request) refl

pub queue_at-is :
    (ip : ℕ) (q : List Ipv4Datagram) (m : Map (List Ipv4Datagram))
    → lookup ip m ≡ some q
    → queue_at ip m ≡ q
unfolding queue_at
queue_at-is ip q m e = rw (e, queue_at) refl

queue_at-nothing : (ip : ℕ) (m : Map (List Ipv4Datagram)) → lookup ip m ≡ none → queue_at ip m ≡ []
unfolding queue_at
queue_at-nothing ip m e = rw (e, queue_at) refl

module _ (d : Ipv4Datagram) (a b : NetworkInterface) (ok : IsDatagram d) (ours : HasAddresses a)
    (theirs : HasAddresses b) where
  -- The first step: `a` asks everyone for the address of `b`, and keeps the datagram.
  pub asks :
      lookup (ipv4_numeric b.ip_address) a.arp_cache ≡ none
      → lookup (ipv4_numeric b.ip_address) a.arp_request_times ≡ none
      → lookup (ipv4_numeric b.ip_address) a.pending_ip_datagrams ≡ none
      → (a1 : NetworkInterface) × (s : Serializer) × (send_datagram d b.ip_address a ≡ some a1)
        × (Arp.serialize (request_for (ipv4_numeric b.ip_address) a) new ≡ some s)
        × Waits b.ip_address a a1
            (arp_frame a.ethernet_address ethernet_broadcast s ∷ [])
            (copy_datagram d ∷ [])
  asks unknown quiet nothing =
      let ip = ipv4_numeric b.ip_address in
      let (a1, s, sent, written, waits, until) =
        sends_request d b.ip_address a unknown a.pending_ip_datagrams (may_ask ip a quiet)
          (drops_nothing ip a quiet) in
      (
        a1,
        s,
        sent,
        written,
        subst
            (λ q.
              Waits b.ip_address a a1 (arp_frame a.ethernet_address ethernet_broadcast s ∷ [])
                (q ++ copy_datagram d ∷ []))
            (queue_at-nothing ip a.pending_ip_datagrams nothing) waits,
      )
