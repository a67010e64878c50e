-- ===== src/NetworkInterface/Throttle.antt =====
-- How often an interface asks for an address (src/network_interface.cc).
use tiny_tcp_over_tun.Common.{
  ℕ, ◌+◌, ◌%◌, ◌≤◌, ◌<◌, ◌≡◌, inl, inr, List, [], ◌∷◌, ◌++◌, append_assoc, append-nil, true, false,
  none, some, arith, refl, ap, ◌∙◌, leb, le→leb, lt→leb_false, u64, Map, lookup, erase,
  lookup-erase, Option-cases,
}
use tiny_tcp_over_tun.Address.{Address, ipv4_numeric}
use tiny_tcp_over_tun.Parser.Serializer.{Serializer, new}
use tiny_tcp_over_tun.Ethernet.{ethernet_broadcast}
use tiny_tcp_over_tun.Arp
use tiny_tcp_over_tun.Ipv4.{Ipv4Datagram}
use tiny_tcp_over_tun.NetworkInterface.{
  NetworkInterface, request_throttle_ms, copy_datagram, request_for, may_request, drop_stale,
  queue_at, send_datagram, tick,
}
use tiny_tcp_over_tun.NetworkInterface.Sends.{arp_frame}
use tiny_tcp_over_tun.NetworkInterface.Requests.{sends_nothing, sends_request, unexpired-none}

pub drop_stale-eq :
    (ip : ℕ) (n : NetworkInterface)
    → (m : Map (List Ipv4Datagram)) × (drop_stale ip n ≡ record n { pending_ip_datagrams = m })
unfolding drop_stale
drop_stale-eq ip n = elim (Option-cases (lookup ip n.arp_request_times)) [
  | inl e ↦ (n.pending_ip_datagrams, rw (e, drop_stale) refl)
  | inr (until, e) ↦ (erase ip n.pending_ip_datagrams, rw (e, drop_stale) refl)
]

drop_stale-erases :
    (ip until : ℕ) (n : NetworkInterface)
    → lookup ip n.arp_request_times ≡ some until
    → drop_stale ip n ≡ record n { pending_ip_datagrams = erase ip n.pending_ip_datagrams }
unfolding drop_stale
drop_stale-erases ip until n e = rw (e, drop_stale) refl

may_request-at :
    (ip until : ℕ) (n : NetworkInterface)
    → lookup ip n.arp_request_times ≡ some until
    → may_request ip n ≡ leb until n.total_time_ms
unfolding may_request
may_request-at ip until n e = rw (e, may_request) refl

queue_at-some :
    (ip : ℕ) (q : List Ipv4Datagram) (m : Map (List Ipv4Datagram))
    → lookup ip m ≡ some q
    → queue_at ip m ≡ q
unfolding queue_at
queue_at-some ip q m e = rw (e, queue_at) refl

queue_at-erase : (ip : ℕ) (m : Map (List Ipv4Datagram)) → queue_at ip (erase ip m) ≡ []
unfolding queue_at
queue_at-erase ip m = rw (lookup-erase ip m, queue_at) refl

module _ (d : Ipv4Datagram) (e : Ipv4Datagram) (a : Address) (n : NetworkInterface) (ms : ℕ)
    (unknown : lookup (ipv4_numeric a) n.arp_cache ≡ none)
    (late : may_request (ipv4_numeric a) n ≡ true) where
  -- After a datagram `d` for an unknown address has been sent with an ARP request, and less than five
  -- seconds later, another datagram `e` for it is sent: exactly one request has been broadcast, and
  -- both datagrams wait in their order. The clock, in 64 bits, does not overflow.
  pub request-throttled :
      ms < request_throttle_ms
      → n.total_time_ms + request_throttle_ms < u64
      → (first : NetworkInterface) × (second : NetworkInterface) × (s : Serializer) × (q : List
          Ipv4Datagram)
        × (send_datagram d a n ≡ some first)
        × (send_datagram e a (tick ms first) ≡ some second)
        × (Arp.serialize (request_for (ipv4_numeric a) n) new ≡ some s)
        × (second.transmitted
            ≡ n.transmitted ++ arp_frame n.ethernet_address ethernet_broadcast s ∷ [])
        × (lookup (ipv4_numeric a) second.pending_ip_datagrams
            ≡ some (q ++ copy_datagram d ∷ copy_datagram e ∷ []))
  unfolding tick
  request-throttled soon small =
      let ip = ipv4_numeric a in
      let (m, dropped) = drop_stale-eq ip n in
      let (first, s, sent, written, waits, until) = sends_request d a n unknown m late dropped in
      let later = tick ms first in
      let forgotten : lookup ip later.arp_cache ≡ none =
        unexpired-none later.total_time_ms ip first.arp_cache
          (ap (lookup ip) waits.cache ∙ unknown) in
      let early : may_request ip later ≡ false =
        may_request-at ip _ later until
        ∙ lt→leb_false ((n.total_time_ms + request_throttle_ms) % u64) later.total_time_ms
            (omega (arith, waits.now)) in
      let (second, sent', waits', times) = sends_nothing e a later forgotten early in
      (
        first,
        second,
        s,
        queue_at ip m,
        sent,
        sent',
        written,
        waits'.transmitted ∙ append-nil first.transmitted ∙ waits.transmitted,
        waits'.waiting
            ∙ ap (λ q. some (q ++ copy_datagram e ∷ []))
                (queue_at-some ip _ first.pending_ip_datagrams waits.waiting)
            ∙ ap some (append_assoc (queue_at ip m) (copy_datagram d ∷ []) (copy_datagram e ∷ [])),
      )

  -- Five seconds or more after a request that had no answer, the next datagram `e` for the address
  -- makes the interface broadcast the request again, and the datagrams that waited before it are
  -- dropped. The clock does not overflow.
  pub request-again :
      request_throttle_ms ≤ ms
      → n.total_time_ms + ms < u64
      → (first : NetworkInterface) × (second : NetworkInterface) × (s : Serializer)
        × (t : Serializer) × (send_datagram d a n ≡ some first)
        × (send_datagram e a (tick ms first) ≡ some second)
        × (Arp.serialize (request_for (ipv4_numeric a) n) new ≡ some s)
        × (Arp.serialize (request_for (ipv4_numeric a) (tick ms first)) new ≡ some t)
        × (second.transmitted
            ≡ n.transmitted
              ++ arp_frame n.ethernet_address ethernet_broadcast s ∷ []
              ++ arp_frame first.ethernet_address ethernet_broadcast t ∷ [])
        × (lookup (ipv4_numeric a) second.pending_ip_datagrams ≡ some (copy_datagram e ∷ []))
  unfolding tick
  request-again pause small =
      let ip = ipv4_numeric a in
      let (m, dropped) = drop_stale-eq ip n in
      let (first, s, sent, written, waits, until) = sends_request d a n unknown m late dropped in
      let later = tick ms first in
      let forgotten : lookup ip later.arp_cache ≡ none =
        unexpired-none later.total_time_ms ip first.arp_cache
          (ap (lookup ip) waits.cache ∙ unknown) in
      let late' : may_request ip later ≡ true =
        may_request-at ip _ later until
        ∙ le→leb ((n.total_time_ms + request_throttle_ms) % u64) later.total_time_ms
            (omega (arith, waits.now)) in
      let (second, t, sent', written', waits', until') =
        sends_request e a later forgotten (erase ip first.pending_ip_datagrams) late'
          (drop_stale-erases ip _ later until) in
      (
        first,
        second,
        s,
        t,
        sent,
        sent',
        written,
        written',
        waits'.transmitted
            ∙ ap (λ f. f ++ arp_frame first.ethernet_address ethernet_broadcast t ∷ [])
                waits.transmitted,
        waits'.waiting
            ∙ ap (λ q. some (q ++ copy_datagram e ∷ []))
                (queue_at-erase ip first.pending_ip_datagrams),
      )
