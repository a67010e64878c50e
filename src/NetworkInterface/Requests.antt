-- ===== src/NetworkInterface/Requests.antt =====
-- ARP requests and the mappings that expire (src/network_interface.cc).
use tiny_tcp_over_tun.Common.{
  ℕ, ◌+◌, ◌%◌, ◌≡◌, inl, inr, List, [], ◌∷◌, ◌++◌, append-nil, true, false, Option, none, some,
  refl, ap, sym, ◌∙◌, le→leb, lt→leb_false, u64, Map, lookup, put, lookup-put, eq_cases,
  some_ne_none, ==_refl, ne→==_false, lt_cases,
}
use tiny_tcp_over_tun.Address.{Address, ipv4_numeric}
use tiny_tcp_over_tun.Parser.Serializer.{Serializer, new}
use tiny_tcp_over_tun.Ethernet.{EthernetFrame, ethernet_broadcast}
use tiny_tcp_over_tun.Arp
use tiny_tcp_over_tun.Ipv4.{Ipv4Datagram}
use tiny_tcp_over_tun.NetworkInterface.{
  NetworkInterface, ArpEntry, request_throttle_ms, copy_datagram, request_for, may_request,
  drop_stale, send_request, send_arp, queue_at, push_pending, wait_for, send_datagram, unexpired,
}
use tiny_tcp_over_tun.NetworkInterface.Sends.{arp_frame, send_arp-some, request-supported}

-- A datagram for an unknown address: what has been transmitted, and what waits for the address.
pub record Waits (a : Address) (n after : NetworkInterface) (frames : List EthernetFrame)
    (queue : List Ipv4Datagram) : Type 0 where
  pub transmitted : after.transmitted ≡ n.transmitted ++ frames
  pub waiting : lookup (ipv4_numeric a) after.pending_ip_datagrams ≡ some queue
  pub cache : after.arp_cache ≡ n.arp_cache
  pub received : after.datagrams_received ≡ n.datagrams_received
  pub now : after.total_time_ms ≡ n.total_time_ms
  pub ethernet_address : after.ethernet_address ≡ n.ethernet_address

module _ (d : Ipv4Datagram) (a : Address) (n : NetworkInterface)
    (unknown : lookup (ipv4_numeric a) n.arp_cache ≡ none) where
  -- No request yet: the datagram joins the queue.
  pub sends_nothing :
      may_request (ipv4_numeric a) n ≡ false
      → (after : NetworkInterface) × (send_datagram d a n ≡ some after)
        × Waits a n after []
            (queue_at (ipv4_numeric a) n.pending_ip_datagrams ++ copy_datagram d ∷ [])
        × (after.arp_request_times ≡ n.arp_request_times)
  unfolding send_datagram wait_for push_pending
  sends_nothing early = (
    push_pending (ipv4_numeric a) d n,
    rw (unknown, send_datagram) (rw (early, wait_for) refl),
    record {
      transmitted = sym (append-nil n.transmitted);
      waiting = lookup-put _ _ n.pending_ip_datagrams;
      cache = refl;
      received = refl;
      now = refl;
      ethernet_address = refl;
    },
    refl,
  )

  request_sent :
      (m : Map (List Ipv4Datagram))
      → drop_stale (ipv4_numeric a) n ≡ record n { pending_ip_datagrams = m }
      → (s : Serializer) × (Arp.serialize (request_for (ipv4_numeric a) n) new ≡ some s)
        × (send_request (ipv4_numeric a) n
            ≡ some (record n {
              pending_ip_datagrams = m;
              transmitted = n.transmitted ++ arp_frame n.ethernet_address ethernet_broadcast s ∷ [];
              arp_request_times =
                  put
                    (ipv4_numeric a)
                    ((n.total_time_ms + request_throttle_ms) % u64)
                    n.arp_request_times;
            }))
  unfolding send_request
  request_sent m dropped =
      let ip = ipv4_numeric a in
      let kept = record n { pending_ip_datagrams = m } in
      let (s, written, sent) =
        send_arp-some ethernet_broadcast (request_for ip n) kept (request-supported ip n) in
      (s, written, ap stamped (ap (send_arp ethernet_broadcast (request_for ip n)) dropped ∙ sent))
    where
      stamped : Option NetworkInterface → Option NetworkInterface
      stamped o = elim o [
        | none ↦ none
        | some sent ↦ some (record sent {
          arp_request_times =
              put (ipv4_numeric a) ((sent.total_time_ms + request_throttle_ms) % u64)
                sent.arp_request_times;
        })
      ]

  -- A request goes to everyone, and the datagram waits behind what has not been dropped.
  pub sends_request :
      (m : Map (List Ipv4Datagram))
      → may_request (ipv4_numeric a) n ≡ true
      → drop_stale (ipv4_numeric a) n ≡ record n { pending_ip_datagrams = m }
      → (after : NetworkInterface) × (s : Serializer) × (send_datagram d a n ≡ some after)
        × (Arp.serialize (request_for (ipv4_numeric a) n) new ≡ some s)
        × Waits a n after
            (arp_frame n.ethernet_address ethernet_broadcast s ∷ [])
            (queue_at (ipv4_numeric a) m ++ copy_datagram d ∷ [])
        × (lookup (ipv4_numeric a) after.arp_request_times
            ≡ some ((n.total_time_ms + request_throttle_ms) % u64))
  unfolding send_datagram wait_for push_pending send_request
  sends_request m late dropped =
      let ip = ipv4_numeric a in
      let (s, written, sent) = request_sent m dropped in
      let requested = record n {
        pending_ip_datagrams = m;
        transmitted = n.transmitted ++ arp_frame n.ethernet_address ethernet_broadcast s ∷ [];
        arp_request_times =
            put ip ((n.total_time_ms + request_throttle_ms) % u64) n.arp_request_times;
      } in
      (
        push_pending ip d requested,
        s,
        rw (unknown, send_datagram) (rw (late, wait_for) (rw (sent, wait_for) refl)),
        written,
        record {
          transmitted = refl;
          waiting = lookup-put _ _ m;
          cache = refl;
          received = refl;
          now = refl;
          ethernet_address = refl;
        },
        lookup-put _ _ n.arp_request_times,
      )

pub unexpired-none :
    (now j : ℕ) (m : Map ArpEntry) → lookup j m ≡ none → lookup j (unexpired now m) ≡ none
unfolding lookup unexpired
unexpired-none now j [] e = refl
unexpired-none now j ((i, entry) ∷ m) e = elim (eq_cases i j) [
  | inl same ↦ absurd (some_ne_none entry (sym (rw (same, ==_refl j, lookup) refl) ∙ e))
  | inr ne ↦
      let rest = unexpired-none now j m (sym (rw (ne→==_false i j ne, lookup) refl) ∙ e) in
      elim (lt_cases now entry.expiration_time_ms) [
        | inr le ↦ rw (le→leb entry.expiration_time_ms now le) rest
        | inl gt ↦
            rw (lt→leb_false entry.expiration_time_ms now gt) (rw (ne→==_false i j ne, lookup) rest)
      ]
]
