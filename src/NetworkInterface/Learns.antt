-- ===== src/NetworkInterface/Learns.antt =====
-- What `recv_frame` of src/network_interface.cc does with an ARP message.
use tiny_tcp_over_tun.Common.{
  ℕ, suc, ◌+◌, ◌%◌, ◌≡◌, ◌≢◌, inl, inr, List, [], ◌∷◌, ◌++◌, append-nil, append_assoc, length, map,
  Bool, true, false, ◌&&◌, none, some, refl, ap, ap₂, sym, ◌∙◌, ◌==◌, if◌then◌else◌, subst, u64,
  Map, lookup, put, erase, lookup-put, lookup-erase, lookup-put_other, lookup-erase_other,
  Option-cases,
}
use tiny_tcp_over_tun.Address.{ipv4_numeric, from_ipv4_numeric}
use tiny_tcp_over_tun.Parser.Serializer.{new}
use tiny_tcp_over_tun.Ethernet.{EthernetAddress, EthernetFrame}
use tiny_tcp_over_tun.Arp
use tiny_tcp_over_tun.Arp.{ArpMessage, opcode_request}
use tiny_tcp_over_tun.Ipv4.{Ipv4Datagram}
use tiny_tcp_over_tun.NetworkInterface.{
  NetworkInterface, ArpEntry, mapping_ttl_ms, copy_datagram, reply_to, queue_at, send_datagram,
  send_arp, learn, send_pending, flush_pending, answer, recv_arp,
}
use tiny_tcp_over_tun.NetworkInterface.Sends.{
  datagram_frame, arp_frame, send_arp-some, reply-supported, send_datagram-cached,
}

abbrev pub AllV4 : List Ipv4Datagram → Type 0
AllV4 [] = Unit {0}
AllV4 (d ∷ ds) = (d.header.ver ≡ 4) × AllV4 ds

abbrev pub frames_to : EthernetAddress → EthernetAddress → List Ipv4Datagram → List EthernetFrame
frames_to src dst ds = map (λ d. datagram_frame src dst (copy_datagram d)) ds

-- From `n` to `after`, frames have been sent, and the datagrams for `ip` have been taken out.
pub record Sent (ip : ℕ) (frames : List EthernetFrame) (n after : NetworkInterface) : Type 0 where
  pub transmitted : after.transmitted ≡ n.transmitted ++ frames
  pub cache : after.arp_cache ≡ n.arp_cache
  pub times : after.arp_request_times ≡ n.arp_request_times
  pub received : after.datagrams_received ≡ n.datagrams_received
  pub now : after.total_time_ms ≡ n.total_time_ms
  pub ethernet_address : after.ethernet_address ≡ n.ethernet_address
  pub ip_address : after.ip_address ≡ n.ip_address
  pub others :
      (j : ℕ) → ip ≢ j → lookup j after.pending_ip_datagrams ≡ lookup j n.pending_ip_datagrams

queue_at-put :
    (ip : ℕ) (q : List Ipv4Datagram) (m : Map (List Ipv4Datagram)) → queue_at ip (put ip q m) ≡ q
unfolding queue_at
queue_at-put ip q m = rw (lookup-put ip q m, queue_at) refl

-- The loop ends, and has sent the queue in its order.
send_pending-Sent :
    (ip : ℕ) (e : ArpEntry) (q : List Ipv4Datagram) (n : NetworkInterface)
    → lookup ip n.arp_cache ≡ some e
    → AllV4 q
    → queue_at ip n.pending_ip_datagrams ≡ q
    → (after : NetworkInterface) × (send_pending (suc (length q)) ip n ≡ some after)
      × Sent ip (frames_to n.ethernet_address e.mac q) n after
unfolding send_pending copy_datagram from_ipv4_numeric ipv4_numeric
send_pending-Sent ip e [] n known v4 waiting = (
  n,
  rw (waiting, send_pending) refl,
  record {
    transmitted = sym (append-nil n.transmitted);
    cache = refl;
    times = refl;
    received = refl;
    now = refl;
    ethernet_address = refl;
    ip_address = refl;
    others = λ j ne. refl;
  },
)
send_pending-Sent ip e (d ∷ q) n known (four, v4) waiting =
    let taken = record n { pending_ip_datagrams = put ip q n.pending_ip_datagrams } in
    let frame = datagram_frame n.ethernet_address e.mac (copy_datagram d) in
    let sent = record taken { transmitted = n.transmitted ++ frame ∷ [] } in
    let (after, run, s) =
      send_pending-Sent ip e q sent known v4 (queue_at-put ip q n.pending_ip_datagrams) in
    let first : send_datagram (copy_datagram d) (from_ipv4_numeric ip) taken ≡ some sent =
      send_datagram-cached (copy_datagram d) (from_ipv4_numeric ip) taken e known four in
    (
      after,
      rw (waiting, send_pending) (rw (first, send_pending) run),
      record {
        transmitted =
            s.transmitted
            ∙ append_assoc n.transmitted (frame ∷ []) (frames_to n.ethernet_address e.mac q);
        cache = s.cache;
        times = s.times;
        received = s.received;
        now = s.now;
        ethernet_address = s.ethernet_address;
        ip_address = s.ip_address;
        others = λ j ne. s.others j ne ∙ lookup-put_other j ip q n.pending_ip_datagrams ne;
      },
    )

flush_pending-Sent :
    (ip : ℕ) (e : ArpEntry) (n : NetworkInterface)
    → lookup ip n.arp_cache ≡ some e
    → AllV4 (queue_at ip n.pending_ip_datagrams)
    → (after : NetworkInterface) × (flush_pending ip n ≡ some after)
      × Sent ip (frames_to n.ethernet_address e.mac (queue_at ip n.pending_ip_datagrams)) n after
      × (lookup ip after.pending_ip_datagrams ≡ none)
unfolding flush_pending queue_at
flush_pending-Sent ip e n known v4 = elim (Option-cases (lookup ip n.pending_ip_datagrams)) [
  | inl missing ↦ (
    n,
    rw (missing, flush_pending) refl,
    rw (missing, queue_at)
        (record {
          transmitted = sym (append-nil n.transmitted);
          cache = refl;
          times = refl;
          received = refl;
          now = refl;
          ethernet_address = refl;
          ip_address = refl;
          others = λ j ne. refl;
        }),
    missing,
  )
  | inr (q, waiting) ↦
      let same : queue_at ip n.pending_ip_datagrams ≡ q = rw (waiting, queue_at) refl in
      let (sent, run, s) = send_pending-Sent ip e q n known (subst AllV4 same v4) same in
      (
        record sent { pending_ip_datagrams = erase ip sent.pending_ip_datagrams },
        rw (waiting, flush_pending) (rw (run, flush_pending) refl),
        rw (same, queue_at)
            (record {
              transmitted = s.transmitted;
              cache = s.cache;
              times = s.times;
              received = s.received;
              now = s.now;
              ethernet_address = s.ethernet_address;
              ip_address = s.ip_address;
              others = λ j ne. lookup-erase_other j ip sent.pending_ip_datagrams ne ∙ s.others j ne;
            }),
        lookup-erase ip sent.pending_ip_datagrams,
      )
]

-- The answer to an ARP message, if it is a request for the address of the interface
abbrev pub reply_frames : ArpMessage → NetworkInterface → List EthernetFrame
reply_frames m n =
    if m.opcode == opcode_request && (m.target_ip_address == ipv4_numeric n.ip_address)
    then elim (Arp.serialize (reply_to m n) new) [
      | none ↦ []
      | some s ↦ arp_frame n.ethernet_address m.sender_ethernet_address s ∷ []
    ]
    else []

reply_frames_same :
    (m : ArpMessage) (n after : NetworkInterface)
    → after.ethernet_address ≡ n.ethernet_address
    → after.ip_address ≡ n.ip_address
    → reply_frames m after ≡ reply_frames m n
unfolding reply_to
reply_frames_same m n after eth ip =
    λ i. reply_frames m (record after { ethernet_address = eth i; ip_address = ip i })

answer-some :
    (m : ArpMessage) (n : NetworkInterface)
    → answer m n ≡ some (record n { transmitted = n.transmitted ++ reply_frames m n })
unfolding answer
answer-some m n =
    chosen (m.opcode == opcode_request && (m.target_ip_address == ipv4_numeric n.ip_address))
  where
    chosen :
        (b : Bool)
        → (if b then send_arp m.sender_ethernet_address (reply_to m n) n else some n)
          ≡ some (record n {
            transmitted =
                n.transmitted
                ++ (if b
                    then elim (Arp.serialize (reply_to m n) new) as (λ _. List EthernetFrame) [
                      | none ↦ []
                      | some s ↦ arp_frame n.ethernet_address m.sender_ethernet_address s ∷ []
                    ]
                    else []);
          })
    chosen true =
        let (s, e, sent) =
          send_arp-some m.sender_ethernet_address (reply_to m n) n (reply-supported m n) in
        rw e sent
    chosen false = λ i. some (record n { transmitted = sym (append-nil n.transmitted) i })

-- What an interface has done with the ARP message `m`.
pub record Learned (m : ArpMessage) (n after : NetworkInterface) : Type 0 where
  pub known :
      lookup m.sender_ip_address after.arp_cache
      ≡ some (record {
        mac = m.sender_ethernet_address;
        expiration_time_ms = (n.total_time_ms + mapping_ttl_ms) % u64;
      })
  pub none_waiting : lookup m.sender_ip_address after.pending_ip_datagrams ≡ none
  pub transmitted :
      after.transmitted
      ≡ n.transmitted
        ++ frames_to n.ethernet_address m.sender_ethernet_address
            (queue_at m.sender_ip_address n.pending_ip_datagrams)
        ++ reply_frames m n
  pub others_known :
      (j : ℕ) → m.sender_ip_address ≢ j → lookup j after.arp_cache ≡ lookup j n.arp_cache
  pub others_waiting :
      (j : ℕ)
      → m.sender_ip_address ≢ j
      → lookup j after.pending_ip_datagrams ≡ lookup j n.pending_ip_datagrams
  pub received : after.datagrams_received ≡ n.datagrams_received
  pub ethernet_address : after.ethernet_address ≡ n.ethernet_address
  pub ip_address : after.ip_address ≡ n.ip_address
  pub now : after.total_time_ms ≡ n.total_time_ms

-- When all datagrams that wait for the sender of an ARP message have version 4, `recv_arp`, the part
-- of `recv_frame` behind the filter and the parser, handles that message without an exception: it learns the address of the sender for 30 seconds, transmits
-- the datagrams that waited for it in their order, keeps none of them, then answers if the message is
-- a request for the interface's own address, and leaves the other addresses alone.
pub recv_arp-Learned :
    (m : ArpMessage) (n : NetworkInterface)
    → AllV4 (queue_at m.sender_ip_address n.pending_ip_datagrams)
    → (after : NetworkInterface) × (recv_arp m n ≡ some after) × Learned m n after
unfolding recv_arp learn
recv_arp-Learned m n v4 =
    let ip = m.sender_ip_address in
    let entry : ArpEntry = record {
      mac = m.sender_ethernet_address;
      expiration_time_ms = (n.total_time_ms + mapping_ttl_ms) % u64;
    } in
    let learned = learn m.sender_ethernet_address ip n in
    let (sent, run, s, none_left) =
      flush_pending-Sent ip entry learned (lookup-put ip entry n.arp_cache) v4 in
    (
      record sent { transmitted = sent.transmitted ++ reply_frames m sent },
      rw (run, recv_arp) (answer-some m sent),
      record {
        known = ap (lookup ip) s.cache ∙ lookup-put ip entry n.arp_cache;
        none_waiting = none_left;
        transmitted =
            ap₂ ◌++◌ s.transmitted (reply_frames_same m n sent s.ethernet_address s.ip_address);
        others_known = λ j ne. ap (lookup j) s.cache ∙ lookup-put_other j ip entry n.arp_cache ne;
        others_waiting = s.others;
        received = s.received;
        ethernet_address = s.ethernet_address;
        ip_address = s.ip_address;
        now = s.now;
      },
    )
