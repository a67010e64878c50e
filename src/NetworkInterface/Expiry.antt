-- ===== src/NetworkInterface/Expiry.antt =====
-- How long an interface remembers an address (`tick` of src/network_interface.cc).
use tiny_tcp_over_tun.Common.{
  ℕ, ◌+◌, ◌%◌, ◌<◌, ◌≡◌, ◌↔◌, [], ◌∷◌, ◌++◌, none, some, arith, refl, ap, sym, ◌∙◌, le→leb,
  lt→leb_false, u64, Map, lookup, inl, inr, lt_cases, eq_cases, ==_refl, ne→==_false, some_ne_none,
  some_injective, subst,
}
use tiny_tcp_over_tun.Address.{Address, ipv4_numeric}
use tiny_tcp_over_tun.Arp.{ArpMessage}
use tiny_tcp_over_tun.Ipv4.{Ipv4Datagram}
use tiny_tcp_over_tun.NetworkInterface.{
  NetworkInterface, ArpEntry, mapping_ttl_ms, queue_at, send_datagram, recv_arp, unexpired, tick,
}
use tiny_tcp_over_tun.NetworkInterface.Requests.{unexpired-none}
use tiny_tcp_over_tun.NetworkInterface.Sends.{datagram_frame, send_datagram-cached}
use tiny_tcp_over_tun.NetworkInterface.Learns.{AllV4, recv_arp-Learned}

unexpired_later :
    (now j : ℕ) (m : Map ArpEntry) (e : ArpEntry)
    → lookup j (unexpired now m) ≡ some e
    → now < e.expiration_time_ms
unfolding lookup unexpired
unexpired_later now j [] e h = absurd (some_ne_none e (sym h))
unexpired_later now j ((i, x) ∷ m) e h = elim (lt_cases now x.expiration_time_ms) [
  | inr gone ↦
      unexpired_later now j m e
        (sym (rw (le→leb x.expiration_time_ms now gone, unexpired) refl) ∙ h)
  | inl kept ↦
      let h' : lookup j ((i, x) ∷ unexpired now m) ≡ some e =
        sym (rw (lt→leb_false x.expiration_time_ms now kept, unexpired) refl) ∙ h in
      elim (eq_cases i j) [
        | inl same ↦
            let found : some x ≡ some e = sym (rw (same, ==_refl j, lookup) refl) ∙ h' in
            subst (λ y. now < y.expiration_time_ms) (some_injective found) kept
        | inr ne ↦ unexpired_later now j m e (sym (rw (ne→==_false i j ne, lookup) refl) ∙ h')
      ]
]

unexpired_kept :
    (now j : ℕ) (m : Map ArpEntry) (e : ArpEntry)
    → lookup j m ≡ some e
    → now < e.expiration_time_ms
    → lookup j (unexpired now m) ≡ some e
unfolding lookup unexpired
unexpired_kept now j [] e h lt = h
unexpired_kept now j ((i, x) ∷ m) e h lt = elim (eq_cases i j) [
  | inl same ↦
      let found : x ≡ e = some_injective (sym (rw (same, ==_refl j, lookup) refl) ∙ h) in
      let later : now < x.expiration_time_ms =
        subst (λ y. now < y.expiration_time_ms) (sym found) lt in
      rw (lt→leb_false x.expiration_time_ms now later)
        (rw (same, ==_refl j, lookup) (ap some found))
  | inr ne ↦
      let rest = unexpired_kept now j m e (sym (rw (ne→==_false i j ne, lookup) refl) ∙ h) lt in
      elim (lt_cases now x.expiration_time_ms) [
        | inr gone ↦ rw (le→leb x.expiration_time_ms now gone) rest
        | inl kept ↦
            rw (lt→leb_false x.expiration_time_ms now kept) (rw (ne→==_false i j ne, lookup) rest)
      ]
]

-- No address is in the cache twice, as in the `std::unordered_map` of the source.
abbrev pub Unique : Map ArpEntry → Type 0
Unique [] = Unit {0}
Unique ((i, x) ∷ m) = (lookup i m ≡ none) × Unique m

unexpired_before :
    (now j : ℕ) (m : Map ArpEntry) (e : ArpEntry)
    → Unique m
    → lookup j (unexpired now m) ≡ some e
    → lookup j m ≡ some e
unfolding lookup unexpired
unexpired_before now j [] e u h = h
unexpired_before now j ((i, x) ∷ m) e u h = elim (lt_cases now x.expiration_time_ms) [
  | inr gone ↦
      let rest =
        unexpired_before now j m e u.1
          (sym (rw (le→leb x.expiration_time_ms now gone, unexpired) refl) ∙ h) in
      elim (eq_cases i j) [
        | inl same ↦ absurd (some_ne_none e (sym rest ∙ ap (λ k. lookup k m) (sym same) ∙ u.0))
        | inr ne ↦ rw (ne→==_false i j ne) rest
      ]
  | inl kept ↦
      let h' : lookup j ((i, x) ∷ unexpired now m) ≡ some e =
        sym (rw (lt→leb_false x.expiration_time_ms now kept, unexpired) refl) ∙ h in
      elim (eq_cases i j) [
        | inl same ↦ rw (same, ==_refl j, lookup) (sym (rw (same, ==_refl j, lookup) refl) ∙ h')
        | inr ne ↦
            rw (ne→==_false i j ne)
              (unexpired_before now j m e u.1 (sym (rw (ne→==_false i j ne, lookup) refl) ∙ h'))
      ]
]

unexpired-Unique : (now : ℕ) (m : Map ArpEntry) → Unique m → Unique (unexpired now m)
unfolding unexpired
unexpired-Unique now [] u = u
unexpired-Unique now ((i, x) ∷ m) u = elim (lt_cases now x.expiration_time_ms) [
  | inr gone ↦ rw (le→leb x.expiration_time_ms now gone) (unexpired-Unique now m u.1)
  | inl kept ↦
      rw (lt→leb_false x.expiration_time_ms now kept)
        (unexpired-none now i m u.0, unexpired-Unique now m u.1)
]

-- When no address is in the cache twice, `tick` leaves in it exactly the entries of before that
-- expire later than the new time, each as it was, and no address twice.
pub tick-Unexpired :
    (ms : ℕ) (n : NetworkInterface)
    → Unique n.arp_cache
    → Unique (tick ms n).arp_cache
      × ((j : ℕ) (e : ArpEntry)
          → (lookup j (tick ms n).arp_cache ≡ some e) ↔ (
              (lookup j n.arp_cache ≡ some e) × ((tick ms n).total_time_ms < e.expiration_time_ms)))
unfolding tick
tick-Unexpired ms n u =
    let now = (n.total_time_ms + ms) % u64 in
    (
      unexpired-Unique now n.arp_cache u,
      λ j e. (
        λ h. (unexpired_before now j n.arp_cache e u h, unexpired_later now j n.arp_cache e h),
        λ h. unexpired_kept now j n.arp_cache e h.0 h.1,
      ),
    )

-- Less than 30 seconds after an ARP message, a datagram of version 4 for its sender is transmitted at
-- once, to the Ethernet address of the sender. The datagrams that waited for the sender have version
-- 4 too, and the clock, in 64 bits, does not overflow.
pub learned-lasts :
    (m : ArpMessage) (n : NetworkInterface) (ms : ℕ) (d : Ipv4Datagram) (a : Address)
    → AllV4 (queue_at m.sender_ip_address n.pending_ip_datagrams)
    → ms < mapping_ttl_ms
    → n.total_time_ms + mapping_ttl_ms < u64
    → ipv4_numeric a ≡ m.sender_ip_address
    → d.header.ver ≡ 4
    → (learned : NetworkInterface) × (after : NetworkInterface) × (recv_arp m n ≡ some learned)
      × (send_datagram d a (tick ms learned) ≡ some after)
      × (after.transmitted
          ≡ learned.transmitted
            ++ datagram_frame n.ethernet_address m.sender_ethernet_address d ∷ [])
unfolding tick
learned-lasts m n ms d a v4 soon small same four =
    let (learned, run, l) = recv_arp-Learned m n v4 in
    let known =
      unexpired_kept ((learned.total_time_ms + ms) % u64) m.sender_ip_address learned.arp_cache _
        l.known (omega (arith, l.now)) in
    (
      learned,
      _,
      run,
      send_datagram-cached d a (tick ms learned) _
          (ap (λ i. lookup i (tick ms learned).arp_cache) same ∙ known) four,
      ap (λ eth. learned.transmitted ++ datagram_frame eth m.sender_ethernet_address d ∷ [])
          l.ethernet_address,
    )
