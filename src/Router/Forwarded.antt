-- ===== src/Router/Forwarded.antt =====
-- What `route` of src/router.cc does with one datagram.
use tiny_tcp_over_tun.Common.{
  ℕ, zero, suc, ◌-◌, ◌<◌, ◌≡◌, ◌≢◌, inl, inr, List, [], ◌∷◌, length, some, arith, refl, ap, sym,
  ◌∙◌, Bool-cases, Option-cases, subst, eq_cases, lookup, some_ne_none, some_injective, lt_cases,
  le→leb, lt→leb_false,
}
use tiny_tcp_over_tun.Address.{Address, ipv4_numeric}
use tiny_tcp_over_tun.Ipv4.{Ipv4Datagram}
use tiny_tcp_over_tun.NetworkInterface.{NetworkInterface, send_datagram, may_request}
use tiny_tcp_over_tun.NetworkInterface.Sends.{send_datagram-cached}
use tiny_tcp_over_tun.NetworkInterface.Throttle.{drop_stale-eq}
use tiny_tcp_over_tun.NetworkInterface.Requests.{sends_nothing, sends_request}
use tiny_tcp_over_tun.Router.{RouteEntry, best_match}
use tiny_tcp_over_tun.Router.Forward.{
  Table, at, set_at, interface, next_address, send_by, route_datagram,
}

-- The queue of interface `i`
abbrev pub queue_of : ℕ → List NetworkInterface → List Ipv4Datagram
queue_of i [] = []
queue_of zero (n ∷ ns) = n.datagrams_received
queue_of (suc i) (n ∷ ns) = queue_of i ns

pub at-some : {A : Type 0} (i : ℕ) (xs : List A) → i < length xs → (x : A) × (at i xs ≡ some x)
unfolding at
at-some i [] h = absurd (omega arith)
at-some zero (x ∷ xs) h = (x, refl)
at-some (suc i) (x ∷ xs) h = at-some i xs (omega arith)

pub length-set_at : {A : Type 0} (i : ℕ) (a : A) (xs : List A) → length (set_at i a xs) ≡ length xs
unfolding set_at
length-set_at i a [] = refl
length-set_at zero a (x ∷ xs) = refl
length-set_at (suc i) a (x ∷ xs) = ap suc (length-set_at i a xs)

pub queue_of-at :
    (i : ℕ) (ns : List NetworkInterface) (n : NetworkInterface)
    → at i ns ≡ some n
    → queue_of i ns ≡ n.datagrams_received
unfolding at
queue_of-at i [] n e = absurd (some_ne_none n (sym e))
queue_of-at zero (x ∷ ns) n e = ap (λ x. x.datagrams_received) (some_injective e)
queue_of-at (suc i) (x ∷ ns) n e = queue_of-at i ns n e

pub queue_of-set_at :
    (i : ℕ) (n : NetworkInterface) (ns : List NetworkInterface)
    → i < length ns
    → queue_of i (set_at i n ns) ≡ n.datagrams_received
unfolding set_at
queue_of-set_at i n [] h = absurd (omega arith)
queue_of-set_at zero n (x ∷ ns) h = refl
queue_of-set_at (suc i) n (x ∷ ns) h = queue_of-set_at i n ns (omega arith)

pub queue_of-set_at_other :
    (i j : ℕ) (n : NetworkInterface) (ns : List NetworkInterface)
    → i ≢ j
    → queue_of j (set_at i n ns) ≡ queue_of j ns
unfolding set_at
queue_of-set_at_other i j n [] d = refl
queue_of-set_at_other zero zero n (x ∷ ns) d = absurd (d refl)
queue_of-set_at_other zero (suc j) n (x ∷ ns) d = refl
queue_of-set_at_other (suc i) zero n (x ∷ ns) d = refl
queue_of-set_at_other (suc i) (suc j) n (x ∷ ns) d =
    queue_of-set_at_other i j n ns (λ e. d (ap suc e))

-- A datagram of version 4 is sent, or waits, without an exception.
send_datagram-some :
    (d : Ipv4Datagram) (a : Address) (n : NetworkInterface)
    → d.header.ver ≡ 4
    → (after : NetworkInterface) × (send_datagram d a n ≡ some after)
      × (after.datagrams_received ≡ n.datagrams_received)
send_datagram-some d a n four = elim (Option-cases (lookup (ipv4_numeric a) n.arp_cache)) [
  | inr (e, known) ↦ (_, send_datagram-cached d a n e known four, refl)
  | inl unknown ↦ elim (Bool-cases (may_request (ipv4_numeric a) n)) [
    | inr early ↦
        let (after, sent, waits, times) = sends_nothing d a n unknown early in
        (after, sent, waits.received)
    | inl late ↦
        let (m, dropped) = drop_stale-eq (ipv4_numeric a) n in
        let (after, s, sent, written, waits, until) = sends_request d a n unknown m late dropped in
        (after, sent, waits.received)
  ]
]

-- The table and the queues are as before.
pub record Kept (r after : Table) : Type 0 where
  pub trie : after.trie_root ≡ r.trie_root
  pub size : length after.interfaces ≡ length r.interfaces
  pub queues : (j : ℕ) → queue_of j after.interfaces ≡ queue_of j r.interfaces

send_by-Kept :
    (e : RouteEntry Address) (d : Ipv4Datagram) (r : Table)
    → e.interface_num < length r.interfaces
    → d.header.ver ≡ 4
    → (after : Table) × (send_by e d r ≡ some after) × Kept r after
unfolding send_by interface
send_by-Kept e d r h four =
    let i = e.interface_num in
    let (target, found) = at-some i r.interfaces h in
    let (sent, run, same) = send_datagram-some d (next_address e d.header.dst) target four in
    (
      record r { interfaces = set_at i sent r.interfaces },
      rw (found, send_by) (rw (run, send_by) refl),
      record {
        trie = refl;
        size = length-set_at i sent r.interfaces;
        queues = λ j. elim (eq_cases i j) [
          | inr ne ↦ queue_of-set_at_other i j sent r.interfaces ne
          | inl e' ↦
              subst (λ k. queue_of k (set_at i sent r.interfaces) ≡ queue_of k r.interfaces) e'
                (queue_of-set_at i sent r.interfaces h
                  ∙ same
                  ∙ sym (queue_of-at i r.interfaces target found))
        ];
      },
    )

-- Every route of the table is for an interface that there is.
abbrev pub AllRoutes : Table → Type 0
AllRoutes r =
    (dst : ℕ) (e : RouteEntry Address)
    → best_match dst r.trie_root ≡ some e
    → e.interface_num < length r.interfaces

pub route_datagram-Kept :
    (d : Ipv4Datagram) (r : Table)
    → AllRoutes r
    → d.header.ver ≡ 4
    → (after : Table) × (route_datagram d r ≡ some after) × Kept r after
unfolding route_datagram
route_datagram-Kept d r ok four = elim (lt_cases 1 d.header.ttl) [
  | inr old ↦ (
    r,
    rw (le→leb d.header.ttl 1 old) refl,
    record { trie = refl; size = refl; queues = λ j. refl },
  )
  | inl alive ↦ elim (Option-cases (best_match d.header.dst r.trie_root)) [
    | inl none_found ↦ (
      r,
      rw (lt→leb_false d.header.ttl 1 alive) (rw none_found refl),
      record { trie = refl; size = refl; queues = λ j. refl },
    )
    | inr (e, found) ↦
        let aged : Ipv4Datagram = record d {
          header = record d.header { ttl = d.header.ttl - 1 };
        } in
        let (after, run, kept) = send_by-Kept e aged r (ok d.header.dst e found) four in
        (after, rw (lt→leb_false d.header.ttl 1 alive) (rw found run), kept)
  ]
]
