-- ===== src/Router/Emptied.antt =====
-- The loops of `route` (src/router.cc).
use tiny_tcp_over_tun.Common.{
  ℕ, zero, suc, ◌+◌, ◌<◌, ◌≡◌, ◌≢◌, inl, inr, List, [], ◌∷◌, length, Option, none, some, arith,
  refl, ap, sym, ◌∙◌, subst, eq_cases,
}
use tiny_tcp_over_tun.Ipv4.{Ipv4Datagram}
use tiny_tcp_over_tun.NetworkInterface.Learns.{AllV4}
use tiny_tcp_over_tun.Router.{best_match}
use tiny_tcp_over_tun.Router.Forward.{
  Table, set_at, interface, route_queue, queue_length, route_from, route,
}
use tiny_tcp_over_tun.Router.Forwarded.{
  queue_of, at-some, length-set_at, queue_of-at, queue_of-set_at, queue_of-set_at_other, AllRoutes,
  route_datagram-Kept,
}

-- The queue of interface `i` has been emptied, and the other queues are as before.
record Emptied (i : ℕ) (r after : Table) : Type 0 where
  trie : after.trie_root ≡ r.trie_root
  size : length after.interfaces ≡ length r.interfaces
  empty : queue_of i after.interfaces ≡ []
  others : (j : ℕ) → i ≢ j → queue_of j after.interfaces ≡ queue_of j r.interfaces

AllRoutes-same :
    (r after : Table)
    → after.trie_root ≡ r.trie_root
    → length after.interfaces ≡ length r.interfaces
    → AllRoutes r
    → AllRoutes after
AllRoutes-same r after trie size ok dst e found =
    let h : e.interface_num < length r.interfaces =
      ok dst e (ap (best_match dst) (sym trie) ∙ found) in
    omega (arith, h, size)

route_queue-Emptied :
    (i : ℕ) (q : List Ipv4Datagram) (r : Table)
    → i < length r.interfaces
    → queue_of i r.interfaces ≡ q
    → AllRoutes r
    → AllV4 q
    → (after : Table) × (route_queue (suc (length q)) i r ≡ some after) × Emptied i r after
unfolding route_queue interface
route_queue-Emptied i [] r h waiting ok v4 =
    let (n, found) = at-some i r.interfaces h in
    let none_left : n.datagrams_received ≡ [] =
      sym (queue_of-at i r.interfaces n found) ∙ waiting in
    (
      r,
      rw (found, route_queue) (rw (none_left, route_queue) refl),
      record { trie = refl; size = refl; empty = waiting; others = λ j ne. refl },
    )
route_queue-Emptied i (d ∷ q) r h waiting ok (four, v4) =
    let (n, found) = at-some i r.interfaces h in
    let front : n.datagrams_received ≡ d ∷ q = sym (queue_of-at i r.interfaces n found) ∙ waiting in
    let popped = record n { datagrams_received = q } in
    let taken = record r { interfaces = set_at i popped r.interfaces } in
    let size = length-set_at i popped r.interfaces in
    let ok' = AllRoutes-same r taken refl size ok in
    let (routed, run, kept) = route_datagram-Kept d taken ok' four in
    let (after, runs, m) =
      route_queue-Emptied i q routed (omega (arith, h, size, kept.size))
        (kept.queues i ∙ queue_of-set_at i popped r.interfaces h)
        (AllRoutes-same taken routed kept.trie kept.size ok') v4 in
    (
      after,
      rw (found, route_queue) (rw (front, route_queue) (rw (run, route_queue) runs)),
      record {
        trie = m.trie ∙ kept.trie;
        size = m.size ∙ kept.size ∙ size;
        empty = m.empty;
        others = λ j ne.
            m.others j ne ∙ kept.queues j ∙ queue_of-set_at_other i j popped r.interfaces ne;
      },
    )

queue_length-is :
    (i : ℕ) (r : Table)
    → i < length r.interfaces
    → queue_length i r ≡ length (queue_of i r.interfaces)
unfolding queue_length interface
queue_length-is i r h =
    let (n, found) = at-some i r.interfaces h in
    rw (found, queue_length) (ap length (sym (queue_of-at i r.interfaces n found)))

AllRoutes-Emptied : (i : ℕ) (r after : Table) → Emptied i r after → AllRoutes r → AllRoutes after
AllRoutes-Emptied i r after m ok = AllRoutes-same r after m.trie m.size ok

route_from_step :
    (left i : ℕ) (r routed after : Table)
    → route_queue (suc (queue_length i r)) i r ≡ some routed
    → route_from left (suc i) routed ≡ some after
    → route_from (suc left) i r ≡ some after
unfolding route_from
route_from_step left i r routed after run runs =
    ap (λ o. elim o as (λ _. Option Table) [ none ↦ none | some t ↦ route_from left (suc i) t ]) run
    ∙ runs

route_from-Emptied :
    (left i : ℕ) (r : Table)
    → i + left ≡ length r.interfaces
    → AllRoutes r
    → ((j : ℕ) → AllV4 (queue_of j r.interfaces))
    → ((j : ℕ) → j < i → queue_of j r.interfaces ≡ [])
    → (after : Table) × (route_from left i r ≡ some after)
      × ((j : ℕ) → j < length r.interfaces → queue_of j after.interfaces ≡ [])
unfolding route_from
route_from-Emptied zero i r e ok v4 before = (r, refl, λ j h. before j (omega (arith, h, e)))
route_from-Emptied (suc left) i r e ok v4 before =
    let here : i < length r.interfaces = omega (arith, e) in
    let q = queue_of i r.interfaces in
    let (routed, run, m) = route_queue-Emptied i q r here refl ok (v4 i) in
    let (after, runs, all) =
      route_from-Emptied left (suc i) routed (omega (arith, e, m.size))
        (AllRoutes-Emptied i r routed m ok) (v4_after routed m) (empty_after routed m) in
    (
      after,
      route_from_step left i r routed after
          (ap (λ k. route_queue (suc k) i r) (queue_length-is i r here) ∙ run) runs,
      λ j h. all j (omega (arith, h, m.size)),
    )
  where
    v4_after :
        (routed : Table) → Emptied i r routed → (j : ℕ) → AllV4 (queue_of j routed.interfaces)
    v4_after routed m j = elim (eq_cases i j) [
      | inl same ↦
          subst (λ k. AllV4 (queue_of k routed.interfaces)) same (subst AllV4 (sym m.empty) tt)
      | inr ne ↦ subst AllV4 (sym (m.others j ne)) (v4 j)
    ]

    empty_after :
        (routed : Table)
        → Emptied i r routed
        → (j : ℕ) → j < suc i
        → queue_of j routed.interfaces ≡ []
    empty_after routed m j h = elim (eq_cases i j) [
      | inl same ↦ subst (λ k. queue_of k routed.interfaces ≡ []) same m.empty
      | inr ne ↦ m.others j ne ∙ before j (omega (arith, h, ne))
    ]

-- When every route is for an interface that there is, and every received datagram has version 4,
-- `route` ends without an exception and leaves no datagram in the queue of an interface.
pub route-Emptied :
    (r : Table)
    → AllRoutes r
    → ((j : ℕ) → AllV4 (queue_of j r.interfaces))
    → (after : Table) × (route r ≡ some after)
      × ((j : ℕ) → j < length r.interfaces → queue_of j after.interfaces ≡ [])
unfolding route
route-Emptied r ok v4 =
    route_from-Emptied (length r.interfaces) 0 r (omega arith) ok v4 (λ j h. absurd (omega arith))
