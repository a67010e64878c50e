-- ===== src/Router.antt =====
-- src/router.hh and src/router.cc: the trie of routes and its longest-prefix match. An `Address` of a
-- next hop is only passed on, so it is any type.
pub mod Entries
pub mod Longest
pub mod Emptied
pub mod Delivers
pub mod Forward
pub mod Forwarded
use tiny_tcp_over_tun.Common.{
  ℕ, zero, suc, ◌-◌, ◌/◌, ◌%◌, ◌^◌, Bool, true, false, Option, none, some, ◌==◌, List, [], ◌∷◌,
}

pub record RouteEntry (Address : Type 0) : Type 0 where
  pub route_prefix : ℕ
  pub prefix_length : ℕ
  pub next_hop : Option Address
  pub interface_num : ℕ

-- `TrieNode`; `null` is an empty pointer.
pub data Trie (R : Type 0) : Type 0 where
  null : Trie R
  node : Option R → Trie R → Trie R → Trie R

-- `( address >> ( 31 - i ) ) & 1`. It is called for `i` below 32 only: the search takes 32 bits, and
-- `Forward.add_route` returns none for a longer prefix, where the shift of the source is undefined.
unfoldable pub bit : ℕ → ℕ → Bool
bit i address = ((address / 2 ^ (31 - i)) % 2) == 1

unfoldable pub route_entry : {R : Type 0} → Trie R → Option R
route_entry null = none
route_entry (node r zeros ones) = r

-- `current->children[bit]`
unfoldable pub child : {R : Type 0} → Bool → Trie R → Trie R
child b null = null
child false (node r zeros ones) = zeros
child true (node r zeros ones) = ones

-- A node with one child replaced; an empty pointer becomes a new node.
unfoldable pub set_child : {R : Type 0} → Bool → Trie R → Trie R → Trie R
set_child false c null = node none c null
set_child true c null = node none null c
set_child false c (node r zeros ones) = node r c ones
set_child true c (node r zeros ones) = node r zeros c

unfoldable pub set_entry : {R : Type 0} → R → Trie R → Trie R
set_entry r null = node (some r) null null
set_entry r (node old zeros ones) = node (some r) zeros ones

-- The loop of `add_route` from bit `i` on, with `left` bits to go.
unfoldable pub insert_from : {R : Type 0} → ℕ → ℕ → ℕ → R → Trie R → Trie R
unfolding set_entry set_child child
insert_from zero i route_prefix r t = set_entry r t
insert_from (suc left) i route_prefix r t =
    set_child (bit i route_prefix)
      (insert_from left (suc i) route_prefix r (child (bit i route_prefix) t)) t

-- The trie's part of `add_route`, which has checked that the prefix has at most 32 bits.
unfoldable pub add_route : {A : Type 0} → RouteEntry A → Trie (RouteEntry A) → Trie (RouteEntry A)
unfolding insert_from
add_route e t = insert_from e.prefix_length 0 e.route_prefix e t

-- `best_match`, after the entry of the node `t` has been looked at.
unfoldable pub better : {R : Type 0} → Trie R → Option R → Option R
better null best = best
better (node none zeros ones) best = best
better (node (some r) zeros ones) best = some r

-- The loop of `route` from bit `i` on, with `left` bits to go.
unfoldable pub search_from : {R : Type 0} → ℕ → ℕ → ℕ → Trie R → Option R → Option R
search_from zero i dst_ip current best = best
search_from (suc left) i dst_ip current best =
    let next = child (bit i dst_ip) current in
    let rest = search_from left (suc i) dst_ip next (better next best) in
    elim next [ null ↦ best | node r zeros ones ↦ rest ]

unfoldable pub best_match : {R : Type 0} → ℕ → Trie R → Option R
unfolding search_from route_entry
best_match dst_ip root = search_from 32 0 dst_ip root (route_entry root)
