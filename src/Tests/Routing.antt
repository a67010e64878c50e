-- ===== src/Tests/Routing.antt =====
-- The theorem on the router (src/router.cc) at a concrete input.
use tiny_tcp_over_tun.Common.{ℕ, ◌≡◌, List, [], ◌∷◌, none, some, refl}
use tiny_tcp_over_tun.Router.{
  RouteEntry, add_route, insert_from, set_entry, set_child, child, bit, best_match, search_from,
  route_entry, better,
}
use tiny_tcp_over_tun.Router.Longest.{Longest, newest, table, best_match-Longest}

abbrev default_route : RouteEntry ℕ
default_route = record { route_prefix = 0; prefix_length = 0; next_hop = some 1; interface_num = 0 }

-- 10.0.0.0/8, and 10.128.0.0/9 inside it.
abbrev ten : RouteEntry ℕ
ten = record { route_prefix = 167772160; prefix_length = 8; next_hop = none; interface_num = 1 }

abbrev ten_high : RouteEntry ℕ
ten_high = record {
  route_prefix = 176160768;
  prefix_length = 9;
  next_hop = none;
  interface_num = 2;
}

abbrev routes : List (RouteEntry ℕ)
routes = ten ∷ ten_high ∷ default_route ∷ []

best_match-Longest_example :
    Longest (λ n. newest n 176160769 routes) 32 (best_match 176160769 (table routes))
best_match-Longest_example = best_match-Longest 176160769 routes

-- 10.128.0.1 is in both, 10.0.0.1 in the first only, and 9.0.0.1 in neither.
finds_longest : best_match 176160769 (table routes) ≡ some ten_high
unfolding best_match search_from table add_route insert_from set_entry set_child child bit
    route_entry better
finds_longest = refl

finds_shorter : best_match 167772161 (table routes) ≡ some ten
unfolding best_match search_from table add_route insert_from set_entry set_child child bit
    route_entry better
finds_shorter = refl

finds_default : best_match 150994945 (table routes) ≡ some default_route
unfolding best_match search_from table add_route insert_from set_entry set_child child bit
    route_entry better
finds_default = refl
