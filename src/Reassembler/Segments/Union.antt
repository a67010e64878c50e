-- ===== src/Reassembler/Segments/Union.antt =====
-- The union of an interval with sorted segments, by recursion on the segments.
use tiny_tcp_over_tun.Common.{
  ℕ, suc, min, max, ◌≤◌, ◌<◌, ◌⊎◌, List, [], ◌∷◌, ltb, if◌then◌else◌, arith,
}
use tiny_tcp_over_tun.Reassembler.{Segment}
use tiny_tcp_over_tun.Reassembler.Segments.{IsSorted, IsBelow, Covers, IsSorted-mono}

unfoldable pub union : ℕ → ℕ → List Segment → List Segment
union s e [] = (s, e) ∷ []
union s e ((a, b) ∷ segs) =
    let keep = union s e segs in
    let join = union (min s a) (max e b) segs in
    if ltb b s then (a, b) ∷ keep else if ltb e a then (s, e) ∷ (a, b) ∷ segs else join

pub union-IsSorted :
    (lo s e : ℕ) (segs : List Segment)
    → s < e
    → lo ≤ s
    → IsSorted lo segs
    → IsSorted lo (union s e segs)
unfolding union
union-IsSorted lo s e [] lt h sorted = (h, lt, tt)
union-IsSorted lo s e ((a, b) ∷ segs) lt h sorted = ground (
  arith,
  union-IsSorted (suc b) s e segs lt,
  union-IsSorted lo (min s a) (max e b) segs,
  IsSorted-mono {lo = lo} {hi = suc b} segs,
)

pub union-IsBelow :
    (hi s e : ℕ) (segs : List Segment) → e ≤ hi → IsBelow hi segs → IsBelow hi (union s e segs)
unfolding union
union-IsBelow hi s e [] h below = (h, tt)
union-IsBelow hi s e ((a, b) ∷ segs) h below =
    ground (arith, union-IsBelow hi s e segs h, union-IsBelow hi (min s a) (max e b) segs)

pub Covers-of_union :
    (s e i : ℕ) (segs : List Segment)
    → s < e
    → Covers (union s e segs) i
    → ((s ≤ i) × (i < e)) ⊎ Covers segs i
unfolding union
Covers-of_union s e i [] lt c = c
Covers-of_union s e i ((a, b) ∷ segs) lt c =
    ground (
      arith,
      Covers-of_union s e i segs lt,
      Covers-of_union (min s a) (max e b) i segs (omega arith),
    )

pub union-Covers :
    (s e i : ℕ) (segs : List Segment)
    → s < e
    → ((s ≤ i) × (i < e)) ⊎ Covers segs i
    → Covers (union s e segs) i
unfolding union
union-Covers s e i [] lt c = c
union-Covers s e i ((a, b) ∷ segs) lt c =
    ground
      (arith, union-Covers s e i segs lt, union-Covers (min s a) (max e b) i segs (omega arith))
