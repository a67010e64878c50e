-- ===== src/Reassembler/Segments.antt =====
-- The interval map `filled_segments_` of src/reassembler.cc as a set of indices, and the union
-- that `add_interval` computes.
pub mod Union
pub mod Refine
use tiny_tcp_over_tun.Common.{
  ℕ, suc, ◌+◌, ◌-◌, min, max, ◌≤◌, ◌<◌, ◌≡◌, ◌⊎◌, inl, inr, List, [], ◌∷◌, ltb, if◌then◌else◌,
  arith,
}
use tiny_tcp_over_tun.Reassembler.{Segment}

-- The segments are not empty, rise, start at `lo` or later, and never touch one another.
abbrev pub IsSorted : ℕ → List Segment → Type 0
IsSorted lo [] = Unit {0}
IsSorted lo ((a, b) ∷ segs) = (lo ≤ a) × (a < b) × IsSorted (suc b) segs

abbrev pub IsBelow : ℕ → List Segment → Type 0
IsBelow hi [] = Unit {0}
IsBelow hi ((a, b) ∷ segs) = (b ≤ hi) × IsBelow hi segs

-- The index `i` lies in a segment.
abbrev pub Covers : List Segment → ℕ → Type 0
Covers [] i = ⊥
Covers ((a, b) ∷ segs) i = ((a ≤ i) × (i < b)) ⊎ Covers segs i

-- The number of indices in sorted segments.
abbrev pub total : List Segment → ℕ
total [] = 0
total ((a, b) ∷ segs) = (b - a) + total segs

pub IsSorted-mono :
    {lo hi : ℕ} (segs : List Segment) → lo ≤ hi → IsSorted hi segs → IsSorted lo segs
IsSorted-mono [] h s = tt
IsSorted-mono ((a, b) ∷ segs) h s = (omega arith, s.1, s.2)

pub total-le :
    (lo hi : ℕ) (segs : List Segment) → IsSorted lo segs → IsBelow hi segs → total segs ≤ hi - lo
total-le lo hi [] s b = omega arith
total-le lo hi ((a, e) ∷ segs) s b = omega (arith, total-le (suc e) hi segs s.2 b.1)

pub Covers-bounds :
    (lo hi i : ℕ) (segs : List Segment)
    → IsSorted lo segs
    → IsBelow hi segs
    → Covers segs i
    → (lo ≤ i) × (i < hi)
Covers-bounds lo hi i [] s b c = absurd c
Covers-bounds lo hi i ((a, e) ∷ segs) s b (inl c) = omega arith
Covers-bounds lo hi i ((a, e) ∷ segs) s b (inr c) =
    omega (arith, Covers-bounds (suc e) hi i segs s.2 b.1 c)

pub IsBelow-mono : {lo hi : ℕ} (segs : List Segment) → lo ≤ hi → IsBelow lo segs → IsBelow hi segs
IsBelow-mono [] h s = tt
IsBelow-mono ((a, b) ∷ segs) h s = (omega arith, IsBelow-mono segs h s.1)
