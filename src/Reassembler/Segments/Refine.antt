-- ===== src/Reassembler/Segments/Refine.antt =====
-- `add_interval` of src/reassembler.cc computes the union, and keeps `pending_bytes_` equal to the
-- number of indices in the map.
use tiny_tcp_over_tun.Common.{
  ℕ, suc, ◌+◌, ◌-◌, min, max, ◌≤◌, ◌<◌, ◌≡◌, ◌⊎◌, inl, inr, List, [], ◌∷◌, ◌++◌, arith, refl, ap,
  ◌↔◌, ap₂, ◌∙◌, u64, add64, sub64, lt_cases, le→leb, lt→leb_false, le→ltb_false, lt→ltb,
}
use tiny_tcp_over_tun.Reassembler.{
  Segment, Merged, lower_bound, step_back, merge, emplace, add_segment,
}
use tiny_tcp_over_tun.Reassembler.Segments.{
  IsSorted, IsBelow, Covers, total, total-le, IsSorted-mono,
}
use tiny_tcp_over_tun.Reassembler.Segments.Union.{
  union, union-IsSorted, union-IsBelow, Covers-of_union, union-Covers,
}

-- Every segment ends at `s` or later.
abbrev Reach : ℕ → List Segment → Type 0
Reach s [] = Unit {0}
Reach s ((a, b) ∷ segs) = (s ≤ b) × Reach s segs

Reach-of_IsSorted : (s lo : ℕ) (segs : List Segment) → s ≤ lo → IsSorted lo segs → Reach s segs
Reach-of_IsSorted s lo [] h sorted = tt
Reach-of_IsSorted s lo ((a, b) ∷ segs) h sorted =
    (omega arith, Reach-of_IsSorted s (suc b) segs (omega arith) sorted.2)

-- What `add_interval` leaves of the map, from the entry at the iterator on.
abbrev finish : Merged → List Segment
finish m = emplace m.new_start m.new_end (m.passed ++ m.rest)

abbrev count : Merged → ℕ
count m = add64 m.pending (sub64 m.new_end m.new_start)

emplace-front :
    (s e a b : ℕ) (segs : List Segment)
    → s < a
    → emplace s e ((a, b) ∷ segs) ≡ (s, e) ∷ (a, b) ∷ segs
unfolding emplace
emplace-front s e a b segs h = ground arith

emplace-later :
    (s e a b : ℕ) (segs : List Segment)
    → a < s
    → emplace s e ((a, b) ∷ segs) ≡ (a, b) ∷ emplace s e segs
unfolding emplace
emplace-later s e a b segs h = ground arith

merge-join :
    (s e pending a b : ℕ) (segs : List Segment)
    → a ≤ e
    → s ≤ b
    → merge s e pending ((a, b) ∷ segs) ≡ merge (min s a) (max e b) (sub64 pending (sub64 b a)) segs
unfolding merge
merge-join s e pending a b segs h k = rw (le→leb a e h, le→ltb_false b s k)

merge-stop :
    (s e pending a b : ℕ) (segs : List Segment)
    → e < a
    → merge s e pending ((a, b) ∷ segs)
      ≡ record { passed = []; rest = (a, b) ∷ segs; new_start = s; new_end = e; pending = pending }
unfolding merge
merge-stop s e pending a b segs h = rw (lt→leb_false a e h)

union-join :
    (s e a b : ℕ) (segs : List Segment)
    → a ≤ e
    → s ≤ b
    → union s e ((a, b) ∷ segs) ≡ union (min s a) (max e b) segs
unfolding union
union-join s e a b segs h k = rw (le→ltb_false b s k, le→ltb_false e a h)

union-stop :
    (s e a b : ℕ) (segs : List Segment)
    → s ≤ b
    → e < a
    → union s e ((a, b) ∷ segs) ≡ (s, e) ∷ (a, b) ∷ segs
unfolding union
union-stop s e a b segs k h = rw (le→ltb_false b s k, lt→ltb e a h)

union-later :
    (s e a b : ℕ) (segs : List Segment)
    → b < s
    → union s e ((a, b) ∷ segs) ≡ (a, b) ∷ union s e segs
unfolding union
union-later s e a b segs h = rw (lt→ltb b s h)

Reach-mono : (s t : ℕ) (segs : List Segment) → t ≤ s → Reach s segs → Reach t segs
Reach-mono s t [] h r = tt
Reach-mono s t ((a, b) ∷ segs) h r = (omega arith, Reach-mono s t segs h r.1)

finish-merge :
    (s e pending : ℕ) (segs : List Segment)
    → s < e
    → Reach s segs
    → finish (merge s e pending segs) ≡ union s e segs
unfolding merge union emplace
finish-merge s e pending [] lt r = refl
finish-merge s e pending ((a, b) ∷ segs) lt r = elim (lt_cases e a) [
  | inl h ↦
      rw (merge-stop s e pending a b segs h, union-stop s e a b segs r.0 h)
        (emplace-front s e a b segs (omega arith))
  | inr h ↦
      rw (merge-join s e pending a b segs h r.0, union-join s e a b segs h r.0)
        (finish-merge (min s a) (max e b) (sub64 pending (sub64 b a)) segs (omega arith)
          (Reach-mono s (min s a) segs (omega arith) r.1))
]

-- `base` counts the segments before the iterator.
count-merge :
    (base hi s e pending lo : ℕ) (segs : List Segment)
    → s < e
    → Reach s segs
    → IsSorted lo segs
    → IsBelow hi segs
    → base ≤ s
    → base ≤ lo
    → e ≤ hi
    → hi < u64
    → pending ≡ base + total segs
    → count (merge s e pending segs) ≡ base + total (union s e segs)
unfolding merge union
count-merge base hi s e pending lo [] lt r sorted below bs bl eh hu p = omega arith
count-merge base hi s e pending lo ((a, b) ∷ segs) lt r sorted below bs bl eh hu p =
    let t : total segs ≤ hi - suc b = total-le (suc b) hi segs sorted.2 below.1 in
    elim (lt_cases e a) [
      | inl h ↦ rw (merge-stop s e pending a b segs h, union-stop s e a b segs r.0 h) (omega arith)
      | inr h ↦
          rw (merge-join s e pending a b segs h r.0, union-join s e a b segs h r.0)
            (count-merge base hi (min s a) (max e b) (sub64 pending (sub64 b a)) (suc b) segs
              (omega arith) (Reach-mono s (min s a) segs (omega arith) r.1) sorted.2 below.1
              (omega arith) (omega arith) (omega arith) hu (omega arith))
    ]

new_start-merge :
    (lo s e pending : ℕ) (segs : List Segment)
    → lo ≤ s
    → Reach s segs
    → IsSorted lo segs
    → lo ≤ (merge s e pending segs).new_start
unfolding merge
new_start-merge lo s e pending [] h r sorted = h
new_start-merge lo s e pending ((a, b) ∷ segs) h r sorted = elim (lt_cases e a) [
  | inl k ↦ rw (merge-stop s e pending a b segs k) h
  | inr k ↦ rw (merge-join s e pending a b segs k r.0) (
      new_start-merge lo (min s a) (max e b) (sub64 pending (sub64 b a)) segs (omega arith)
        (Reach-mono s (min s a) segs (omega arith) r.1) (IsSorted-mono segs (omega arith) sorted.2))
]

-- The iterator's place when the loop starts.
abbrev split : ℕ → List Segment → List Segment × List Segment
split s segs = step_back s (lower_bound s segs).0 (lower_bound s segs).1

lower_bound-front :
    (s : ℕ) (segs : List Segment) → IsSorted s segs → lower_bound s segs ≡ ([], segs)
unfolding lower_bound
lower_bound-front s [] sorted = refl
lower_bound-front s ((a, b) ∷ segs) sorted = rw (le→ltb_false a s sorted.0)

split-here :
    (lo s a b : ℕ) (segs : List Segment)
    → IsSorted lo ((a, b) ∷ segs)
    → s ≤ b
    → split s ((a, b) ∷ segs) ≡ ([], (a, b) ∷ segs)
unfolding lower_bound step_back
split-here lo s a b segs sorted h = elim (lt_cases a s) [
  | inl k ↦
      rw (lt→ltb a s k, lower_bound-front s segs (IsSorted-mono segs (omega arith) sorted.2))
        (rw (le→leb s b h))
  | inr k ↦ rw (le→ltb_false a s k)
]

step_back-later :
    (s a b : ℕ) (before it : List Segment)
    → b < s
    → step_back s ((a, b) ∷ before) it
      ≡ ((a, b) ∷ (step_back s before it).0, (step_back s before it).1)
unfolding step_back
step_back-later s a b [] it h = rw (lt→leb_false s b h)
step_back-later s a b (q ∷ before) it h = refl

split-later :
    (s a b : ℕ) (segs : List Segment)
    → a < b
    → b < s
    → split s ((a, b) ∷ segs) ≡ ((a, b) ∷ (split s segs).0, (split s segs).1)
unfolding lower_bound
split-later s a b segs ab h =
    rw (lt→ltb a s (omega arith))
      (step_back-later s a b (lower_bound s segs).0 (lower_bound s segs).1 h)

-- `add_interval` from its place in the map on, with the entries before it.
abbrev added : ℕ → ℕ → ℕ → List Segment × List Segment → List Segment × ℕ
added s e pending (before, it) =
    let m = merge s e pending it in
    (emplace m.new_start m.new_end (before ++ (m.passed ++ m.rest)), count m)

pub record Added (s e lo base pending : ℕ) (segs : List Segment) : Type 0 where
  segments : (added s e pending (split s segs)).0 ≡ union s e segs
  counted : (added s e pending (split s segs)).1 ≡ base + total (union s e segs)
  start : lo ≤ (merge s e pending (split s segs).1).new_start

split-Added :
    (s e lo hi base pending : ℕ) (segs : List Segment)
    → s < e
    → lo ≤ s
    → IsSorted lo segs
    → IsBelow hi segs
    → base ≤ lo
    → e ≤ hi
    → hi < u64
    → pending ≡ base + total segs
    → Added s e lo base pending segs
unfolding lower_bound step_back
split-Added s e lo hi base pending [] lt ls sorted below bl eh hu p = record {
  segments = finish-merge s e pending [] lt tt;
  counted = count-merge base hi s e pending lo [] lt tt tt tt (omega arith) bl eh hu p;
  start = new_start-merge lo s e pending [] ls tt tt;
}
split-Added s e lo hi base pending ((a, b) ∷ segs) lt ls sorted below bl eh hu p =
    elim (lt_cases b s) [
      | inl h ↦
          let ih : Added s e (suc b) (base + (b - a)) pending segs =
            split-Added s e (suc b) hi (base + (b - a)) pending segs lt h sorted.2 below.1
              (omega arith) eh hu (omega arith) in
          let sp = split-later s a b segs sorted.1 h in
          record {
            segments =
                rw (sp, union-later s e a b segs h)
                  (emplace-later _ _ a b _ (omega (arith, ih.start)) ∙ ap (◌∷◌ (a, b)) ih.segments);
            counted = rw (sp, union-later s e a b segs h) (omega (arith, ih.counted));
            start = rw sp (omega (arith, ih.start));
          }
      | inr h ↦
          let r : Reach s ((a, b) ∷ segs) =
            (h, Reach-of_IsSorted s (suc b) segs (omega arith) sorted.2) in
          let sp = split-here lo s a b segs sorted h in
          record {
            segments = rw sp (finish-merge s e pending ((a, b) ∷ segs) lt r);
            counted = rw sp (
                count-merge base hi s e pending lo ((a, b) ∷ segs) lt r sorted below (omega arith)
                  bl eh hu p);
            start = rw sp (new_start-merge lo s e pending ((a, b) ∷ segs) ls r sorted);
          }
    ]

-- On sorted segments below 2^64 whose number of indices is counted, `add_interval` of a non-empty
-- interval leaves the union and its number of indices.
pub add_segment-union :
    (s e lo hi : ℕ) (segs : List Segment)
    → s < e
    → lo ≤ s
    → IsSorted lo segs
    → IsBelow hi segs
    → e ≤ hi
    → hi < u64
    → add_segment s e (total segs) segs ≡ (union s e segs, total (union s e segs))
unfolding add_segment
add_segment-union s e lo hi segs lt ls sorted below eh hu =
    let a =
      split-Added s e lo hi 0 (total segs) segs lt ls sorted below (omega arith) eh hu
        (omega arith) in
    ap₂ (λ x y. (x, y)) a.segments (omega (arith, a.counted))

-- On sorted segments below 2^64 whose number of indices is counted, `add_interval` of a non-empty
-- interval below the same bound leaves sorted segments below the bound, counted again, that cover
-- exactly the indices covered before and those of the interval.
pub add_segment_lem :
    (s e lo hi : ℕ) (segs : List Segment)
    → s < e
    → lo ≤ s
    → IsSorted lo segs
    → IsBelow hi segs
    → e ≤ hi
    → hi < u64
    → let (segs', n) = add_segment s e (total segs) segs in
      IsSorted lo segs'
      × IsBelow hi segs'
      × (n ≡ total segs')
      × ((i : ℕ) → Covers segs' i ↔ (((s ≤ i) × (i < e)) ⊎ Covers segs i))
add_segment_lem s e lo hi segs lt ls sorted below eh hu =
    rw (add_segment-union s e lo hi segs lt ls sorted below eh hu) (
      union-IsSorted lo s e segs lt ls sorted,
      union-IsBelow hi s e segs eh below,
      refl,
      λ i. (Covers-of_union s e i segs lt, union-Covers s e i segs lt),
    )
