-- ===== src/Reassembler/Store.antt =====
-- The second half of `Reassembler::insert` (src/reassembler.cc): the clipped substring goes into
-- the ring and the map.
pub mod Keep
use tiny_tcp_over_tun.Common.{
  ℕ, suc, ◌+◌, ◌-◌, ◌%◌, min, max, ◌≤◌, ◌<◌, ◌≡◌, ◌↔◌, ◌⊎◌, inl, inr, List, length, take, drop,
  get_or, arith, refl, ap, sym, ◌∙◌, u64, sub64, add64, lt_cases, lt→ltb, le→ltb_false, ltb, leb,
  lt→leb_false, if◌then◌else◌, length-take, length-drop, get_or-take, get_or-drop, true, false, not,
  ◌||◌, ◌==◌, ne→==_false,
}
use tiny_tcp_over_tun.Reassembler.{
  Reassembler, Segment, copy_loop, copy_into_ring, add_segment, add_interval,
}
use tiny_tcp_over_tun.Reassembler.Segments.{
  IsSorted, IsBelow, Covers, total, Covers-bounds, IsSorted-mono,
}
use tiny_tcp_over_tun.Reassembler.Segments.Refine.{add_segment_lem}
use tiny_tcp_over_tun.Reassembler.Ring.{
  place, mod-place, copy_loop_in, copy_loop_out, length-copy_loop,
}
use tiny_tcp_over_tun.Reassembler.Ring.Collect.{behind}
use tiny_tcp_over_tun.Reassembler.Stored.{Written, Ringed}

-- The bytes are those of the source from index `start` on.
abbrev pub Agrees : (ℕ → ℕ) → ℕ → List ℕ → Type 0
Agrees source start bytes = (k : ℕ) → k < length bytes → get_or bytes k 0 ≡ source (start + k)

-- A part of agreeing bytes agrees.
pub Agrees-part :
    (source : ℕ → ℕ) (start offset len : ℕ) (bytes : List ℕ)
    → Agrees source start bytes
    → offset + len ≤ length bytes
    → Agrees source (start + offset) (take len (drop offset bytes))
      × (length (take len (drop offset bytes)) ≡ len)
Agrees-part source start offset len bytes h fit = (
  λ k lt.
      get_or-take len k (drop offset bytes) 0 (omega (arith, size))
      ∙ get_or-drop offset k bytes 0
      ∙ h (offset + k) (omega (arith, size))
      ∙ ap source (omega arith),
  size,
)
  where
    size : length (take len (drop offset bytes)) ≡ len
    size = omega (arith, length-take len (drop offset bytes), length-drop offset bytes)

module _ (source : ℕ → ℕ) where
  -- The interval is stored: it is in the map, and its bytes are in the ring.
  pub record Kept (start end' : ℕ) (r r' : Reassembler) : Type 0 where
    pub output : r'.output ≡ r.output
    pub ring : Ringed source r'.output.total_pushed r'.filled_segments r'
    pub eof : (r'.eof_received ≡ r.eof_received) × (r'.eof_index ≡ r.eof_index)
    pub covers :
        (i : ℕ)
        → Covers r'.filled_segments i ↔ (((start ≤ i) × (i < end')) ⊎ Covers r.filled_segments i)

  pub copied :
      (start : ℕ) (bytes : List ℕ) (r : Reassembler)
      → Written source r.output
      → Ringed source (suc r.output.total_pushed) r.filled_segments r
      → r.output.total_pushed ≤ start
      → start + length bytes ≤ r.output.total_poped + r.output.capacity
      → 0 < length bytes
      → copy_into_ring start bytes r ≡ record r {
        ring_buffer =
            copy_loop
              (suc (length bytes))
              r.ring_size
              (place r.ring_size r.front_pos (start - r.first_unassembled_index))
              bytes
              r.ring_buffer;
      }
  unfolding copy_into_ring
  copied start bytes r w g hs he h0 =
      let d : sub64 start r.first_unassembled_index ≡ start - r.first_unassembled_index =
        omega (arith, g.unassembled, w.window_lt) in
      rw (g.started, ne→==_false (length bytes) 0 (omega arith), d)
        (rw (
          mod-place r.ring_size r.front_pos (start - r.first_unassembled_index) g.front_lt
            (omega (arith, g.size, g.unassembled, w.ordered))))

  -- The place of the index `i` in the ring, and its distance `k` from the first byte that was
  -- copied, going round.
  place-copied :
      (size front fu start i k : ℕ)
      → front < size
      → fu ≤ start
      → start - fu < size
      → fu ≤ i
      → i - fu < size
      → ((start ≤ i) × (k ≡ i - start)) ⊎ ((i < start) × (k ≡ i + size - start))
      → place size (place size front (start - fu)) k ≡ place size front (i - fu)
  place-copied size front fu start i k hf hs hs' hi hi' (inl e) = ground arith
  place-copied size front fu start i k hf hs hs' hi hi' (inr e) = ground arith

  module _ (start : ℕ) (bytes : List ℕ) (r : Reassembler) where
    pub copied-holds :
        Written source r.output
        → Ringed source (suc r.output.total_pushed) r.filled_segments r
        → Agrees source start bytes
        → r.output.total_pushed ≤ start
        → start + length bytes ≤ r.output.total_poped + r.output.capacity
        → 0 < length bytes
        → (i : ℕ) → ((start ≤ i) × (i < start + length bytes)) ⊎ Covers r.filled_segments i
        → behind r.ring_size r.front_pos
            (copy_into_ring start bytes r).ring_buffer
            (i - r.first_unassembled_index)
          ≡ source i
    copied-holds w g agrees hs he h0 i c =
        rw (copied start bytes r w g hs he h0) (elim (lt_cases i start) [
          | inl h ↦ elim c [ inl k ↦ absurd (omega arith) | inr k ↦ before k h ]
          | inr h ↦ elim (lt_cases i (start + length bytes)) [
            | inl k ↦ inside h k
            | inr k ↦ elim c [ inl l ↦ absurd (omega arith) | inr l ↦ behind_it l k ]
          ]
        ])
      where
        open r use {ring_size, front_pos, ring_buffer, first_unassembled_index}

        pos : ℕ
        pos = place ring_size front_pos (start - first_unassembled_index)

        near :
            (first_unassembled_index ≤ start)
            × (start - first_unassembled_index < ring_size)
            × (length bytes < ring_size)
        near = omega (arith, g.unassembled, g.size, w.ordered)

        pos-lt : pos < ring_size
        pos-lt = ground (arith, near, g.front_lt)

        copy : List ℕ
        copy = copy_loop (suc (length bytes)) ring_size pos bytes ring_buffer

        bounds :
            Covers r.filled_segments i
            → (first_unassembled_index ≤ i) × (i - first_unassembled_index < ring_size)
        bounds k = omega (
          arith,
          Covers-bounds (suc r.output.total_pushed) (r.output.total_poped + r.output.capacity) i
              r.filled_segments g.sorted g.below k,
          g.unassembled,
          g.size,
          w.ordered,
        )

        inside :
            start ≤ i
            → i < start + length bytes
            → behind ring_size front_pos copy (i - first_unassembled_index) ≡ source i
        inside h k =
            ap (λ m. get_or copy m 0)
              (sym (
                place-copied ring_size front_pos first_unassembled_index start i (i - start)
                  g.front_lt near.0 near.1 (omega (arith, near))
                  (omega (arith, near, g.unassembled, g.size, w.ordered)) (inl (h, refl))))
            ∙ copy_loop_in ring_size pos (i - start) bytes ring_buffer g.length_ring pos-lt
                (omega (arith, near)) (omega arith)
            ∙ agrees (i - start) (omega arith)
            ∙ ap source (omega arith)

        untouched :
            (k : ℕ)
            → Covers r.filled_segments i
            → ((start ≤ i) × (k ≡ i - start)) ⊎ ((i < start) × (k ≡ i + ring_size - start))
            → length bytes ≤ k
            → k < ring_size
            → behind ring_size front_pos copy (i - first_unassembled_index) ≡ source i
        untouched k c e hk lt =
            let p =
              place-copied ring_size front_pos first_unassembled_index start i k g.front_lt near.0
                near.1 (bounds c).0 (bounds c).1 e in
            ap (λ m. get_or copy m 0) (sym p)
            ∙ copy_loop_out ring_size pos k bytes ring_buffer g.length_ring pos-lt h0 hk lt
            ∙ ap (λ m. get_or ring_buffer m 0) p
            ∙ g.holds i c

        before :
            Covers r.filled_segments i
            → i < start
            → behind ring_size front_pos copy (i - first_unassembled_index) ≡ source i
        before c h =
            untouched (i + ring_size - start) c (inr (h, refl))
              (omega (arith, bounds c, near, g.size, g.unassembled, w.ordered))
              (omega (arith, bounds c))

        behind_it :
            Covers r.filled_segments i
            → start + length bytes ≤ i
            → behind ring_size front_pos copy (i - first_unassembled_index) ≡ source i
        behind_it c h =
            untouched (i - start) c (inl (omega arith, refl)) (omega arith)
              (omega (arith, bounds c, near))
