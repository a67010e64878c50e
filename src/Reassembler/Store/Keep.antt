-- ===== src/Reassembler/Store/Keep.antt =====
-- `copy_into_ring` and then `add_interval` (src/reassembler.cc), for an interval in the window.
use tiny_tcp_over_tun.Common.{
  ℕ, suc, ◌+◌, ◌≤◌, ◌<◌, ◌≡◌, List, length, arith, refl, ◌↔◌, ◌⊎◌, ◌∙◌, lt→leb_false, ◌-◌,
}
use tiny_tcp_over_tun.Reassembler.{Reassembler, copy_into_ring, add_segment, add_interval}
use tiny_tcp_over_tun.Reassembler.Segments.{IsSorted, IsBelow, total, Covers, IsSorted-mono}
use tiny_tcp_over_tun.Reassembler.Segments.Refine.{add_segment_lem}
use tiny_tcp_over_tun.Reassembler.Ring.{place, length-copy_loop}
use tiny_tcp_over_tun.Reassembler.Stored.{Written, Ringed}
use tiny_tcp_over_tun.Reassembler.Store.{Agrees, Kept, copied, copied-holds}

add_interval_proper :
    (start end' : ℕ) (r : Reassembler)
    → start < end'
    → add_interval start end' r ≡ record r {
      filled_segments = (add_segment start end' r.pending_bytes r.filled_segments).0;
      pending_bytes = (add_segment start end' r.pending_bytes r.filled_segments).1;
    }
unfolding add_interval
add_interval_proper start end' r h = rw (lt→leb_false end' start h)

module _ (source : ℕ → ℕ) where
  -- Bytes of the source that lie in the window are kept.
  pub keep :
      (start end' : ℕ) (bytes : List ℕ) (r : Reassembler)
      → Written source r.output
      → Ringed source (suc r.output.total_pushed) r.filled_segments r
      → Agrees source start bytes
      → r.output.total_pushed ≤ start
      → start < end'
      → end' ≤ r.output.total_poped + r.output.capacity
      → length bytes ≡ end' - start
      → Kept source start end' r (add_interval start end' (copy_into_ring start bytes r))
  keep start end' bytes r w g agrees hs lt he e =
      let h : 0 < length bytes = omega arith in
      let en : start + length bytes ≡ end' = omega arith in
      let c = copied source start bytes r w g hs (omega arith) h in
      let holds = copied-holds source start bytes r w g agrees hs (omega arith) h in
      rw (add_interval_proper start end' (copy_into_ring start bytes r) lt, c)
        (record {
          output = refl;
          ring = record {
            started = g.started;
            size = g.size;
            length_ring =
                length-copy_loop (suc (length bytes)) r.ring_size
                  (place r.ring_size r.front_pos (start - r.first_unassembled_index)) bytes
                  r.ring_buffer
                ∙ g.length_ring;
            front_lt = g.front_lt;
            unassembled = g.unassembled;
            sorted = segs.0;
            below = segs.1;
            counted = segs.2;
            holds = λ i k. (rw c at (holds i)) (rw (← en) at ((segs.3 i).0 k));
          };
          eof = (refl, refl);
          covers = segs.3;
        })
    where
      sorted' : IsSorted r.output.total_pushed r.filled_segments
      sorted' = IsSorted-mono r.filled_segments (omega arith) g.sorted

      segs :
          let (segs', n) = add_segment start end' r.pending_bytes r.filled_segments in
          IsSorted r.output.total_pushed segs'
          × IsBelow (r.output.total_poped + r.output.capacity) segs'
          × (n ≡ total segs')
          × ((i : ℕ) → Covers segs' i ↔ (((start ≤ i) × (i < end')) ⊎ Covers r.filled_segments i))
      segs = rw (← g.counted) at (
          add_segment_lem start end' r.output.total_pushed
            (r.output.total_poped + r.output.capacity) r.filled_segments lt hs sorted' g.below he
            (omega (arith, w.window_lt)))
