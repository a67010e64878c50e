-- ===== src/Reassembler/Flush/Loop.antt =====
-- The outer loop of `flush_contiguous` (src/reassembler.cc), and the end of the stream.
use tiny_tcp_over_tun.Common.{
  ℕ, suc, ◌≡◌, ◌≢◌, inl, inr, List, [], ◌∷◌, arith, refl, ◌∙◌, ==_refl, ne→==_false, eq_cases,
}
use tiny_tcp_over_tun.Reassembler.{Reassembler, Segment, push_segment, flush_loop}
use tiny_tcp_over_tun.Reassembler.Segments.{IsSorted, IsSorted-mono}
use tiny_tcp_over_tun.Reassembler.Stored.{Written, Ringed}
use tiny_tcp_over_tun.Reassembler.Flush.{Flushed, push_segment-Flushed}

module _ (source : ℕ → ℕ) where
  Flushed-trans :
      {segs segs' segs'' : List Segment} {r r' r'' : Reassembler}
      → Flushed source segs r r' segs'
      → Flushed source segs' r' r'' segs''
      → Flushed source segs r r'' segs''
  Flushed-trans f g = record {
    stream = g.stream;
    ring = g.ring;
    poped = g.poped ∙ f.poped;
    capacity = g.capacity ∙ f.capacity;
    closed = g.closed ∙ f.closed;
    error = g.error ∙ f.error;
    eof = (g.eof.0 ∙ f.eof.0, g.eof.1 ∙ f.eof.1);
    grows = omega (arith, f.grows, g.grows);
    known = λ i c. g.known i (f.known i c);
    no_more = λ i c. f.no_more i (g.no_more i c);
  }

  -- The loop ends where the next byte is missing.
  Flushed-here :
      (segs : List Segment) (r : Reassembler)
      → Written source r.output
      → Ringed source r.output.total_pushed segs r
      → IsSorted (suc r.output.total_pushed) segs
      → Flushed source segs r (record r { filled_segments = segs }) segs
  Flushed-here segs r w g s = record {
    stream = w;
    ring = record {
      started = g.started;
      size = g.size;
      length_ring = g.length_ring;
      front_lt = g.front_lt;
      unassembled = g.unassembled;
      sorted = s;
      below = g.below;
      counted = g.counted;
      holds = g.holds;
    };
    poped = refl;
    capacity = refl;
    closed = refl;
    error = refl;
    eof = (refl, refl);
    grows = omega arith;
    known = λ i c. c;
    no_more = λ i c. c;
  }

  flush_loop_here :
      (a b : ℕ) (segs : List Segment) (r : Reassembler)
      → a ≡ r.first_unassembled_index
      → flush_loop ((a, b) ∷ segs) r ≡ flush_loop segs (push_segment a b r)
  unfolding flush_loop
  flush_loop_here a b segs r e = rw (e, ==_refl)

  flush_loop_stop :
      (a b : ℕ) (segs : List Segment) (r : Reassembler)
      → a ≢ r.first_unassembled_index
      → flush_loop ((a, b) ∷ segs) r ≡ record r { filled_segments = (a, b) ∷ segs }
  unfolding flush_loop
  flush_loop_stop a b segs r e = rw (ne→==_false a r.first_unassembled_index e)

  -- Each round starts at or behind the end of the round before it.
  pub weaken :
      {lo : ℕ} (segs : List Segment) (r : Reassembler)
      → Ringed source (suc lo) segs r
      → Ringed source lo segs r
  weaken segs r g = record {
    started = g.started;
    size = g.size;
    length_ring = g.length_ring;
    front_lt = g.front_lt;
    unassembled = g.unassembled;
    sorted = IsSorted-mono segs (omega arith) g.sorted;
    below = g.below;
    counted = g.counted;
    holds = g.holds;
  }

  pub flush_loop-Flushed :
      (segs : List Segment) (r : Reassembler)
      → Written source r.output
      → Ringed source r.output.total_pushed segs r
      → Flushed source segs r (flush_loop segs r) (flush_loop segs r).filled_segments
  unfolding flush_loop
  flush_loop-Flushed [] r w g = Flushed-here [] r w g tt
  flush_loop-Flushed ((a, b) ∷ segs) r w g = elim (eq_cases a r.first_unassembled_index) [
    | inl e ↦
        let f = push_segment-Flushed source a b segs r w g e in
        rw (flush_loop_here a b segs r e) (
          Flushed-trans f (
            flush_loop-Flushed segs (push_segment a b r) f.stream
              (weaken segs (push_segment a b r) f.ring)))
    | inr ne ↦ rw (flush_loop_stop a b segs r ne) (
        Flushed-here ((a, b) ∷ segs) r w g
          (omega (arith, ne, g.sorted, g.unassembled), g.sorted.1, g.sorted.2))
  ]
