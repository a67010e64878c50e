-- ===== src/Reassembler/Prepare.antt =====
-- The first half of `Reassembler::insert` (src/reassembler.cc): the window, the ring on first use
-- and the mark of the end.
use tiny_tcp_over_tun.Common.{
  ℕ, suc, ◌+◌, ◌-◌, ◌≤◌, ◌<◌, ◌≡◌, ◌⊎◌, inl, inr, [], arith, refl, ap, sym, ◌∙◌, Bool, true, false,
  ◌||◌, ◌&&◌, not, if◌then◌else◌, length-replicate, add64, ltb, lt→ltb, lt_cases,
}
use tiny_tcp_over_tun.ByteStream
use tiny_tcp_over_tun.ByteStream.{ByteStream}
use tiny_tcp_over_tun.ByteStream.Invariant.{available_capacity-eq, bytes_buffered-eq}
use tiny_tcp_over_tun.Reassembler.{
  Reassembler, initialize_ring, locate, ensure_ring, mark_end, prepare,
}
use tiny_tcp_over_tun.Reassembler.Ring.Collect.{behind}
use tiny_tcp_over_tun.Reassembler.Stored.{Written, Ringed, Inv}

-- The three ways through `ensure_ring`.
ensure_ring_started : (r : Reassembler) → r.ring_initialized ≡ true → ensure_ring r ≡ r
unfolding ensure_ring
ensure_ring_started r e = rw e

abbrev total_of : Reassembler → ℕ
total_of r = add64 (ByteStream.bytes_buffered r.output) (ByteStream.available_capacity r.output)

ensure_ring_new :
    (r : Reassembler) (capacity : ℕ)
    → r.ring_initialized ≡ false
    → total_of r ≡ capacity
    → 0 < capacity
    → ensure_ring r ≡ initialize_ring capacity r
unfolding ensure_ring
ensure_ring_new r capacity e t h =
    (λ i. if not (e i) && ltb 0 (t i) then initialize_ring (t i) r else r)
    ∙ rw (lt→ltb 0 capacity h)

ensure_ring_none :
    (r : Reassembler) (capacity : ℕ) → total_of r ≡ capacity → capacity ≤ 0 → ensure_ring r ≡ r
unfolding ensure_ring
ensure_ring_none r capacity t h = ground arith

module _ (source : ℕ → ℕ) where
  -- No ring is there when the stream can hold nothing.
  abbrev pub Ready : Reassembler → Type 0
  Ready r =
      ((r.ring_initialized ≡ false)
        × (r.output.capacity ≡ 0)
        × (r.filled_segments ≡ [])
        × (r.pending_bytes ≡ 0))
      ⊎ Ringed source (suc r.output.total_pushed) r.filled_segments r

  pub record Prepared (segment_end : ℕ) (last : Bool) (r r' : Reassembler) : Type 0 where
    pub output : r'.output ≡ r.output
    pub filled : r'.filled_segments ≡ r.filled_segments
    pub unassembled : r'.first_unassembled_index ≡ r.output.total_pushed
    pub unacceptable : r'.first_unacceptable_index ≡ r.output.total_poped + r.output.capacity
    pub eof_received : r'.eof_received ≡ (last || r.eof_received)
    pub eof_index : r'.eof_index ≡ (if last then segment_end else r.eof_index)
    pub ready : Ready r'

  -- The window that `insert` computes from the public counts of the stream.
  window :
      (s : ByteStream)
      → Written source s
      → (add64 (ByteStream.bytes_popped s) (ByteStream.bytes_buffered s) ≡ s.total_pushed)
        × (add64 s.total_pushed (ByteStream.available_capacity s) ≡ s.total_poped + s.capacity)
        × (add64 (ByteStream.bytes_buffered s) (ByteStream.available_capacity s) ≡ s.capacity)
  unfolding ByteStream.bytes_popped
  window s w =
      let v = w.valid in
      let a = available_capacity-eq s v in
      let b = bytes_buffered-eq s v in
      (
        omega (arith, a, b, v.counted, w.ordered, w.window_lt),
        omega (arith, a, b, v.counted, v.fits, w.ordered, w.window_lt),
        omega (arith, a, b, v.counted, v.fits, w.ordered, w.window_lt),
      )

  -- The indices change, and what they are measured by does not.
  locate-Ringed :
      (r : Reassembler)
      → Written source r.output
      → Ringed source (suc r.output.total_pushed) r.filled_segments r
      → Ringed source (suc r.output.total_pushed) r.filled_segments (locate r)
  unfolding locate
  locate-Ringed r w g = record {
    started = g.started;
    size = g.size;
    length_ring = g.length_ring;
    front_lt = g.front_lt;
    unassembled = (window r.output w).0;
    sorted = g.sorted;
    below = g.below;
    counted = g.counted;
    holds = λ i c.
        ap (λ m. behind r.ring_size r.front_pos r.ring_buffer (i - m))
          ((window r.output w).0 ∙ sym g.unassembled)
        ∙ g.holds i c;
  }

  locate_lem :
      (r : Reassembler)
      → Written source r.output
      → ((locate r).first_unassembled_index ≡ r.output.total_pushed)
        × ((locate r).first_unacceptable_index ≡ r.output.total_poped + r.output.capacity)
  unfolding locate
  locate_lem r w =
      let u = window r.output w in
      (u.0, ap (λ k. add64 k (ByteStream.available_capacity r.output)) u.0 ∙ u.1)

  -- A new ring: nothing is stored yet.
  initialize_ring-Ringed :
      (r : Reassembler)
      → Written source r.output
      → r.first_unassembled_index ≡ r.output.total_pushed
      → r.filled_segments ≡ []
      → r.pending_bytes ≡ 0
      → Ringed source
          (suc r.output.total_pushed)
          r.filled_segments
          (initialize_ring r.output.capacity r)
  unfolding initialize_ring
  initialize_ring-Ringed r w u f p =
      let size : add64 r.output.capacity 1 ≡ suc r.output.capacity = omega (arith, w.window_lt) in
      rw f (record {
        started = refl;
        size = size;
        length_ring = length-replicate (add64 r.output.capacity 1) 0;
        front_lt = omega (arith, size);
        unassembled = u;
        sorted = tt;
        below = tt;
        counted = p;
        holds = λ i c. absurd c;
      })

  ensure_ring-Ready : (r : Reassembler) → Inv source r → Ready (ensure_ring (locate r))
  unfolding locate initialize_ring
  ensure_ring-Ready r v = ready v.ring (lt_cases 0 r.output.capacity)
    where
      w : Written source r.output
      w = v.stream

      ready :
          ((r.ring_initialized ≡ false) × (r.filled_segments ≡ []) × (r.pending_bytes ≡ 0))
            ⊎ Ringed source (suc r.output.total_pushed) r.filled_segments r
          → (0 < r.output.capacity) ⊎ (r.output.capacity ≤ 0)
          → Ready (ensure_ring (locate r))
      ready (inr g) c = rw (ensure_ring_started (locate r) g.started) (inr (locate-Ringed r w g))
      ready (inl f) (inl c) =
          rw (ensure_ring_new (locate r) r.output.capacity f.0 (window r.output w).2 c)
            (inr (initialize_ring-Ringed (locate r) w (window r.output w).0 f.1 f.2))
      ready (inl f) (inr c) =
          rw (ensure_ring_none (locate r) r.output.capacity (window r.output w).2 c)
            (inl (f.0, omega arith, f.1, f.2))

  mark_end-Ready :
      (segment_end : ℕ) (last : Bool) (r : Reassembler)
      → Ready r
      → Ready (mark_end segment_end last r)
  unfolding mark_end
  mark_end-Ready segment_end false r ready = ready
  mark_end-Ready segment_end true r (inl f) = inl f
  mark_end-Ready segment_end true r (inr g) = inr (record {
    started = g.started;
    size = g.size;
    length_ring = g.length_ring;
    front_lt = g.front_lt;
    unassembled = g.unassembled;
    sorted = g.sorted;
    below = g.below;
    counted = g.counted;
    holds = g.holds;
  })

  prepare-fields :
      (segment_end : ℕ) (last : Bool) (r : Reassembler)
      → let r' = prepare segment_end last r in
        (r'.output ≡ r.output)
        × (r'.filled_segments ≡ r.filled_segments)
        × (r'.first_unassembled_index ≡ (locate r).first_unassembled_index)
        × (r'.first_unacceptable_index ≡ (locate r).first_unacceptable_index)
        × (r'.eof_received ≡ (last || r.eof_received))
        × (r'.eof_index ≡ (if last then segment_end else r.eof_index))
  unfolding prepare locate mark_end ensure_ring initialize_ring
  prepare-fields segment_end false r = ground arith
  prepare-fields segment_end true r = ground arith

  pub prepare-Prepared :
      (segment_end : ℕ) (last : Bool) (r : Reassembler)
      → Inv source r
      → Prepared segment_end last r (prepare segment_end last r)
  unfolding prepare
  prepare-Prepared segment_end last r v =
      let f = prepare-fields segment_end last r in
      record {
        output = f.0;
        filled = f.1;
        unassembled = f.2 ∙ located.0;
        unacceptable = f.3 ∙ located.1;
        eof_received = f.4;
        eof_index = f.5;
        ready = mark_end-Ready segment_end last (ensure_ring (locate r)) (ensure_ring-Ready r v);
      }
    where
      located :
          ((locate r).first_unassembled_index ≡ r.output.total_pushed)
          × ((locate r).first_unacceptable_index ≡ r.output.total_poped + r.output.capacity)
      located = locate_lem r v.stream
