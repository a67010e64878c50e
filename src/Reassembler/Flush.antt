-- ===== src/Reassembler/Flush.antt =====
-- `flush_contiguous` of src/reassembler.cc writes the longest known run of bytes to the stream.
pub mod Loop
use tiny_tcp_over_tun.Common.{
  ℕ, suc, ◌+◌, ◌-◌, ◌%◌, ◌≤◌, ◌<◌, ◌≡◌, ◌⊎◌, inl, inr, List, ◌∷◌, ◌++◌, length, get_or, arith, refl,
  ap, ap₂, sym, ◌∙◌, slice, slice-append, slice-ext, length-slice, lt_cases, le→leb, add64, sub64,
  length-append,
}
use tiny_tcp_over_tun.ByteStream
use tiny_tcp_over_tun.ByteStream.{ByteStream}
use tiny_tcp_over_tun.ByteStream.Invariant.{available_capacity-eq, push-IsValid}
use tiny_tcp_over_tun.Reassembler.{Reassembler, Segment, collect, push_segment}
use tiny_tcp_over_tun.Reassembler.Segments.{Covers, total-le, Covers-bounds}
use tiny_tcp_over_tun.Reassembler.Ring.{place, mod-place}
use tiny_tcp_over_tun.Reassembler.Ring.Collect.{behind, collect_lem}
use tiny_tcp_over_tun.Reassembler.Stored.{Written, Ringed}

-- A push that fits appends all its bytes.
push_fits :
    (bytes : List ℕ) (s : ByteStream)
    → length bytes ≤ ByteStream.available_capacity s
    → ByteStream.push bytes s
      ≡ record s { buffer = s.buffer ++ bytes; total_pushed = add64 s.total_pushed (length bytes) }
unfolding ByteStream.push
push_fits bytes s h = rw (le→leb (length bytes) (ByteStream.available_capacity s) h)

module _ (source : ℕ → ℕ) where
  -- A push of `n` bytes that left the stream a part of the source.
  pub record Extended (n : ℕ) (s s' : ByteStream) : Type 0 where
    pub stream : Written source s'
    pub pushed : s'.total_pushed ≡ s.total_pushed + n
    pub poped : s'.total_poped ≡ s.total_poped
    pub capacity : s'.capacity ≡ s.capacity
    pub closed : s'.closed ≡ s.closed
    pub error : s'.error ≡ s.error

  -- Bytes of the source that continue the stream, and that fit, keep it a part of the source.
  push-Extended :
      (bytes : List ℕ) (s : ByteStream) (n : ℕ)
      → Written source s
      → bytes ≡ slice source s.total_pushed n
      → s.total_pushed + n ≤ s.total_poped + s.capacity
      → Extended n s (ByteStream.push bytes s)
  push-Extended bytes s n w e h =
      let fits = push_fits bytes s (omega (arith, size, room, buffered)) in
      rw fits (record {
        stream = record {
          valid = rw fits at (push-IsValid bytes s w.valid);
          ordered = omega (arith, size, w.window_lt);
          window_lt = w.window_lt;
          written =
              ap₂ ◌++◌ w.written (e ∙ ap (λ k. slice source k n) (omega (arith, buffered)))
              ∙ slice-append source s.total_poped (length s.buffer) n
              ∙ ap (slice source s.total_poped) (omega (arith, length-append s.buffer bytes, size));
        };
        pushed = omega (arith, size, w.window_lt);
        poped = refl;
        capacity = refl;
        closed = refl;
        error = refl;
      })
    where
      size : length bytes ≡ n
      size = ap length e ∙ length-slice source s.total_pushed n

      room : ByteStream.available_capacity s ≡ s.capacity - length s.buffer
      room = available_capacity-eq s w.valid

      buffered : s.total_poped + length s.buffer ≡ s.total_pushed
      buffered = omega (arith, w.valid.counted, w.valid.pushed_lt, w.valid.poped_lt, w.ordered)

  -- What one round of the flushing loop, or all of it, leaves: the window has not moved, and the
  -- same bytes are known.
  pub record Flushed (segs : List Segment) (r r' : Reassembler) (segs' : List Segment)
      : Type 0 where
    pub stream : Written source r'.output
    pub ring : Ringed source (suc r'.output.total_pushed) segs' r'
    pub poped : r'.output.total_poped ≡ r.output.total_poped
    pub capacity : r'.output.capacity ≡ r.output.capacity
    pub closed : r'.output.closed ≡ r.output.closed
    pub error : r'.output.error ≡ r.output.error
    pub eof : (r'.eof_received ≡ r.eof_received) × (r'.eof_index ≡ r.eof_index)
    pub grows : r.output.total_pushed ≤ r'.output.total_pushed
    pub known :
        (i : ℕ)
        → ((i < r.output.total_pushed) ⊎ Covers segs i)
        → (i < r'.output.total_pushed) ⊎ Covers segs' i
    pub no_more :
        (i : ℕ)
        → (i < r'.output.total_pushed) ⊎ Covers segs' i
        → (i < r.output.total_pushed) ⊎ Covers segs i

  chunk-eq :
      (a b : ℕ) (segs : List Segment) (r : Reassembler)
      → Written source r.output
      → Ringed source r.output.total_pushed ((a, b) ∷ segs) r
      → a ≡ r.first_unassembled_index
      → collect (suc (sub64 b a)) r.ring_size r.front_pos (sub64 b a) 0 r.ring_buffer
        ≡ slice source r.output.total_pushed (b - a)
  chunk-eq a b segs r w g e =
      let len : sub64 b a ≡ b - a = omega (arith, g.sorted, g.below, w.window_lt) in
      rw len (
        collect_lem (suc (b - a)) r.ring_size r.front_pos (b - a) 0 r.ring_buffer g.length_ring
          g.front_lt (omega (arith, g.sorted, g.below, g.size, w.ordered, g.unassembled))
          (omega arith) (omega arith)
        ∙ ap (slice (behind r.ring_size r.front_pos r.ring_buffer) 0) (omega arith)
        ∙ slice-ext (behind r.ring_size r.front_pos r.ring_buffer) source 0 r.output.total_pushed
            (b - a)
            (λ k lt.
              ap (behind r.ring_size r.front_pos r.ring_buffer) (omega (arith, g.unassembled))
              ∙ g.holds (r.output.total_pushed + k)
                  (inl (omega (arith, g.unassembled), omega (arith, g.unassembled)))))

  behind-later :
      (size front len j i : ℕ) (ring : List ℕ)
      → front < size
      → len + j < size
      → i ≡ len + j
      → behind size (place size front len) ring j ≡ behind size front ring i
  behind-later size front len j i ring hf hl e = ap (λ m. get_or ring m 0) (ground arith)

  pub push_segment-Flushed :
      (a b : ℕ) (segs : List Segment) (r : Reassembler)
      → Written source r.output
      → Ringed source r.output.total_pushed ((a, b) ∷ segs) r
      → a ≡ r.first_unassembled_index
      → Flushed ((a, b) ∷ segs) r (push_segment a b r) segs
  unfolding push_segment
  push_segment-Flushed a b segs r w g e = rw (chunk-eq a b segs r w g e) (record {
    stream = x.stream;
    ring = record {
      started = g.started;
      size = g.size ∙ ap suc (sym x.capacity);
      length_ring = g.length_ring;
      front_lt = rw moved (ground (arith, span));
      unassembled = end' ∙ sym x.pushed;
      sorted = rw ends g.sorted.2;
      below = rw (x.poped, x.capacity) g.below.1;
      counted = omega (
        arith,
        len,
        g.counted,
        w.window_lt,
        span,
        total-le (suc b) (r.output.total_poped + r.output.capacity) segs g.sorted.2 g.below.1,
      );
      holds = λ i c.
          let bs =
            Covers-bounds (suc b) (r.output.total_poped + r.output.capacity) i segs g.sorted.2
              g.below.1 c in
          rw moved (
            behind-later r.ring_size r.front_pos (b - a) (i - b) (i - r.first_unassembled_index)
              r.ring_buffer g.front_lt (omega (arith, bs, g.size, g.sorted, w.ordered))
              (omega (arith, bs, e, g.sorted))
            ∙ g.holds i (inr c));
    };
    poped = x.poped;
    capacity = x.capacity;
    closed = x.closed;
    error = x.error;
    eof = (refl, refl);
    grows = omega (arith, x.pushed);
    known = λ i c. elim c [
      | inl h ↦ inl (omega (arith, x.pushed))
      | inr (inl h) ↦ inl (omega (arith, ends))
      | inr (inr h) ↦ inr h
    ];
    no_more = λ i c. elim c [ inl h ↦ first_part i (omega (arith, ends)) | inr h ↦ inr (inr h) ];
  })
    where
      x :
          Extended
            (b - a)
            r.output
            (ByteStream.push (slice source r.output.total_pushed (b - a)) r.output)
      x =
          push-Extended (slice source r.output.total_pushed (b - a)) r.output (b - a) w refl
            (omega (arith, g.sorted, g.below))

      end' : b ≡ r.output.total_pushed + (b - a)
      end' = omega (arith, g.sorted, g.unassembled)

      ends :
          (ByteStream.push (slice source r.output.total_pushed (b - a)) r.output).total_pushed ≡ b
      ends = x.pushed ∙ sym end'

      span : (b - a < r.ring_size) × (b - a ≤ r.ring_size)
      span = omega (arith, g.sorted, g.below, g.size, g.unassembled, w.ordered)

      len : sub64 b a ≡ b - a
      len = omega (arith, g.sorted, g.below, w.window_lt)

      moved : (r.front_pos + sub64 b a) % r.ring_size ≡ place r.ring_size r.front_pos (b - a)
      moved = rw len (mod-place r.ring_size r.front_pos (b - a) g.front_lt span.1)

      first_part : (i : ℕ) → i < b → (i < r.output.total_pushed) ⊎ Covers ((a, b) ∷ segs) i
      first_part i h = elim (lt_cases i r.output.total_pushed) [
        | inl k ↦ inl k
        | inr k ↦ inr (inl (omega (arith, e, g.unassembled), h))
      ]
