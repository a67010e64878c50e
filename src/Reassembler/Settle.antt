-- ===== src/Reassembler/Settle.antt =====
-- `flush_contiguous` of src/reassembler.cc as a whole: what it leaves for the next call.
use tiny_tcp_over_tun.Common.{
  ℕ, suc, ◌≡◌, ◌↔◌, ◌⊎◌, inl, inr, [], arith, refl, ◌∙◌, true, false, ◌||◌, ◌&&◌, if◌then◌else◌,
  ◌==◌, Bool-cases,
}
use tiny_tcp_over_tun.ByteStream
use tiny_tcp_over_tun.ByteStream.{ByteStream}
use tiny_tcp_over_tun.ByteStream.Invariant.{close-IsValid}
use tiny_tcp_over_tun.Reassembler.{Reassembler, flush_loop, flush_contiguous, close_at_eof}
use tiny_tcp_over_tun.Reassembler.Stored.{Written, Ringed, Inv, Known}
use tiny_tcp_over_tun.Reassembler.Flush.{Flushed}
use tiny_tcp_over_tun.Reassembler.Flush.Loop.{flush_loop-Flushed}

flush_idle : (r : Reassembler) → r.ring_initialized ≡ false → flush_contiguous r ≡ close_at_eof r
unfolding flush_contiguous
flush_idle r e = λ i. close_at_eof (if e i then flush_loop r.filled_segments r else r)

flush_started :
    (r : Reassembler)
    → r.ring_initialized ≡ true
    → flush_contiguous r ≡ close_at_eof (flush_loop r.filled_segments r)
unfolding flush_contiguous
flush_started r e = λ i. close_at_eof (if e i then flush_loop r.filled_segments r else r)

module _ (source : ℕ → ℕ) where
  -- What `flush_contiguous` leaves: the window has not moved, the bytes known are the same, and the
  -- stream is closed if it was or if its end has been reached.
  pub record Settled (r r' : Reassembler) : Type 0 where
    pub inv : Inv source r'
    pub poped : r'.output.total_poped ≡ r.output.total_poped
    pub capacity : r'.output.capacity ≡ r.output.capacity
    pub eof : (r'.eof_received ≡ r.eof_received) × (r'.eof_index ≡ r.eof_index)
    pub closed :
        r'.output.closed
        ≡ (r.output.closed || (r.eof_received && (r'.output.total_pushed == r.eof_index)))
    pub known : (i : ℕ) → Known r' i ↔ Known r i

  -- The ring, empty or not, before the flush.
  abbrev pub Flushable : Reassembler → Type 0
  Flushable r =
      ((r.ring_initialized ≡ false)
        × (r.filled_segments ≡ [])
        × (r.pending_bytes ≡ 0)
        × (r.first_unassembled_index ≡ r.output.total_pushed))
      ⊎ Ringed source r.output.total_pushed r.filled_segments r

  close-Written : (s : ByteStream) → Written source s → Written source (ByteStream.close s)
  unfolding ByteStream.close
  close-Written s w = record {
    valid = close-IsValid s w.valid;
    ordered = w.ordered;
    window_lt = w.window_lt;
    written = w.written;
  }

  close-Inv :
      (r : Reassembler)
      → Inv source r
      → Inv source (record r { output = ByteStream.close r.output })
  unfolding ByteStream.close
  close-Inv r v = record { stream = close-Written r.output v.stream; ring = ring v.ring }
    where
      ring :
          ((r.ring_initialized ≡ false) × (r.filled_segments ≡ []) × (r.pending_bytes ≡ 0))
            ⊎ Ringed source (suc r.output.total_pushed) r.filled_segments r
          → ((r.ring_initialized ≡ false) × (r.filled_segments ≡ []) × (r.pending_bytes ≡ 0))
            ⊎ Ringed source
                (suc r.output.total_pushed)
                r.filled_segments
                (record r { output = ByteStream.close r.output })
      ring (inl f) = inl f
      ring (inr g) = inr (record {
        started = g.started;
        size = g.size;
        length_ring = g.length_ring;
        front_lt = g.front_lt;
        unassembled = g.unassembled;
        sorted = g.sorted;
        below = g.below;
        counted = g.counted;
        holds = g.holds;
      })

  close_at_eof-Settled :
      (r : Reassembler)
      → Inv source r
      → r.first_unassembled_index ≡ r.output.total_pushed
      → Settled r (close_at_eof r)
  unfolding close_at_eof ByteStream.close
  close_at_eof-Settled r v u =
      elim (Bool-cases (r.eof_received && (r.first_unassembled_index == r.eof_index))) [
        | inl e ↦ rw e (record {
          inv = close-Inv r v;
          poped = refl;
          capacity = refl;
          eof = (refl, refl);
          closed = rw (← u, e) (ground arith);
          known = λ i. (λ c. c, λ c. c);
        })
        | inr e ↦ rw e (record {
          inv = v;
          poped = refl;
          capacity = refl;
          eof = (refl, refl);
          closed = rw (← u, e) (ground arith);
          known = λ i. (λ c. c, λ c. c);
        })
      ]

  pub flush_contiguous-Settled :
      (r : Reassembler) → Written source r.output → Flushable r → Settled r (flush_contiguous r)
  flush_contiguous-Settled r w (inl f) =
      rw (flush_idle r f.0)
        (close_at_eof-Settled r (record { stream = w; ring = inl (f.0, f.1, f.2) }) f.3)
  flush_contiguous-Settled r w (inr g) = rw (flush_started r g.started) (record {
    inv = s.inv;
    poped = s.poped ∙ f.poped;
    capacity = s.capacity ∙ f.capacity;
    eof = (s.eof.0 ∙ f.eof.0, s.eof.1 ∙ f.eof.1);
    closed =
        s.closed
        ∙ (λ i. f.closed i || (f.eof.0 i && ((close_at_eof q).output.total_pushed == f.eof.1 i)));
    known = λ i. (λ c. f.no_more i ((s.known i).0 c), λ c. (s.known i).1 (f.known i c));
  })
    where
      q : Reassembler
      q = flush_loop r.filled_segments r

      f : Flushed source r.filled_segments r q q.filled_segments
      f = flush_loop-Flushed source r.filled_segments r w g

      s : Settled q (close_at_eof q)
      s =
          close_at_eof-Settled q (record { stream = f.stream; ring = inr f.ring })
            f.ring.unassembled
