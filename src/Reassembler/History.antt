-- ===== src/Reassembler/History.antt =====
-- Histories of a `Reassembler` (src/reassembler.cc): substrings of one byte stream arrive in any
-- order, and the reader of the output stream takes bytes out.
use tiny_tcp_over_tun.Common.{
  ℕ, suc, ◌+◌, ◌≤◌, ◌<◌, ◌≡◌, ◌↔◌, ◌⊎◌, inl, inr, List, [], length, drop, arith, refl, ap, ap₂, sym,
  transport, ◌∙◌, Bool, false, u64, slice, drop-slice, length-drop,
}
use tiny_tcp_over_tun.ByteStream
use tiny_tcp_over_tun.ByteStream.Invariant.{init-IsValid, pop-IsValid, bytes_buffered-eq}
use tiny_tcp_over_tun.Reassembler.{Reassembler, init, insert, count_bytes_pending}
use tiny_tcp_over_tun.Reassembler.Segments.{Covers, total, Covers-bounds, IsBelow-mono}
use tiny_tcp_over_tun.Reassembler.Stored.{Written, Ringed, Inv, Known}
use tiny_tcp_over_tun.Reassembler.Store.{Agrees}
use tiny_tcp_over_tun.Reassembler.Clip.{Offered}
use tiny_tcp_over_tun.Reassembler.Insert.{insert-Inserted}

-- `Reader::pop` on the output stream.
abbrev pub pop_output : ℕ → Reassembler → Reassembler
pop_output len r = record r { output = ByteStream.pop len r.output }

pub data Step (source : ℕ → ℕ) (r : Reassembler) : Reassembler → Type 0 where
  inserts :
      (first_index : ℕ) (bytes : List ℕ) (last : Bool)
      → Agrees source first_index bytes
      → first_index + length bytes < u64
      → Step source r (insert first_index bytes last r)
  pops :
      (len : ℕ)
      → len ≤ ByteStream.bytes_buffered r.output
      → r.output.total_poped + len + r.output.capacity + 1 < u64
      → Step source r (pop_output len r)

pub data Reach (source : ℕ → ℕ) (r : Reassembler) : Reassembler → Type 0 where
  here : Reach source r r
  next : {s t : Reassembler} → Reach source r s → Step source s t → Reach source r t

-- The byte at index `i` has arrived inside the window: a substring of the history has it, and when
-- that substring was inserted the index was below the number of popped bytes plus the capacity.
abbrev pub Arrived : {source : ℕ → ℕ} {r s : Reassembler} → Reach source r s → ℕ → Type 0
Arrived here i = ⊥
Arrived {source} (next {s} reach (inserts first_index bytes last agrees h)) i =
    Arrived reach i ⊎ Offered source first_index bytes s i
Arrived (next reach (pops len h fit)) i = Arrived reach i

module _ (source : ℕ → ℕ) where
  -- A new reassembler satisfies the invariant.
  pub init-Inv : (capacity : ℕ) → capacity + 1 < u64 → Inv source (init (ByteStream.init capacity))
  unfolding init ByteStream.init
  init-Inv capacity h = record {
    stream = record {
      valid = init-IsValid capacity (omega arith);
      ordered = omega arith;
      window_lt = omega arith;
      written = refl;
    };
    ring = inl (refl, refl, refl);
  }

  pop_output-Written :
      (len : ℕ) (r : Reassembler)
      → Written source r.output
      → len ≤ ByteStream.bytes_buffered r.output
      → r.output.total_poped + len + r.output.capacity + 1 < u64
      → Written source (ByteStream.pop len r.output)
  unfolding ByteStream.pop
  pop_output-Written len r w h fit =
      let b = bytes_buffered-eq r.output w.valid in
      let l = length-drop len r.output.buffer in
      record {
        valid = pop-IsValid len r.output w.valid h;
        ordered = omega (arith, b, w.valid.counted, w.ordered);
        window_lt = omega arith;
        written =
            ap (drop len) w.written
            ∙ drop-slice source r.output.total_poped (length r.output.buffer) len
            ∙ ap₂ (slice source) (omega arith) (omega (arith, l));
      }

  pop_output-Inv :
      (len : ℕ) (r : Reassembler)
      → Inv source r
      → len ≤ ByteStream.bytes_buffered r.output
      → r.output.total_poped + len + r.output.capacity + 1 < u64
      → Inv source (pop_output len r)
  unfolding ByteStream.pop
  pop_output-Inv len r v h fit = record {
    stream = pop_output-Written len r v.stream h fit;
    ring = ring v.ring;
  }
    where
      ring :
          ((r.ring_initialized ≡ false) × (r.filled_segments ≡ []) × (r.pending_bytes ≡ 0))
            ⊎ Ringed source (suc r.output.total_pushed) r.filled_segments r
          → ((r.ring_initialized ≡ false) × (r.filled_segments ≡ []) × (r.pending_bytes ≡ 0))
            ⊎ Ringed source (suc r.output.total_pushed) r.filled_segments (pop_output len r)
      ring (inl f) = inl f
      ring (inr g) = inr (record {
        started = g.started;
        size = g.size;
        length_ring = g.length_ring;
        front_lt = g.front_lt;
        unassembled = g.unassembled;
        sorted = g.sorted;
        below = IsBelow-mono r.filled_segments (omega arith) g.below;
        counted = g.counted;
        holds = g.holds;
      })

  -- Every step keeps the invariant.
  pub Step-Inv : {r s : Reassembler} → Step source r s → Inv source r → Inv source s
  Step-Inv {r} (inserts first_index bytes last agrees h) v =
      (insert-Inserted source first_index bytes last r v agrees h).inv
  Step-Inv {r} (pops len h fit) v = pop_output-Inv len r v h fit

  pub Reach-Inv : {r s : Reassembler} → Inv source r → Reach source r s → Inv source s
  Reach-Inv v here = v
  Reach-Inv v (next reach step) = Step-Inv step (Reach-Inv v reach)

  Inv-missing : (r : Reassembler) → Inv source r → ¬ Known r r.output.total_pushed
  Inv-missing r v (inl h) = omega arith
  Inv-missing r v (inr c) = not_covered v.ring
    where
      not_covered :
          ((r.ring_initialized ≡ false) × (r.filled_segments ≡ []) × (r.pending_bytes ≡ 0))
            ⊎ Ringed source (suc r.output.total_pushed) r.filled_segments r
          → ⊥
      not_covered (inl f) = transport (λ i. Covers (f.1 i) r.output.total_pushed) c
      not_covered (inr g) = omega (
        arith,
        Covers-bounds (suc r.output.total_pushed) (r.output.total_poped + r.output.capacity)
            r.output.total_pushed r.filled_segments g.sorted g.below c,
      )

  Inv-pending : (r : Reassembler) → Inv source r → count_bytes_pending r ≡ total r.filled_segments
  unfolding count_bytes_pending
  Inv-pending r v = elim v.ring [ inl f ↦ f.2 ∙ sym (ap total f.1) | inr g ↦ g.counted ]

  Known-init : (capacity i : ℕ) → Known (init (ByteStream.init capacity)) i → ⊥
  unfolding init ByteStream.init
  Known-init capacity i (inl h) = omega arith
  Known-init capacity i (inr c) = c

  -- Popping changes neither the number of pushed bytes nor what is stored.
  Known-pop_output : (len : ℕ) (r : Reassembler) (i : ℕ) → Known (pop_output len r) i ↔ Known r i
  unfolding ByteStream.pop
  Known-pop_output len r i = (λ k. k, λ k. k)

  -- What the reassembler knows is the history of what arrived inside the window.
  Known-Arrived :
      (capacity : ℕ) {r : Reassembler}
      → capacity + 1 < u64
      → (reach : Reach source (init (ByteStream.init capacity)) r) → (i : ℕ)
      → Known r i ↔ Arrived reach i
  Known-Arrived capacity h here i = (Known-init capacity i, λ b. absurd b)
  Known-Arrived capacity h (next {s} reach (inserts first_index bytes last agrees fit)) i =
      let now =
        (insert-Inserted source first_index bytes last s (Reach-Inv (init-Inv capacity h) reach)
            agrees fit).known
          i in
      let before = Known-Arrived capacity h reach i in
      (
        λ k. elim (now.0 k) [ inl old ↦ inl (before.0 old) | inr new ↦ inr new ],
        λ k. now.1 (elim k [ inl old ↦ inl (before.1 old) | inr new ↦ inr new ]),
      )
  Known-Arrived capacity h (next {s} reach (pops len below fit)) i =
      let same = Known-pop_output len s i in
      let before = Known-Arrived capacity h reach i in
      (λ k. before.0 (same.0 k), λ k. same.1 (before.1 k))

  -- Substrings of one byte stream are inserted into a new reassembler in any order, with all indices
  -- below 2^64, and the reader pops in between, each time no more than the output stream has buffered.
  -- Afterwards the bytes that are written to the output stream or stored are exactly those that
  -- arrived inside the window; the output stream holds the bytes of the source from the number of
  -- popped bytes up to the number of pushed ones; the byte at the number of pushed ones is neither
  -- written nor stored; and `count_bytes_pending` is the number of the stored ones.
  pub Reach-delivers :
      (capacity : ℕ) {r : Reassembler}
      → capacity + 1 < u64
      → (reach : Reach source (init (ByteStream.init capacity)) r)
      → (r.output.buffer ≡ slice source r.output.total_poped (length r.output.buffer))
        × (r.output.total_poped + length r.output.buffer ≡ r.output.total_pushed)
        × ¬ Known r r.output.total_pushed
        × (count_bytes_pending r ≡ total r.filled_segments)
        × ((i : ℕ) → Known r i ↔ Arrived reach i)
  Reach-delivers capacity {r} h reach =
      let v = Reach-Inv (init-Inv capacity h) reach in
      let w = v.stream in
      (
        w.written,
        omega (arith, w.valid.counted, w.valid.pushed_lt, w.ordered),
        Inv-missing r v,
        Inv-pending r v,
        Known-Arrived capacity h reach,
      )
