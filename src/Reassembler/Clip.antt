-- ===== src/Reassembler/Clip.antt =====
-- The clipping of a substring to the window in `Reassembler::insert` (src/reassembler.cc).
use tiny_tcp_over_tun.Common.{
  ℕ, suc, ◌+◌, ◌-◌, min, max, ◌≤◌, ◌<◌, ◌≡◌, ◌↔◌, ◌⊎◌, inl, inr, List, length, take, drop, arith,
  refl, ap, lt→ltb, le→ltb_false, lt_cases, u64, add64, sub64,
}
use tiny_tcp_over_tun.Reassembler.{Reassembler, copy_into_ring, add_interval, store}
use tiny_tcp_over_tun.Reassembler.Stored.{Written, Ringed, Known}
use tiny_tcp_over_tun.Reassembler.Settle.{Flushable}
use tiny_tcp_over_tun.Reassembler.Flush.Loop.{weaken}
use tiny_tcp_over_tun.Reassembler.Prepare.{Ready}
use tiny_tcp_over_tun.Reassembler.Store.{Agrees, Agrees-part, Kept}
use tiny_tcp_over_tun.Reassembler.Store.Keep.{keep}

store_skips :
    (first_index : ℕ) (bytes : List ℕ) (q : Reassembler) (start end' : ℕ)
    → max first_index q.first_unassembled_index ≡ start
    → min (add64 first_index (length bytes)) q.first_unacceptable_index ≡ end'
    → end' ≤ start
    → store first_index bytes q ≡ q
unfolding store
store_skips first_index bytes q start end' es ee h = rw (es, ee, le→ltb_false start end' h)

store_keeps :
    (first_index : ℕ) (bytes : List ℕ) (q : Reassembler) (start end' : ℕ)
    → max first_index q.first_unassembled_index ≡ start
    → min (add64 first_index (length bytes)) q.first_unacceptable_index ≡ end'
    → start < end'
    → store first_index bytes q
      ≡ add_interval start end'
          (copy_into_ring start (take (sub64 end' start) (drop (sub64 start first_index) bytes)) q)
unfolding store
store_keeps first_index bytes q start end' es ee h = rw (es, ee, lt→ltb start end' h)

module _ (source : ℕ → ℕ) where
  -- The bytes of a substring that count: those below the end of the window.
  abbrev pub Offered : ℕ → List ℕ → Reassembler → ℕ → Type 0
  Offered first_index bytes r i =
      (first_index ≤ i)
      × (i < first_index + length bytes)
      × (i < r.output.total_poped + r.output.capacity)

  -- The part of `insert` between the two halves: what is stored is what is offered.
  pub record Stored (first_index : ℕ) (bytes : List ℕ) (q q' : Reassembler) : Type 0 where
    pub output : q'.output ≡ q.output
    pub eof : (q'.eof_received ≡ q.eof_received) × (q'.eof_index ≡ q.eof_index)
    pub flushable : Flushable source q'
    pub known : (i : ℕ) → Known q' i ↔ (Known q i ⊎ Offered first_index bytes q i)

  pub skip-Stored :
      (first_index : ℕ) (bytes : List ℕ) (q : Reassembler)
      → Ready source q
      → q.first_unassembled_index ≡ q.output.total_pushed
      → ((i : ℕ) → Offered first_index bytes q i → i < q.output.total_pushed)
      → Stored first_index bytes q q
  skip-Stored first_index bytes q ready u h = record {
    output = refl;
    eof = (refl, refl);
    flushable = elim ready [
      | inl f ↦ inl (f.0, f.2, f.3, u)
      | inr g ↦ inr (weaken source q.filled_segments q g)
    ];
    known = λ i. (λ c. inl c, λ c. elim c [ inl k ↦ k | inr o ↦ inl (h i o) ]);
  }

  pub store-Stored :
      (first_index : ℕ) (bytes : List ℕ) (q : Reassembler)
      → Written source q.output
      → Ringed source (suc q.output.total_pushed) q.filled_segments q
      → q.first_unacceptable_index ≡ q.output.total_poped + q.output.capacity
      → first_index + length bytes < u64
      → Agrees source first_index bytes
      → Stored first_index bytes q (store first_index bytes q)
  store-Stored first_index bytes q w g u h agrees = elim (lt_cases start end') [
    | inr no_room ↦ rw (store_skips first_index bytes q start end' refl ends no_room) (
        skip-Stored first_index bytes q (inr g) g.unassembled (λ i o. omega (arith, g.unassembled)))
    | inl room ↦ rw (store_keeps first_index bytes q start end' refl ends room) (kept room)
  ]
    where
      start : ℕ
      start = max first_index q.first_unassembled_index

      end' : ℕ
      end' = min (first_index + length bytes) q.first_unacceptable_index

      ends : min (add64 first_index (length bytes)) q.first_unacceptable_index ≡ end'
      ends = omega arith

      stored : Reassembler
      stored =
          add_interval start end' (
            copy_into_ring start (take (sub64 end' start) (drop (sub64 start first_index) bytes)) q)

      kept : start < end' → Stored first_index bytes q stored
      kept room = record {
        output = k.output;
        eof = k.eof;
        flushable = inr k.ring;
        known = λ i. (after i, before i);
      }
        where
          len : sub64 end' start ≡ end' - start
          len = omega arith

          offset : sub64 start first_index ≡ start - first_index
          offset = omega arith

          part :
              Agrees source start (take (end' - start) (drop (start - first_index) bytes))
              × (length (take (end' - start) (drop (start - first_index) bytes)) ≡ end' - start)
          part =
              let e : first_index + (start - first_index) ≡ start = omega arith in
              rw e at (
                Agrees-part source first_index (start - first_index) (end' - start) bytes agrees
                  (omega arith))

          k : Kept source start end' q stored
          k =
              rw (len, offset)
                (keep source start end' (take (end' - start) (drop (start - first_index) bytes)) q w
                  g part.0 (omega (arith, g.unassembled)) room (omega (arith, u)) part.1)

          pushed : stored.output.total_pushed ≡ q.output.total_pushed
          pushed = ap (λ s. s.total_pushed) k.output

          after : (i : ℕ) → Known stored i → Known q i ⊎ Offered first_index bytes q i
          after i (inl h) = inl (inl (omega (arith, pushed)))
          after i (inr c) = elim ((k.covers i).0 c) [
            | inl b ↦ inr (omega (arith, u, g.unassembled))
            | inr d ↦ inl (inr d)
          ]

          before : (i : ℕ) → Known q i ⊎ Offered first_index bytes q i → Known stored i
          before i (inl (inl h)) = inl (omega (arith, pushed))
          before i (inl (inr c)) = inr ((k.covers i).1 (inr c))
          before i (inr o) = elim (lt_cases i q.output.total_pushed) [
            | inl h ↦ inl (omega (arith, pushed))
            | inr h ↦ inr ((k.covers i).1 (inl (omega (arith, u, g.unassembled))))
          ]
