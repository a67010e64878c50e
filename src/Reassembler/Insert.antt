-- ===== src/Reassembler/Insert.antt =====
-- `Reassembler::insert` of src/reassembler.cc as a whole, against the byte stream that the
-- substrings are cut from.
use tiny_tcp_over_tun.Common.{
  ℕ, ◌+◌, ◌≤◌, ◌<◌, ◌≡◌, ◌↔◌, ◌⊎◌, inl, inr, List, length, arith, ap, transport, subst, sym, ◌∙◌,
  Bool, true, false, ◌||◌, ◌&&◌, if◌then◌else◌, not, leb, ◌==◌, u64, add64, Bool-cases,
}
use tiny_tcp_over_tun.Reassembler.{Reassembler, flush_contiguous, prepare, store, insert}
use tiny_tcp_over_tun.Reassembler.Segments.{Covers}
use tiny_tcp_over_tun.Reassembler.Stored.{Written, Inv, Known}
use tiny_tcp_over_tun.Reassembler.Clip.{Offered, Stored, skip-Stored, store-Stored}
use tiny_tcp_over_tun.Reassembler.Settle.{Settled, flush_contiguous-Settled}
use tiny_tcp_over_tun.Reassembler.Prepare.{Prepared, Ready, prepare-Prepared}
use tiny_tcp_over_tun.Reassembler.Store.{Agrees}

pub insert_flushes :
    (first_index : ℕ) (bytes : List ℕ) (last : Bool) (r : Reassembler)
    → (let q = prepare (add64 first_index (length bytes)) last r in
        (not q.ring_initialized
          || leb (add64 first_index (length bytes)) q.first_unassembled_index
          || (length bytes == 0))
        ≡ true)
    → insert first_index bytes last r
      ≡ flush_contiguous (prepare (add64 first_index (length bytes)) last r)
unfolding insert
insert_flushes first_index bytes last r e = rw e

pub insert_stores :
    (first_index : ℕ) (bytes : List ℕ) (last : Bool) (r : Reassembler)
    → (let q = prepare (add64 first_index (length bytes)) last r in
        (not q.ring_initialized
          || leb (add64 first_index (length bytes)) q.first_unassembled_index
          || (length bytes == 0))
        ≡ false)
    → insert first_index bytes last r
      ≡ flush_contiguous
          (store first_index bytes (prepare (add64 first_index (length bytes)) last r))
unfolding insert
insert_stores first_index bytes last r e = rw e

skip_bounds :
    (started : Bool) (m u n : ℕ)
    → started ≡ true
    → (not started || leb m u || (n == 0)) ≡ true
    → (m ≤ u) ⊎ (n ≡ 0)
skip_bounds started m u n e t = ground arith

module _ (source : ℕ → ℕ) where
  -- What a whole call of `insert` does, for a substring that is `bytes` at `first_index`.
  pub record Inserted (first_index : ℕ) (bytes : List ℕ) (last : Bool) (r r' : Reassembler)
      : Type 0 where
    pub inv : Inv source r'
    pub poped : r'.output.total_poped ≡ r.output.total_poped
    pub capacity : r'.output.capacity ≡ r.output.capacity
    pub eof_received : r'.eof_received ≡ (last || r.eof_received)
    pub eof_index : r'.eof_index ≡ (if last then first_index + length bytes else r.eof_index)
    pub closed :
        r'.output.closed
        ≡ (r.output.closed || (r'.eof_received && (r'.output.total_pushed == r'.eof_index)))
    pub known : (i : ℕ) → Known r' i ↔ (Known r i ⊎ Offered source first_index bytes r i)

  -- The two halves and the flush, one after the other.
  compose :
      (first_index : ℕ) (bytes : List ℕ) (last : Bool) (r q q' r' : Reassembler)
      → Prepared source (first_index + length bytes) last r q
      → Stored source first_index bytes q q'
      → Settled source q' r'
      → Inserted first_index bytes last r r'
  compose first_index bytes last r q q' r' p t s = record {
    inv = s.inv;
    poped = s.poped ∙ ap (λ o. o.total_poped) output;
    capacity = s.capacity ∙ ap (λ o. o.capacity) output;
    eof_received = s.eof.0 ∙ t.eof.0 ∙ p.eof_received;
    eof_index = s.eof.1 ∙ t.eof.1 ∙ p.eof_index;
    closed =
        s.closed
        ∙ (λ i. (output i).closed || (sym s.eof.0 i && (r'.output.total_pushed == sym s.eof.1 i)));
    known = λ i. (after i, before i);
  }
    where
      output : q'.output ≡ r.output
      output = t.output ∙ p.output

      same : (i : ℕ) → Known q i ≡ Known r i
      same i = λ j. (i < (p.output j).total_pushed) ⊎ Covers (p.filled j) i

      window : q.output.total_poped + q.output.capacity ≡ r.output.total_poped + r.output.capacity
      window = ap (λ o. o.total_poped + o.capacity) p.output

      after : (i : ℕ) → Known r' i → Known r i ⊎ Offered source first_index bytes r i
      after i c = elim ((t.known i).0 ((s.known i).0 c)) [
        | inl k ↦ inl (transport (same i) k)
        | inr o ↦ inr (omega (arith, window))
      ]

      before : (i : ℕ) → Known r i ⊎ Offered source first_index bytes r i → Known r' i
      before i (inl k) = (s.known i).1 ((t.known i).1 (inl (transport (sym (same i)) k)))
      before i (inr o) = (s.known i).1 ((t.known i).1 (inr (omega (arith, window))))

  -- `insert` of a substring of the source that ends below 2^64 keeps the invariant and the window,
  -- records the end of the stream, and closes the stream when the end is reached. Afterwards exactly
  -- those bytes are known that were known before or that the substring offers inside the window.
  pub insert-Inserted :
      (first_index : ℕ) (bytes : List ℕ) (last : Bool) (r : Reassembler)
      → Inv source r
      → Agrees source first_index bytes
      → first_index + length bytes < u64
      → Inserted first_index bytes last r (insert first_index bytes last r)
  insert-Inserted first_index bytes last r v agrees h = ready p.ready
    where
      q : Reassembler
      q = prepare (add64 first_index (length bytes)) last r

      e : add64 first_index (length bytes) ≡ first_index + length bytes
      e = omega arith

      p : Prepared source (first_index + length bytes) last r q
      p =
          subst (λ m. Prepared source m last r q) e
            (prepare-Prepared source (add64 first_index (length bytes)) last r v)

      flushed :
          Ready source q
          → ((i : ℕ) → Offered source first_index bytes q i → i < q.output.total_pushed)
          → Inserted first_index bytes last r (flush_contiguous q)
      flushed ready h' =
          let t =
            skip-Stored source first_index bytes q ready
              (p.unassembled ∙ sym (ap (λ s. s.total_pushed) p.output)) h' in
          compose first_index bytes last r q q (flush_contiguous q) p t
            (flush_contiguous-Settled source q (rw p.output v.stream) t.flushable)

      ready : Ready source q → Inserted first_index bytes last r (insert first_index bytes last r)
      ready (inl f) =
          rw
            (insert_flushes first_index bytes last r (λ i.
              not (f.0 i)
              || leb (add64 first_index (length bytes)) q.first_unassembled_index
              || (length bytes == 0)))
            (flushed (inl f) (λ i o. omega (
              arith,
              f.1,
              ap (λ s. s.total_poped) p.output,
              v.stream.ordered,
              ap (λ s. s.total_pushed) p.output,
            )))
      ready (inr g) =
          elim (Bool-cases (
            not q.ring_initialized
            || leb (add64 first_index (length bytes)) q.first_unassembled_index
            || (length bytes == 0))) [
              | inl t ↦ rw (insert_flushes first_index bytes last r t) (
                  flushed (inr g) (λ i o.
                    elim (skip_bounds q.ring_initialized (add64 first_index (length bytes))
                      q.first_unassembled_index (length bytes) g.started t) [
                        | inl k ↦ omega (arith, e, g.unassembled)
                        | inr k ↦ absurd (omega (arith))
                      ]))
              | inr t ↦ rw (insert_stores first_index bytes last r t) (
                  compose first_index bytes last r q (store first_index bytes q)
                    (flush_contiguous (store first_index bytes q)) p stored
                    (flush_contiguous-Settled source (store first_index bytes q)
                      (rw (stored.output) written) stored.flushable))
            ]
        where
          written : Written source q.output
          written = rw p.output v.stream

          stored : Stored source first_index bytes q (store first_index bytes q)
          stored =
              store-Stored source first_index bytes q written g
                (p.unacceptable ∙ sym (ap (λ s. s.total_poped + s.capacity) p.output)) h agrees
