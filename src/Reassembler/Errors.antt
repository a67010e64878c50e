-- ===== src/Reassembler/Errors.antt =====
-- The error flag of the output stream in `Reassembler::insert` (src/reassembler.cc).
use tiny_tcp_over_tun.Common.{
  ℕ, ◌≡◌, List, [], ◌∷◌, Bool, true, false, ◌==◌, if◌then◌else◌, arith, refl, ap, ◌∙◌, add64,
  length, not, ◌||◌, leb, Bool-cases, inl, inr,
}
use tiny_tcp_over_tun.ByteStream
use tiny_tcp_over_tun.ByteStream.{ByteStream}
use tiny_tcp_over_tun.Reassembler.{
  Segment, Reassembler, push_segment, flush_loop, flush_contiguous, prepare, store, insert,
  copy_into_ring, add_interval, locate, ensure_ring, mark_end, initialize_ring,
}
use tiny_tcp_over_tun.Reassembler.Insert.{insert_flushes, insert_stores}

push-error : (bytes : List ℕ) (s : ByteStream) → (ByteStream.push bytes s).error ≡ s.error
unfolding ByteStream.push
push-error bytes s = ground arith

flush_loop-error :
    (segs : List Segment) (r : Reassembler) → (flush_loop segs r).output.error ≡ r.output.error
unfolding flush_loop push_segment
flush_loop-error [] r = refl
flush_loop-error ((start, end') ∷ segs) r =
    either (start == r.first_unassembled_index)
      (flush_loop-error segs (push_segment start end' r) ∙ push-error _ r.output)
  where
    either :
        (b : Bool)
        → (flush_loop segs (push_segment start end' r)).output.error ≡ r.output.error
        → (if b
            then flush_loop segs (push_segment start end' r)
            else record r { filled_segments = (start, end') ∷ segs }).output.error
          ≡ r.output.error
    either true e = e
    either false e = refl

flush_contiguous-error : (r : Reassembler) → (flush_contiguous r).output.error ≡ r.output.error
unfolding flush_contiguous ByteStream.close
flush_contiguous-error r = ground (arith, flush_loop-error r.filled_segments r)

prepare-error :
    (end' : ℕ) (last : Bool) (r : Reassembler) → (prepare end' last r).output.error ≡ r.output.error
unfolding prepare locate ensure_ring mark_end initialize_ring
prepare-error end' last r = ground arith

store-error :
    (first_index : ℕ) (bytes : List ℕ) (r : Reassembler)
    → (store first_index bytes r).output.error ≡ r.output.error
unfolding store copy_into_ring add_interval
store-error first_index bytes r = ground arith

-- `insert` leaves the flag alone.
pub insert-error :
    (first_index : ℕ) (bytes : List ℕ) (last : Bool) (r : Reassembler)
    → (insert first_index bytes last r).output.error ≡ r.output.error
insert-error first_index bytes last r =
    let end' = add64 first_index (length bytes) in
    let q = prepare end' last r in
    let flushed = flush_contiguous-error q ∙ prepare-error end' last r in
    elim (Bool-cases
      (not q.ring_initialized || leb end' q.first_unassembled_index || (length bytes == 0))) [
        | inl t ↦ ap (λ p. p.output.error) (insert_flushes first_index bytes last r t) ∙ flushed
        | inr t ↦
            ap (λ p. p.output.error) (insert_stores first_index bytes last r t)
            ∙ flush_contiguous-error (store first_index bytes q)
            ∙ store-error first_index bytes q
            ∙ prepare-error end' last r
      ]
