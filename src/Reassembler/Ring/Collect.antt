-- ===== src/Reassembler/Ring/Collect.antt =====
-- The inner loop of `flush_contiguous` (src/reassembler.cc): it reads round the ring.
use tiny_tcp_over_tun.Common.{
  ℕ, zero, suc, ◌+◌, ◌-◌, ◌%◌, min, ◌≤◌, ◌<◌, ◌≡◌, inl, inr, List, ◌++◌, length, take, drop, get_or,
  arith, refl, ap, ap₂, [], ◌∙◌, slice, slice-append, slice-ext, slice-get_or, lt_cases, lt→ltb,
  le→ltb_false,
}
use tiny_tcp_over_tun.Reassembler.{collect}
use tiny_tcp_over_tun.Reassembler.Ring.{place, mod-place}

-- What stands `k` places behind the front of a ring.
abbrev pub behind : ℕ → ℕ → List ℕ → ℕ → ℕ
behind size front ring k = get_or ring (place size front k) 0

collect_stop :
    (fuel size front len offset : ℕ) (ring : List ℕ)
    → len ≤ offset
    → collect (suc fuel) size front len offset ring ≡ []
unfolding collect
collect_stop fuel size front len offset ring h = rw (le→ltb_false offset len h)

collect_step :
    (fuel size front len offset pos chunk : ℕ) (ring : List ℕ)
    → offset < len
    → (front + offset) % size ≡ pos
    → min (len - offset) (size - pos) ≡ chunk
    → collect (suc fuel) size front len offset ring
      ≡ take chunk (drop pos ring) ++ collect fuel size front len (offset + chunk) ring
unfolding collect
collect_step fuel size front len offset pos chunk ring h ep ec =
    rw (lt→ltb offset len h, ep) (rw ec)

-- The bytes behind the front, from `offset` on.
pub collect_lem :
    (fuel size front len offset : ℕ) (ring : List ℕ)
    → length ring ≡ size
    → front < size
    → len ≤ size
    → offset ≤ len
    → len - offset < fuel
    → collect fuel size front len offset ring ≡ slice (behind size front ring) offset (len - offset)
collect_lem zero size front len offset ring hr hf hl ho fu = absurd (omega arith)
collect_lem (suc fuel) size front len offset ring hr hf hl ho fu = elim (lt_cases offset len) [
  | inr h ↦
      let e : len - offset ≡ 0 = omega arith in
      rw e (collect_stop fuel size front len offset ring h)
  | inl h ↦
      collect_step fuel size front len offset pos chunk ring h
        (mod-place size front offset hf (omega arith)) refl
      ∙ ap₂ ◌++◌ here (
          collect_lem fuel size front len (offset + chunk) ring hr hf hl (omega arith)
            (omega (arith, inside)))
      ∙ slice-append (behind size front ring) offset chunk (len - (offset + chunk))
      ∙ ap (slice (behind size front ring) offset) (omega arith)
]
  where
    pos : ℕ
    pos = place size front offset

    chunk : ℕ
    chunk = min (len - offset) (size - pos)

    inside : pos < size
    inside = ground arith

    here : take chunk (drop pos ring) ≡ slice (behind size front ring) offset chunk
    here =
        slice-get_or ring 0 pos chunk (omega (arith, inside))
        ∙ slice-ext (λ k. get_or ring k 0) (behind size front ring) pos offset chunk
            (λ k lt. ap (λ m. get_or ring m 0) (ground arith))
