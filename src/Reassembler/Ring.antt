-- ===== src/Reassembler/Ring.antt =====
-- The ring buffer of src/reassembler.cc: what `copy_into_ring` writes and `flush_contiguous` reads,
-- index by index.
pub mod Collect
use tiny_tcp_over_tun.Common.{
  drop-eq-nil, ℕ, zero, suc, ◌+◌, ◌-◌, ◌%◌, min, ◌≤◌, ◌<◌, ◌≡◌, ◌≢◌, ◌⊎◌, inl, inr, List, [], ◌∷◌,
  length, take, drop, get_or, ltb, if◌then◌else◌, arith, refl, ap, ◌∙◌, sym, length-take,
  length-drop, get_or-take, get_or-drop, take-of_le, lt_cases, ne→==_false, lt→ltb, le→ltb_false,
}
use native.Mathlib.Nat.{mod-eq_of_lt, mod-eq-sub-mod}
use tiny_tcp_over_tun.Reassembler.{write_at, copy_loop}

-- The place `k` further round a ring of `size` places.
abbrev pub place : ℕ → ℕ → ℕ → ℕ
place size pos k = if ltb (pos + k) size then pos + k else pos + k - size

pub mod-place : (size pos k : ℕ) → pos < size → k ≤ size → (pos + k) % size ≡ place size pos k
mod-place size pos k hp hk = elim (lt_cases (pos + k) size) [
  | inl h ↦ rw (lt→ltb (pos + k) size h) (mod-eq_of_lt h)
  | inr h ↦ rw (le→ltb_false (pos + k) size h) (mod-eq-sub-mod h ∙ mod-eq_of_lt (omega arith))
]

pub length-write_at :
    (ring : List ℕ) (pos : ℕ) (bytes : List ℕ) → length (write_at ring pos bytes) ≡ length ring
unfolding write_at
length-write_at [] pos bytes = refl
length-write_at (x ∷ xs) zero [] = refl
length-write_at (x ∷ xs) zero (b ∷ bytes) = ap suc (length-write_at xs zero bytes)
length-write_at (x ∷ xs) (suc pos) bytes = ap suc (length-write_at xs pos bytes)

-- What stands at place `i` after a write inside the vector.
pub get_or-write_at_in :
    (ring : List ℕ) (pos k : ℕ) (bytes : List ℕ)
    → pos + length bytes ≤ length ring
    → k < length bytes
    → get_or (write_at ring pos bytes) (pos + k) 0 ≡ get_or bytes k 0
unfolding write_at
get_or-write_at_in [] pos k bytes h lt = absurd (omega arith)
get_or-write_at_in (x ∷ xs) zero k [] h lt = absurd (omega arith)
get_or-write_at_in (x ∷ xs) zero zero (b ∷ bytes) h lt = refl
get_or-write_at_in (x ∷ xs) zero (suc k) (b ∷ bytes) h lt =
    let e : 0 + suc k ≡ suc (0 + k) = omega arith in
    rw e (get_or-write_at_in xs zero k bytes (omega arith) (omega arith))
get_or-write_at_in (x ∷ xs) (suc pos) k bytes h lt =
    let e : suc pos + k ≡ suc (pos + k) = omega arith in
    rw e (get_or-write_at_in xs pos k bytes (omega arith) lt)

get_or-write_at_front :
    (ring : List ℕ) (k : ℕ) (bytes : List ℕ)
    → length bytes ≤ length ring
    → k < length bytes
    → get_or (write_at ring 0 bytes) k 0 ≡ get_or bytes k 0
get_or-write_at_front ring k bytes h lt =
    let e : 0 + k ≡ k = omega arith in rw e at (get_or-write_at_in ring 0 k bytes (omega arith) lt)

pub get_or-write_at_out :
    (ring : List ℕ) (pos i : ℕ) (bytes : List ℕ)
    → (i < pos) ⊎ (pos + length bytes ≤ i)
    → get_or (write_at ring pos bytes) i 0 ≡ get_or ring i 0
unfolding write_at
get_or-write_at_out [] pos i bytes h = refl
get_or-write_at_out (x ∷ xs) zero i [] h = refl
get_or-write_at_out (x ∷ xs) zero zero (b ∷ bytes) h = absurd (omega arith)
get_or-write_at_out (x ∷ xs) zero (suc i) (b ∷ bytes) h =
    get_or-write_at_out xs zero i bytes (inr (omega arith))
get_or-write_at_out (x ∷ xs) (suc pos) zero bytes h = refl
get_or-write_at_out (x ∷ xs) (suc pos) (suc i) bytes (inl h) =
    get_or-write_at_out xs pos i bytes (inl (omega arith))
get_or-write_at_out (x ∷ xs) (suc pos) (suc i) bytes (inr h) =
    get_or-write_at_out xs pos i bytes (inr (omega arith))

copy_stop :
    (fuel size pos : ℕ) (bytes ring : List ℕ)
    → length bytes ≡ 0
    → copy_loop (suc fuel) size pos bytes ring ≡ ring
unfolding copy_loop
copy_stop fuel size pos bytes ring h = ground arith

copy_step :
    (fuel size pos chunk : ℕ) (bytes ring : List ℕ)
    → length bytes ≢ 0
    → min (length bytes) (size - pos) ≡ chunk
    → copy_loop (suc fuel) size pos bytes ring
      ≡ copy_loop fuel size
          ((pos + chunk) % size)
          (drop chunk bytes)
          (write_at ring pos (take chunk bytes))
unfolding copy_loop
copy_step fuel size pos chunk bytes ring h e = rw (ne→==_false _ _ h) (rw e)

write_at-nil : (ring : List ℕ) (pos : ℕ) → write_at ring pos [] ≡ ring
unfolding write_at
write_at-nil [] pos = refl
write_at-nil (x ∷ xs) zero = refl
write_at-nil (x ∷ xs) (suc pos) = ap (◌∷◌ x) (write_at-nil xs pos)

-- The loop when the bytes fit before the end of the ring.
copy_once :
    (fuel size pos : ℕ) (bytes ring : List ℕ)
    → length bytes ≤ size - pos
    → copy_loop (suc (suc fuel)) size pos bytes ring ≡ write_at ring pos bytes
copy_once fuel size pos bytes ring h = elim (lt_cases 0 (length bytes)) [
  | inl more ↦
      copy_step (suc fuel) size pos (length bytes) bytes ring (omega arith) (omega arith)
      ∙ copy_stop fuel size ((pos + length bytes) % size) (drop (length bytes) bytes)
          (write_at ring pos (take (length bytes) bytes))
          (length-drop (length bytes) bytes ∙ omega arith)
      ∙ ap (write_at ring pos) (take-of_le (length bytes) bytes (omega arith))
  | inr done ↦ none_left bytes (omega arith)
]
  where
    none_left :
        (xs : List ℕ)
        → length xs ≡ 0
        → copy_loop (suc (suc fuel)) size pos xs ring ≡ write_at ring pos xs
    none_left [] e = copy_stop (suc fuel) size pos [] ring e ∙ sym (write_at-nil ring pos)
    none_left (x ∷ xs) e = absurd (omega arith)

-- The loop when they do not: the first round fills the ring up to its end.
copy_twice :
    (fuel size pos : ℕ) (bytes ring : List ℕ)
    → pos < size
    → size - pos < length bytes
    → length bytes ≤ size
    → copy_loop (suc (suc (suc fuel))) size pos bytes ring
      ≡ write_at (write_at ring pos (take (size - pos) bytes)) 0 (drop (size - pos) bytes)
copy_twice fuel size pos bytes ring hp h hl =
    copy_step (suc (suc fuel)) size pos (size - pos) bytes ring (omega arith) (omega arith)
    ∙ rw wrapped (
        copy_once fuel size 0 (drop (size - pos) bytes)
          (write_at ring pos (take (size - pos) bytes))
          (omega (arith, length-drop (size - pos) bytes)))
  where
    wrapped : (pos + (size - pos)) % size ≡ 0
    wrapped =
        let e : pos + (size - pos) ≡ size = omega arith in
        rw e (
          mod-eq-sub-mod {n = size} {m = size} (omega arith)
          ∙ mod-eq_of_lt {n = size - size} (omega arith)
          ∙ omega arith)

-- The whole of `copy_into_ring`'s loop: one write up to the end of the ring, and one from its start
-- for what is left.
pub copy_loop_lem :
    (size pos : ℕ) (bytes ring : List ℕ)
    → pos < size
    → 0 < length bytes
    → length bytes ≤ size
    → copy_loop (suc (length bytes)) size pos bytes ring
      ≡ write_at (write_at ring pos (take (size - pos) bytes)) 0 (drop (size - pos) bytes)
copy_loop_lem size pos bytes ring hp h0 hl = elim (lt_cases (size - pos) (length bytes)) [
  | inl h ↦
      let f : length bytes ≡ suc (suc (length bytes - 2)) = omega arith in
      rw f (copy_twice (length bytes - 2) size pos bytes ring hp h hl)
  | inr h ↦
      let f : length bytes ≡ suc (length bytes - 1) = omega arith in
      rw (f, drop-eq-nil (size - pos) bytes h, take-of_le (size - pos) bytes h, write_at-nil)
        (copy_once (length bytes - 1) size pos bytes ring h)
]

-- After the copy, place `pos + k` round the ring holds byte `k`, for every byte, and the other
-- places hold what they did.
pub copy_loop_in :
    (size pos k : ℕ) (bytes ring : List ℕ)
    → length ring ≡ size
    → pos < size
    → length bytes ≤ size
    → k < length bytes
    → get_or (copy_loop (suc (length bytes)) size pos bytes ring) (place size pos k) 0
      ≡ get_or bytes k 0
copy_loop_in size pos k bytes ring hr hp hl hk =
    rw (copy_loop_lem size pos bytes ring hp (omega arith) hl) (elim (lt_cases (pos + k) size) [
      | inl h ↦ rw (lt→ltb (pos + k) size h) (
          get_or-write_at_out (write_at ring pos (take (size - pos) bytes)) 0 (pos + k)
            (drop (size - pos) bytes) (inr (omega (arith, length-drop (size - pos) bytes)))
          ∙ get_or-write_at_in ring pos k (take (size - pos) bytes)
              (omega (arith, length-take (size - pos) bytes))
              (omega (arith, length-take (size - pos) bytes))
          ∙ get_or-take (size - pos) k bytes 0 (omega arith))
      | inr h ↦ rw (le→ltb_false (pos + k) size h) (
          get_or-write_at_front (write_at ring pos (take (size - pos) bytes)) (pos + k - size)
            (drop (size - pos) bytes)
            (omega (
              arith,
              length-drop (size - pos) bytes,
              length-write_at ring pos (take (size - pos) bytes),
            ))
            (omega (arith, length-drop (size - pos) bytes))
          ∙ get_or-drop (size - pos) (pos + k - size) bytes 0
          ∙ ap (λ m. get_or bytes m 0) (omega arith))
    ])

pub copy_loop_out :
    (size pos k : ℕ) (bytes ring : List ℕ)
    → length ring ≡ size
    → pos < size
    → 0 < length bytes
    → length bytes ≤ k
    → k < size
    → get_or (copy_loop (suc (length bytes)) size pos bytes ring) (place size pos k) 0
      ≡ get_or ring (place size pos k) 0
copy_loop_out size pos k bytes ring hr hp h0 hk ks =
    rw (copy_loop_lem size pos bytes ring hp h0 (omega arith)) (elim (lt_cases (pos + k) size) [
      | inl h ↦ rw (lt→ltb (pos + k) size h) (
          get_or-write_at_out (write_at ring pos (take (size - pos) bytes)) 0 (pos + k)
            (drop (size - pos) bytes) (inr (omega (arith, length-drop (size - pos) bytes)))
          ∙ get_or-write_at_out ring pos (pos + k) (take (size - pos) bytes)
              (inr (omega (arith, length-take (size - pos) bytes))))
      | inr h ↦ rw (le→ltb_false (pos + k) size h) (
          get_or-write_at_out (write_at ring pos (take (size - pos) bytes)) 0 (pos + k - size)
            (drop (size - pos) bytes) (inr (omega (arith, length-drop (size - pos) bytes)))
          ∙ get_or-write_at_out ring pos (pos + k - size) (take (size - pos) bytes)
              (inl (omega arith)))
    ])

pub length-copy_loop :
    (fuel size pos : ℕ) (bytes ring : List ℕ)
    → length (copy_loop fuel size pos bytes ring) ≡ length ring
unfolding copy_loop
length-copy_loop zero size pos bytes ring = refl
length-copy_loop (suc fuel) size pos bytes ring =
    let chunk = min (length bytes) (size - pos) in
    ground (
      arith,
      length-copy_loop fuel size ((pos + chunk) % size) (drop chunk bytes)
          (write_at ring pos (take chunk bytes)),
      length-write_at ring pos (take chunk bytes),
    )
