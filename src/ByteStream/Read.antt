-- ===== src/ByteStream/Read.antt =====
-- `read` of src/byte_stream_helpers.cc: take up to `max_len` bytes out of a stream.
use tiny_tcp_over_tun.Common.{
  drop-eq-nil, ℕ, zero, suc, ◌-◌, ◌≡◌, ◌≢◌, ◌≤◌, ◌<◌, ◌⊎◌, List, [], ◌∷◌, ◌++◌, length, take, drop,
  ltb, refl, sym, ap, ◌∙◌, if◌then◌else◌, ◌&&◌, not, ◌==◌, min, arith, length-take, length-drop,
  inl, inr, le_cases,
}
use tiny_tcp_over_tun.ByteStream.{ByteStream, peek, pop, bytes_buffered}
use tiny_tcp_over_tun.ByteStream.Invariant.{IsValid, pop-IsValid, bytes_buffered-eq}

-- `threw` is the `runtime_error` for an empty `peek`.
pub data Outcome : Type 0 where
  done : List ℕ → ByteStream → Outcome
  threw : Outcome
  out_of_fuel : Outcome

-- The body of the loop below its test: `next` is the rest of the loop.
unfoldable pub read_round :
    ℕ → List ℕ → ByteStream → List ℕ → (List ℕ → ByteStream → Outcome) → Outcome
read_round max_len out s [] next = threw
read_round max_len out s (b ∷ bs) next =
    let view = take (max_len - length out) (b ∷ bs) in next (out ++ view) (pop (length view) s)

unfoldable pub read_loop : ℕ → ℕ → List ℕ → ByteStream → Outcome
unfolding read_round
read_loop zero max_len out s = out_of_fuel
read_loop (suc fuel) max_len out s =
    let round = read_round max_len out s (peek s) (read_loop fuel max_len) in
    if not (bytes_buffered s == 0) && ltb (length out) max_len then round else done out s

-- Every round takes a byte, so `max_len + 1` rounds are enough.
unfoldable pub read : ByteStream → ℕ → Outcome
unfolding read_loop
read s max_len = read_loop (suc max_len) max_len [] s

loop_stop :
    (fuel max_len : ℕ) (out : List ℕ) (s : ByteStream)
    → (bytes_buffered s ≡ 0) ⊎ (max_len ≤ length out)
    → read_loop (suc fuel) max_len out s ≡ done out s
unfolding read_loop
loop_stop fuel max_len out s h = ground arith

loop_step :
    (fuel max_len k b : ℕ) (out bs : List ℕ) (s : ByteStream)
    → bytes_buffered s ≢ 0
    → length out < max_len
    → max_len - length out ≡ k
    → s.buffer ≡ b ∷ bs
    → read_loop (suc fuel) max_len out s
      ≡ read_loop fuel max_len (out ++ take k (b ∷ bs)) (pop (length (take k (b ∷ bs))) s)
unfolding read_loop peek
loop_step fuel max_len k b out bs s h lt ek e = rw (e, ← ek) (ground arith)

-- What `read` leaves behind when it has taken `max_len` bytes or the buffer ran empty.
pub record Took (max_len : ℕ) (s : ByteStream) (s' : ByteStream) : Type 0 where
  pub valid : IsValid s'
  pub rest : s'.buffer ≡ drop max_len s.buffer
  pub pushed : s'.total_pushed ≡ s.total_pushed

drop-min : (n : ℕ) (xs : List ℕ) → drop (min n (length xs)) xs ≡ drop n xs
drop-min n xs = elim (le_cases n (length xs)) [
  | inl h ↦ ap (λ k. drop k xs) (omega arith)
  | inr h ↦
      let e : min n (length xs) ≡ length xs = omega arith in
      rw e (drop-eq-nil (length xs) xs (omega arith) ∙ sym (drop-eq-nil n xs h))
]

read_cases :
    (max_len : ℕ) (bytes : List ℕ) (s : ByteStream)
    → IsValid s
    → s.buffer ≡ bytes
    → (s' : ByteStream) × (read s max_len ≡ done (take max_len bytes) s') × Took max_len s s'
unfolding read pop
read_cases zero bytes s v e =
    (s, loop_stop 0 0 [] s (inr (omega arith)), record { valid = v; rest = refl; pushed = refl })
read_cases (suc n) [] s v e = (
  s,
  loop_stop (suc n) (suc n) [] s (inl (omega (arith, bytes_buffered-eq s v, ap length e))),
  record { valid = v; rest = rw e refl; pushed = refl },
)
read_cases (suc n) (b ∷ bs) s v e = (
  pop k s,
  loop_step (suc n) (suc n) (suc n) b [] bs s (omega (arith, counted, ap length e)) (omega arith)
        (omega arith) e
      ∙ loop_stop n (suc n) (take (suc n) (b ∷ bs)) (pop k s) stop,
  record { valid = valid; rest = rest; pushed = refl },
)
  where
    k : ℕ
    k = length (take (suc n) (b ∷ bs))

    size : k ≡ min (suc n) (length s.buffer)
    size = rw e (length-take (suc n) (b ∷ bs))

    counted : bytes_buffered s ≡ length s.buffer
    counted = bytes_buffered-eq s v

    valid : IsValid (pop k s)
    valid = pop-IsValid k s v (omega (arith, counted, size))

    rest : drop k s.buffer ≡ drop (suc n) s.buffer
    rest = ap (λ m. drop m s.buffer) size ∙ drop-min (suc n) s.buffer

    stop : (bytes_buffered (pop k s) ≡ 0) ⊎ (suc n ≤ k)
    stop = elim (le_cases (suc n) (length s.buffer)) [
      | inl h ↦ inr (omega (arith, size))
      | inr h ↦
          inl (bytes_buffered-eq (pop k s) valid ∙ length-drop k s.buffer ∙ omega (arith, size))
    ]

-- `read` never throws and always returns: it takes the first `max_len` bytes of a valid stream, or
-- all of them if there are fewer, and leaves a valid stream with the rest.
pub read_takes :
    (max_len : ℕ) (s : ByteStream)
    → IsValid s
    → (s' : ByteStream) × (read s max_len ≡ done (take max_len s.buffer) s') × Took max_len s s'
read_takes max_len s v = read_cases max_len s.buffer s v refl
