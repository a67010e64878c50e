-- ===== src/TcpSender/Acks/Congestion.antt =====
-- The congestion window of src/tcp_sender.cc: how it grows with the acknowledged bytes.
use tiny_tcp_over_tun.Common.{
  ℕ, zero, suc, ◌+◌, ◌*◌, ◌/◌, ◌≤◌, ◌<◌, ◌≡◌, Bool, true, false, ltb, if◌then◌else◌, add64, sub64,
  u64, arith, inl, inr, lt_cases, le→leb, lt→leb_false, le→ltb_false, ◌-◌,
}
use native.Mathlib.Nat.{le_of_mul-le-mul_right, div-mul-le_self, mul-le-mul_left, add-mul}
use tiny_tcp_over_tun.TcpSender.{TcpSender}
use tiny_tcp_over_tun.TcpSender.Acks.{avoid_loop, grow}

-- A share `n * 1000 / cwnd` of a window of at least 1000 bytes is at most `n`.
share : (n cwnd : ℕ) → 1000 ≤ cwnd → n * 1000 / cwnd ≤ n
share n cwnd h =
    le_of_mul-le-mul_right {k = cwnd}
      (omega (arith, div-mul-le_self (n * 1000) cwnd, mul-le-mul_left {m = 1000} {n = cwnd} n h))
      (omega arith)

-- `cwnd'` lies between `cwnd` and `cwnd + n`.
abbrev Between : ℕ → ℕ → ℕ → Type 0
Between cwnd n cwnd' = (cwnd ≤ cwnd') × (cwnd' ≤ cwnd + n)

avoid_loop_bounds :
    (fuel remaining cwnd : ℕ)
    → 1000 ≤ cwnd
    → cwnd + remaining < u64
    → Between cwnd remaining (avoid_loop fuel remaining cwnd)
unfolding avoid_loop
avoid_loop_bounds zero remaining cwnd h hu = (omega arith, omega arith)
avoid_loop_bounds (suc fuel) remaining cwnd h hu = elim (lt_cases remaining 1000) [
  | inl small ↦
      rw (lt→leb_false 1000 remaining small)
        (rest (ltb 0 remaining) (remaining * 1000 / cwnd) (share remaining cwnd h))
  | inr large ↦
      let q = share 1000 cwnd h in
      rw (le→leb 1000 remaining large) (
        full (1000000 / cwnd) (avoid_loop fuel (sub64 remaining 1000) (add64 cwnd (1000000 / cwnd)))
          q large
          (avoid_loop_bounds fuel (sub64 remaining 1000) (add64 cwnd (1000000 / cwnd))
            (omega (arith, q)) (omega (arith, q))))
]
  where
    rest :
        (b : Bool) (q : ℕ)
        → q ≤ remaining
        → Between cwnd remaining (if b then add64 cwnd q else cwnd)
    rest true q hq = (omega arith, omega arith)
    rest false q hq = (omega arith, omega arith)

    full :
        (q r : ℕ)
        → q ≤ 1000
        → 1000 ≤ remaining
        → Between (add64 cwnd q) (sub64 remaining 1000) r
        → Between cwnd remaining r
    full q r hq hr (low, high) = (omega (arith, low), omega (arith, high))

-- With a window of at least 1000 bytes, and a sum below 2^64, the congestion window never shrinks
-- on a new acknowledgment and grows by no more than the acknowledged bytes, in slow start and in
-- congestion avoidance alike.
pub grow_bounds :
    (bytes_acked : ℕ) (s : TcpSender)
    → 1000 ≤ s.cwnd
    → s.cwnd + bytes_acked < u64
    → (s.cwnd ≤ grow bytes_acked s) × (grow bytes_acked s ≤ s.cwnd + bytes_acked)
unfolding grow
grow_bounds bytes_acked s h hu = either (ltb s.cwnd s.ssthresh)
  where
    either :
        (b : Bool)
        → Between s.cwnd bytes_acked (
            if b then add64 s.cwnd bytes_acked else avoid_loop (suc bytes_acked) bytes_acked s.cwnd)
    either true = (omega arith, omega arith)
    either false = avoid_loop_bounds (suc bytes_acked) bytes_acked s.cwnd h hu

-- What `n` bytes add, in shares of a window of at least `base`
abbrev Slow : ℕ → ℕ → ℕ → ℕ → Type 0
Slow base cwnd n cwnd' = (d : ℕ) × (cwnd' ≡ cwnd + d) × (d * base ≤ n * 1000)

share_slow : (base cwnd n : ℕ) → base ≤ cwnd → n * 1000 / cwnd * base ≤ n * 1000
share_slow base cwnd n h = omega (
  arith,
  div-mul-le_self (n * 1000) cwnd,
  mul-le-mul_left {m = base} {n = cwnd} (n * 1000 / cwnd) h,
)

avoid_loop-Slow :
    (base fuel remaining cwnd : ℕ)
    → 1000 ≤ cwnd
    → base ≤ cwnd
    → cwnd + remaining < u64
    → Slow base cwnd remaining (avoid_loop fuel remaining cwnd)
unfolding avoid_loop
avoid_loop-Slow base zero remaining cwnd h hb hu = (0, omega arith, omega arith)
avoid_loop-Slow base (suc fuel) remaining cwnd h hb hu = elim (lt_cases remaining 1000) [
  | inl small ↦ rw (lt→leb_false 1000 remaining small) (
      rest (ltb 0 remaining) (remaining * 1000 / cwnd) (share remaining cwnd h)
        (share_slow base cwnd remaining hb))
  | inr large ↦
      let q = share 1000 cwnd h in
      rw (le→leb 1000 remaining large) (
        full (1000000 / cwnd) (avoid_loop fuel (sub64 remaining 1000) (add64 cwnd (1000000 / cwnd)))
          q large (share_slow base cwnd 1000 hb)
          (avoid_loop-Slow base fuel (sub64 remaining 1000) (add64 cwnd (1000000 / cwnd))
            (omega (arith, q)) (omega (arith, q)) (omega (arith, q))))
]
  where
    rest :
        (b : Bool) (q : ℕ)
        → q ≤ remaining
        → q * base ≤ remaining * 1000
        → Slow base cwnd remaining (if b then add64 cwnd q else cwnd)
    rest true q hq hs = (q, omega arith, hs)
    rest false q hq hs = (0, omega arith, omega arith)

    full :
        (q r : ℕ)
        → q ≤ 1000
        → 1000 ≤ remaining
        → q * base ≤ 1000 * 1000
        → Slow base (add64 cwnd q) (sub64 remaining 1000) r
        → Slow base cwnd remaining r
    full q r hq hr hs (d, e, hd) =
        let less : sub64 remaining 1000 ≡ remaining - 1000 = omega arith in
        (q + d, omega (arith, e), omega (arith, hd, hs, less, add-mul q d base))

-- Congestion avoidance gives the same with any two fuels above the remaining bytes, such as the one
-- that `grow` starts it with.
avoid_loop_fuel :
    (fuel fuel' remaining cwnd : ℕ)
    → remaining < fuel
    → remaining < fuel'
    → remaining < u64
    → avoid_loop fuel remaining cwnd ≡ avoid_loop fuel' remaining cwnd
unfolding avoid_loop
avoid_loop_fuel zero fuel' remaining cwnd h h' hu = absurd (omega arith)
avoid_loop_fuel (suc fuel) zero remaining cwnd h h' hu = absurd (omega arith)
avoid_loop_fuel (suc fuel) (suc fuel') remaining cwnd h h' hu = elim (lt_cases remaining 1000) [
  | inl small ↦ rw (lt→leb_false 1000 remaining small)
  | inr large ↦ rw (le→leb 1000 remaining large) (
      avoid_loop_fuel fuel fuel' (sub64 remaining 1000) (add64 cwnd (1000000 / cwnd)) (omega arith)
        (omega arith) (omega arith))
]

-- In congestion avoidance, with a window of at least 1000 bytes and a sum below 2^64, one window of
-- acknowledged bytes, or less, makes the congestion window grow by one segment of 1000 bytes at most.
pub grow_per_window :
    (bytes_acked : ℕ) (s : TcpSender)
    → s.ssthresh ≤ s.cwnd
    → 1000 ≤ s.cwnd
    → bytes_acked ≤ s.cwnd
    → s.cwnd + bytes_acked < u64
    → grow bytes_acked s ≤ s.cwnd + 1000
unfolding grow
grow_per_window bytes_acked s late h one hu =
    rw (le→ltb_false s.cwnd s.ssthresh late)
      (within (avoid_loop-Slow s.cwnd (suc bytes_acked) bytes_acked s.cwnd h (omega arith) hu))
  where
    within : {r : ℕ} → Slow s.cwnd s.cwnd bytes_acked r → r ≤ s.cwnd + 1000
    within (d, e, hd) =
        let d_le : d ≤ 1000 =
          le_of_mul-le-mul_right {k = s.cwnd} (omega (arith, hd)) (omega arith) in
        omega (arith, e)
