-- ===== src/Wrap32/Unwrap.antt =====
-- `wrap` and `unwrap` of src/wrapping_integers.cc are inverse near the checkpoint, and `unwrap`
-- answers with the closest of all the numbers that wrap to its argument.
use tiny_tcp_over_tun.Common.{ℕ, ◌+◌, ◌-◌, ◌%◌, ◌^◌, ◌≤◌, ◌<◌, ◌≡◌, arith, u64}
use tiny_tcp_over_tun.Wrap32.{Wrap32, u32, wrap, unwrap}

-- A raw value that fits a `uint32_t`.
abbrev pub IsWord : Wrap32 → Type 0
IsWord w = w.raw_value < u32

-- The distance between two absolute sequence numbers.
abbrev pub dist : ℕ → ℕ → ℕ
dist a b = (a - b) + (b - a)

pub wrap-IsWord : (n : ℕ) (z : Wrap32) → IsWord (wrap n z)
unfolding wrap
wrap-IsWord n z = omega arith

pub raw-wrap : (n : ℕ) (z : Wrap32) → (wrap n z).raw_value ≡ (z.raw_value + n) % u32
unfolding wrap
raw-wrap n z = omega arith

-- With a checkpoint that lies more than 2^31 below 2^64, the number that `unwrap` returns wraps to
-- the value that it was given.
pub wrap-unwrap :
    (w z : Wrap32) (checkpoint : ℕ)
    → IsWord w
    → IsWord z
    → checkpoint + 2 ^ 31 < u64
    → wrap (unwrap w z checkpoint) z ≡ w
unfolding wrap unwrap
wrap-unwrap w z checkpoint hw hz hc = ground arith

-- A number less than 2^31 away from the checkpoint is recovered from its wrapped form.
pub unwrap-wrap :
    (n : ℕ) (z : Wrap32) (checkpoint : ℕ)
    → IsWord z
    → n < u64
    → checkpoint < u64
    → dist n checkpoint < 2 ^ 31
    → unwrap (wrap n z) z checkpoint ≡ n
unfolding wrap unwrap
unwrap-wrap n z checkpoint hz hn hc hd = ground arith

-- Of all the absolute sequence numbers that wrap to a value, `unwrap` returns one that is closest
-- to the checkpoint, for a checkpoint that lies more than 2^31 below 2^64.
pub unwrap_closest :
    (w z : Wrap32) (checkpoint n : ℕ)
    → IsWord w
    → IsWord z
    → checkpoint + 2 ^ 31 < u64
    → wrap n z ≡ w
    → dist (unwrap w z checkpoint) checkpoint ≤ dist n checkpoint
unfolding wrap unwrap
unwrap_closest w z checkpoint n hw hz hc e = ground arith
